-- ===== src/Wire/FrameBuffer.antt =====
-- wire/frame_buffer.hpp: a whole frame in a buffer of 512 bytes.
use slop_sync.Base.{
  ℕ, ◌≤◌, ◌<◌, ◌≡◌, refl, Option, List, [], arith, leb, if◌then◌else◌, leb-true, leb-false, length,
  take, drop, replicate, length-replicate, write_at, take-write_at,
}
use slop_sync.Wire.FrameHeader.{FrameHeader, header_bytes, decode_frame_header}

abbrev pub frame_buffer_capacity : ℕ
frame_buffer_capacity = 512

pub record FrameBuffer : Type 0 where
  pub content : List ℕ
  pub size : ℕ

abbrev pub new_frame_buffer : FrameBuffer
new_frame_buffer = record { content = replicate frame_buffer_capacity 0; size = 0 }

unfoldable pub frame_from : List ℕ → FrameBuffer
frame_from frame =
    if leb (length frame) frame_buffer_capacity
    then record {
      content = write_at 0 frame (replicate frame_buffer_capacity 0);
      size = length frame;
    }
    else new_frame_buffer

unfoldable pub set_size : FrameBuffer → ℕ → FrameBuffer
set_size b n = record b { size = if leb n frame_buffer_capacity then n else 0 }

unfoldable pub bytes : FrameBuffer → List ℕ
bytes b = take b.size b.content

unfoldable pub header : FrameBuffer → Option FrameHeader
unfolding bytes
header b = decode_frame_header (bytes b)

unfoldable pub payload : FrameBuffer → List ℕ
unfolding bytes
payload b = if leb header_bytes b.size then drop header_bytes (bytes b) else []

-- A frame that fits is kept whole, and a longer one leaves the buffer empty.
pub bytes-frame_from :
    (frame : List ℕ)
    → (length frame ≤ frame_buffer_capacity → bytes (frame_from frame) ≡ frame)
      × (frame_buffer_capacity < length frame → bytes (frame_from frame) ≡ [])
unfolding bytes frame_from
bytes-frame_from frame = (
  λ h.
      rw (leb-true (length frame) 512 h)
        (take-write_at frame (replicate 512 0) (omega (arith, h, length-replicate {A = ℕ} 512 0))),
  λ h. rw (leb-false (length frame) 512 h) refl,
)
