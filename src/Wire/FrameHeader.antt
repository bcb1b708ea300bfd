-- ===== src/Wire/FrameHeader.antt =====
-- wire/frame_header.hpp: the header of every frame but ESTOP.
use slop_sync.Base.{
  ℕ, ◌/◌, ◌%◌, ◌^◌, ◌≤◌, ◌<◌, ◌≡◌, refl, Option, none, some, List, ◌∷◌, arith, ltb, if◌then◌else◌,
  ltb-false, length, drop,
}
use slop_sync.Wire.Bytes.{at_offset, put_u8, put_u16, get_u8, get_u16, u16_bytes, Split, split}

abbrev pub header_bytes : ℕ
header_bytes = 8

pub record FrameHeader : Type 0 where
  pub type : ℕ
  pub flags : ℕ
  pub channel : ℕ
  pub seq : ℕ
  pub len : ℕ

-- `none` is the answer 0.
unfoldable pub encode_frame_header : FrameHeader → List ℕ → Option (ℕ × List ℕ)
unfolding at_offset put_u8 put_u16
encode_frame_header h out =
    if ltb (length out) header_bytes
    then none
    else (let a = put_u8 h.type out in
        let b = at_offset 1 (put_u8 h.flags) a in
        let c = at_offset 2 (put_u16 h.channel) b in
        let d = at_offset 4 (put_u16 h.seq) c in some (header_bytes, at_offset 6 (put_u16 h.len) d))

unfoldable pub decode_frame_header : List ℕ → Option FrameHeader
unfolding get_u8 get_u16
decode_frame_header bytes =
    if ltb (length bytes) header_bytes
    then none
    else some (record {
      type = get_u8 bytes;
      flags = get_u8 (drop 1 bytes);
      channel = get_u16 (drop 2 bytes);
      seq = get_u16 (drop 4 bytes);
      len = get_u16 (drop 6 bytes);
    })

-- The fields fit their machine integers.
pub record IsWord (h : FrameHeader) : Type 0 where
  pub type : h.type < 2 ^ 8
  pub flags : h.flags < 2 ^ 8
  pub channel : h.channel < 2 ^ 16
  pub seq : h.seq < 2 ^ 16
  pub len : h.len < 2 ^ 16

-- Encoding a header of machine integers into a buffer of at least 8 bytes succeeds, keeps every byte
-- behind the first 8, and the buffer decodes to the same header.
pub decode_frame_header-encode :
    (h : FrameHeader) (out : List ℕ)
    → IsWord h
    → header_bytes ≤ length out
    → (buf : List ℕ) × (encode_frame_header h out ≡ some (header_bytes, buf))
      × (drop header_bytes buf ≡ drop header_bytes out)
      × (length buf ≡ length out)
      × (decode_frame_header buf ≡ some h)
unfolding encode_frame_header decode_frame_header at_offset put_u8 put_u16 get_u8 get_u16 Split
decode_frame_header-encode h out w room =
    split 8
      (λ out.
        (buf : List ℕ) × (encode_frame_header h out ≡ some (header_bytes, buf))
        × (drop header_bytes buf ≡ drop header_bytes out)
        × (length buf ≡ length out)
        × (decode_frame_header buf ≡ some h))
      (λ a b c d e f g i rest.
        let type_word : h.type % 2 ^ 8 ≡ h.type = omega (arith, w.type) in
        let flags_word : h.flags % 2 ^ 8 ≡ h.flags = omega (arith, w.flags) in
        let wide =
          ltb-false (length (a ∷ (b ∷ (c ∷ (d ∷ (e ∷ (f ∷ (g ∷ (i ∷ rest))))))))) 8 (omega arith) in
        (
          h.type % 2 ^ 8
              ∷ (h.flags % 2 ^ 8
                  ∷ (h.channel % 2 ^ 8
                      ∷ (h.channel / 2 ^ 8 % 2 ^ 8
                          ∷ (h.seq % 2 ^ 8
                              ∷ (h.seq / 2 ^ 8 % 2 ^ 8
                                  ∷ (h.len % 2 ^ 8 ∷ (h.len / 2 ^ 8 % 2 ^ 8 ∷ rest))))))),
          rw wide refl,
          refl,
          refl,
          rw wide (λ j. some (record {
            type = type_word j;
            flags = flags_word j;
            channel = u16_bytes h.channel w.channel j;
            seq = u16_bytes h.seq w.seq j;
            len = u16_bytes h.len w.len j;
          })),
        ))
      out room
