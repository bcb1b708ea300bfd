-- ===== src/Wire/Fragmentation/Tests.antt =====
-- The theorems of this part at concrete inputs.
use slop_sync.Base.{
  ℕ, ◌+◌, ◌%◌, ◌≤◌, ◌<◌, ◌≡◌, refl, ◌≢◌, true, false, none, some, List, [], ◌∷◌, arith, length,
  get_or, All, write_at,
}
use slop_sync.Result.{ok}
use slop_sync.Util.Serial.{u32_mod}
use slop_sync.Wire.Bytes.{at_offset, put_u8, put_u16, get_u8, get_u16}
use slop_sync.Wire.FrameHeader.{FrameHeader, encode_frame_header, decode_frame_header}
use slop_sync.Wire.FrameBuffer.{FrameBuffer, bytes}
use slop_sync.Wire.Fragmentation.{
  new_reassembler, find_slot, fragment_frame, fragments_from, fragment, frag_flags,
}
use slop_sync.Wire.Fragmentation.Image.{header_image}
use slop_sync.Wire.Fragmentation.RoundTrip.{
  frame_bytes, receive, receive_all, arrives, receive-fragment_frame,
}
use slop_sync.Wire.Fragmentation.Bounds.{fragment_frame-bound}

abbrev hello_header : FrameHeader
hello_header = record { type = 0x01; flags = 0; channel = 2; seq = 7; len = 8 }

abbrev hello_payload : List ℕ
hello_payload = 11 ∷ (12 ∷ (13 ∷ (14 ∷ (15 ∷ (16 ∷ (17 ∷ (18 ∷ [])))))))

-- Three fragments of at most three bytes of payload.
abbrev hello_fragments : List (List ℕ)
hello_fragments =
    (1 ∷ (3 ∷ (2 ∷ (0 ∷ (7 ∷ (0 ∷ (5 ∷ (0 ∷ (0 ∷ (0 ∷ (11 ∷ (12 ∷ (13 ∷ [])))))))))))))
    ∷ ((1 ∷ (2 ∷ (2 ∷ (0 ∷ (7 ∷ (0 ∷ (5 ∷ (0 ∷ (1 ∷ (0 ∷ (14 ∷ (15 ∷ (16 ∷ [])))))))))))))
        ∷ ((1 ∷ (0 ∷ (2 ∷ (0 ∷ (7 ∷ (0 ∷ (4 ∷ (0 ∷ (2 ∷ (0 ∷ (17 ∷ (18 ∷ [])))))))))))) ∷ []))

fragment_frame_hello :
    fragment_frame (frame_bytes hello_header hello_payload) 13 ≡ some hello_fragments
unfolding fragment_frame fragments_from fragment frag_flags frame_bytes header_image
    encode_frame_header decode_frame_header write_at at_offset put_u8 put_u16 get_u8 get_u16
fragment_frame_hello = refl

fragment_frame-bound_example : All (λ (f : List ℕ). length f ≤ 13) hello_fragments
fragment_frame-bound_example =
    fragment_frame-bound (frame_bytes hello_header hello_payload) 13 hello_fragments
      fragment_frame_hello

unopened : find_slot new_reassembler.slots 1 7 ≡ none
unfolding find_slot
unopened = refl

absent : arrives 1 ((2, 0) ∷ ((0, 100) ∷ ((0, 4000) ∷ []))) ≡ false
unfolding arrives
absent = refl

others : (k : ℕ) → k < 3 → 1 ≢ k → arrives k ((2, 0) ∷ ((0, 100) ∷ ((0, 4000) ∷ []))) ≡ true
unfolding arrives
others k h n = ground (arith, h, n)

-- The last fragment comes first, the first twice, and the middle one completes the frame.
receive-fragment_frame_example :
    ((receive_all hello_fragments 4294967000
        ((2, 0) ∷ ((0, 100) ∷ ((0, 4000) ∷ [])))
        new_reassembler).1
      ≡ ok none ∷ (ok none ∷ (ok none ∷ [])))
    × (frame : FrameBuffer) × ((receive
          ((4294967000 + 4999) % u32_mod)
          (get_or hello_fragments 1 [])
          (receive_all hello_fragments 4294967000
            ((2, 0) ∷ ((0, 100) ∷ ((0, 4000) ∷ [])))
            new_reassembler).0).1
        ≡ ok (some frame))
    × (bytes frame ≡ frame_bytes hello_header hello_payload)
receive-fragment_frame_example =
    receive-fragment_frame hello_header hello_payload 13 4294967000 hello_fragments new_reassembler
      ((2, 0) ∷ ((0, 100) ∷ ((0, 4000) ∷ []))) 1 4999
      (record {
        type = omega arith;
        flags = omega arith;
        channel = omega arith;
        seq = omega arith;
        len = omega arith;
      })
      (omega arith) (omega arith) fragment_frame_hello (omega arith) (omega arith) unopened
      ((omega arith, omega arith), ((omega arith, omega arith), ((omega arith, omega arith), tt)))
      (omega arith) (omega arith) absent others
