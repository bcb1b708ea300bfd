-- ===== src/Wire/Fragmentation/Image.antt =====
-- The eight bytes of a frame header, written to the front of a buffer and read from it.
use slop_sync.Base.{
  ℕ, ◌/◌, ◌%◌, ◌^◌, ◌≤◌, ◌≡◌, refl, some, List, [], ◌∷◌, ◌++◌, arith, ltb-false, length, drop,
}
use slop_sync.Wire.Bytes.{at_offset, put_u8, put_u16, get_u8, get_u16, u16_bytes, Split, split}
use slop_sync.Wire.FrameHeader.{
  FrameHeader, header_bytes, encode_frame_header, decode_frame_header, IsWord,
}

unfoldable pub header_image : FrameHeader → List ℕ
header_image h =
    h.type % 2 ^ 8
    ∷ (h.flags % 2 ^ 8
        ∷ (h.channel % 2 ^ 8
            ∷ (h.channel / 2 ^ 8 % 2 ^ 8
                ∷ (h.seq % 2 ^ 8
                    ∷ (h.seq / 2 ^ 8 % 2 ^ 8 ∷ (h.len % 2 ^ 8 ∷ (h.len / 2 ^ 8 % 2 ^ 8 ∷ [])))))))

pub encode_frame_header-image :
    (h : FrameHeader) (out : List ℕ)
    → header_bytes ≤ length out
    → encode_frame_header h out ≡ some (header_bytes, header_image h ++ drop header_bytes out)
unfolding encode_frame_header at_offset put_u8 put_u16 header_image Split
encode_frame_header-image h =
    split 8
      (λ out.
        encode_frame_header h out ≡ some (header_bytes, header_image h ++ drop header_bytes out))
      (λ a b c d e f g i rest.
        rw (ltb-false (length (a ∷ (b ∷ (c ∷ (d ∷ (e ∷ (f ∷ (g ∷ (i ∷ rest))))))))) 8 (omega arith))
          refl)

pub decode_frame_header-image :
    (h : FrameHeader) (rest : List ℕ)
    → IsWord h
    → decode_frame_header (header_image h ++ rest) ≡ some h
unfolding decode_frame_header get_u8 get_u16 header_image
decode_frame_header-image h rest w =
    let type_word : h.type % 2 ^ 8 ≡ h.type = omega (arith, w.type) in
    let flags_word : h.flags % 2 ^ 8 ≡ h.flags = omega (arith, w.flags) in
    rw (ltb-false (length (header_image h ++ rest)) 8 (omega arith)) (λ j. some (record {
      type = type_word j;
      flags = flags_word j;
      channel = u16_bytes h.channel w.channel j;
      seq = u16_bytes h.seq w.seq j;
      len = u16_bytes h.len w.len j;
    }))
