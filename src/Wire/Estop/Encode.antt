-- ===== src/Wire/Estop/Encode.antt =====
-- `encodeEstop` and `decodeEstop` of wire/estop_frame.hpp.
use slop_sync.Base.{
  ℕ, ◌/◌, ◌%◌, ◌^◌, ◌≤◌, ◌<◌, ◌≡◌, refl, some, List, [], ◌∷◌, ◌++◌, arith, ltb-false, ==_true,
  length, drop,
}
use slop_sync.Result.{ok}
use slop_sync.Wire.Bytes.{
  at_offset, put_u8, put_u16, put_u32, get_u8, get_u16, get_u32, u16_bytes, u32_bytes, Split, split,
}
use slop_sync.Wire.Crc32.{crc32, crc32-bound}
use slop_sync.Wire.Estop.{
  EstopFrame, estop_frame_bytes, put_magic, has_magic, encode_estop, decode_estop,
}

-- The fields fit their machine integers.
pub record IsWord (frame : EstopFrame) : Type 0 where
  pub cause : frame.cause < 2 ^ 8
  pub origin : frame.origin < 2 ^ 8
  pub seq : frame.seq < 2 ^ 16

-- The bytes that the checksum covers, and the whole frame.
unfoldable pub covered : EstopFrame → List ℕ
covered frame =
    0xE5
    ∷ (0xE5
        ∷ (0xE5
            ∷ (0xE5
                ∷ (frame.cause % 2 ^ 8
                    ∷ (frame.origin % 2 ^ 8
                        ∷ (frame.seq % 2 ^ 8 ∷ (frame.seq / 2 ^ 8 % 2 ^ 8 ∷ [])))))))

unfoldable pub estop_bytes : EstopFrame → List ℕ
unfolding covered
estop_bytes frame =
    let crc = crc32 (covered frame) in
    covered frame
    ++ (crc % 2 ^ 8 ∷ (crc / 2 ^ 8 % 2 ^ 8 ∷ (crc / 2 ^ 16 % 2 ^ 8 ∷ (crc / 2 ^ 24 % 2 ^ 8 ∷ []))))

pub encode_estop-bytes :
    (frame : EstopFrame) (out : List ℕ)
    → estop_frame_bytes ≤ length out
    → encode_estop frame out
      ≡ some (estop_frame_bytes, estop_bytes frame ++ drop estop_frame_bytes out)
unfolding encode_estop at_offset put_u8 put_u16 put_u32 put_magic estop_bytes Split
encode_estop-bytes frame =
    split 12
      (λ out.
        encode_estop frame out
        ≡ some (estop_frame_bytes, estop_bytes frame ++ drop estop_frame_bytes out))
      (λ a b c d e f g h i j k l rest.
        rw
          (ltb-false
            (length (a ∷ (b ∷ (c ∷ (d ∷ (e ∷ (f ∷ (g ∷ (h ∷ (i ∷ (j ∷ (k ∷ (l ∷ rest))))))))))))) 12
            (omega arith))
          refl)

pub decode_estop-bytes :
    (frame : EstopFrame) (rest : List ℕ)
    → IsWord frame
    → decode_estop (estop_bytes frame ++ rest) ≡ ok frame
unfolding decode_estop has_magic get_u8 get_u16 get_u32 estop_bytes
decode_estop-bytes frame rest w =
    let crc = crc32 (covered frame) in
    let cause_word : frame.cause % 2 ^ 8 ≡ frame.cause = omega (arith, w.cause) in
    let origin_word : frame.origin % 2 ^ 8 ≡ frame.origin = omega (arith, w.origin) in
    let bounded : crc < 2 ^ 32 = crc32-bound (covered frame) (
      omega arith,
      (
        omega arith,
        (
          omega arith,
          (omega arith, (omega arith, (omega arith, (omega arith, (omega arith, tt))))),
        ),
      ),
    ) in
    rw
      (
        ltb-false (length (estop_bytes frame ++ rest)) 12 (omega arith),
        u32_bytes crc bounded,
        ==_true crc crc refl,
      )
      (λ i. ok (record {
        cause = cause_word i;
        origin = origin_word i;
        seq = u16_bytes frame.seq w.seq i;
      }))

-- Encoding an emergency stop of machine integers into a buffer of at least 12 bytes succeeds, keeps every byte behind the
-- first 12, and the buffer decodes to the same frame: its magic and its checksum are right.
pub decode_estop-encode_estop :
    (frame : EstopFrame) (out : List ℕ)
    → IsWord frame
    → estop_frame_bytes ≤ length out
    → (buf : List ℕ) × (encode_estop frame out ≡ some (estop_frame_bytes, buf))
      × (drop estop_frame_bytes buf ≡ drop estop_frame_bytes out)
      × (decode_estop buf ≡ ok frame)
unfolding estop_bytes
decode_estop-encode_estop frame out w room = (
  estop_bytes frame ++ drop estop_frame_bytes out,
  encode_estop-bytes frame out room,
  refl,
  decode_estop-bytes frame _ w,
)
