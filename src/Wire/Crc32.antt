-- ===== src/Wire/Crc32.antt =====
-- wire/crc32.hpp: the checksum. The table is a function of the index.
use slop_sync.Base.{
  ℕ, zero, suc, ◌/◌, ◌^◌, ◌<◌, bit_and, bit_xor, ◌≡◌, refl, inl, inr, List, [], ◌∷◌, arith, ◌==◌,
  if◌then◌else◌, Bool-cases, All, bit_xor-bound, bit_and-le,
}

-- One bit of `makeCrc32Table`.
unfoldable pub crc32_bit : ℕ → ℕ
crc32_bit c = if bit_and c 1 == 1 then bit_xor 0xEDB88320 (c / 2) else c / 2

unfoldable pub crc32_bits : ℕ → ℕ → ℕ
unfolding crc32_bit
crc32_bits zero c = c
crc32_bits (suc n) c = crc32_bits n (crc32_bit c)

unfoldable pub crc32_table : ℕ → ℕ
unfolding crc32_bits
crc32_table i = crc32_bits 8 i

unfoldable pub crc32_init : ℕ
crc32_init = 0xFFFFFFFF

unfoldable pub crc32_update : ℕ → List ℕ → ℕ
unfolding crc32_table
crc32_update state [] = state
crc32_update state (b ∷ bytes) =
    crc32_update (bit_xor (crc32_table (bit_and (bit_xor state b) 0xFF)) (state / 2 ^ 8)) bytes

unfoldable pub crc32_final : ℕ → ℕ
crc32_final state = bit_xor state 0xFFFFFFFF

unfoldable pub crc32 : List ℕ → ℕ
unfolding crc32_update crc32_final crc32_init
crc32 bytes = crc32_final (crc32_update crc32_init bytes)

-- The check value that the checksum's standard gives.
crc32_check :
    crc32 (0x31 ∷ (0x32 ∷ (0x33 ∷ (0x34 ∷ (0x35 ∷ (0x36 ∷ (0x37 ∷ (0x38 ∷ (0x39 ∷ [])))))))))
    ≡ 0xCBF43926
unfolding crc32
crc32_check = refl

crc32_bits-bound : (n c : ℕ) → c < 2 ^ 32 → crc32_bits n c < 2 ^ 32
unfolding crc32_bits crc32_bit
crc32_bits-bound zero c h = h
crc32_bits-bound (suc n) c h = elim (Bool-cases (bit_and c 1 == 1)) [
  | inl odd ↦
      rw odd
        (crc32_bits-bound n _ (bit_xor-bound 32 0xEDB88320 (c / 2) (omega arith) (omega arith)))
  | inr even ↦ rw even (crc32_bits-bound n (c / 2) (omega arith))
]

crc32_update-bound :
    (bytes : List ℕ) (state : ℕ)
    → All (λ b. b < 2 ^ 8) bytes
    → state < 2 ^ 32
    → crc32_update state bytes < 2 ^ 32
unfolding crc32_update crc32_table
crc32_update-bound [] state h k = k
crc32_update-bound (b ∷ bytes) state h k = crc32_update-bound bytes _ h.1 (
    bit_xor-bound 32 _ (state / 2 ^ 8)
      (crc32_bits-bound 8 _ (omega (arith, bit_and-le (bit_xor state b) 0xFF))) (omega arith))

pub crc32-bound : (bytes : List ℕ) → All (λ b. b < 2 ^ 8) bytes → crc32 bytes < 2 ^ 32
unfolding crc32 crc32_final crc32_init
crc32-bound bytes h =
    bit_xor-bound 32 _ 0xFFFFFFFF (crc32_update-bound bytes 0xFFFFFFFF h (omega arith))
      (omega arith)
