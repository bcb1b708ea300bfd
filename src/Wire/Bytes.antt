-- ===== src/Wire/Bytes.antt =====
-- util/byte_io.hpp: little-endian numbers in a span of bytes. A span is a list, a write gives the new
-- list, and `at_offset` is a write to `out.subspan(n)`.
use slop_sync.Base.{
  ℕ, zero, suc, ◌*◌, ◌/◌, ◌%◌, ◌^◌, ◌≤◌, ◌<◌, bit_or, ◌≡◌, refl, ap, ◌++◌, List, [], ◌∷◌, arith,
  length, get_or, bit_or_fields, ◌++◌, ap,
}

unfoldable pub at_offset : ℕ → (List ℕ → List ℕ) → List ℕ → List ℕ
at_offset zero write out = write out
at_offset (suc n) write [] = []
at_offset (suc n) write (x ∷ out) = x ∷ at_offset n write out

-- A span that is too short is left as it is; the counts that these answer are dropped by their callers.
unfoldable pub put_u8 : ℕ → List ℕ → List ℕ
put_u8 v (a ∷ out) = v % 2 ^ 8 ∷ out
put_u8 v out = out

unfoldable pub put_u16 : ℕ → List ℕ → List ℕ
put_u16 v (a ∷ (b ∷ out)) = v % 2 ^ 8 ∷ (v / 2 ^ 8 % 2 ^ 8 ∷ out)
put_u16 v out = out

unfoldable pub put_u32 : ℕ → List ℕ → List ℕ
put_u32 v (a ∷ (b ∷ (c ∷ (d ∷ out)))) =
    v % 2 ^ 8 ∷ (v / 2 ^ 8 % 2 ^ 8 ∷ (v / 2 ^ 16 % 2 ^ 8 ∷ (v / 2 ^ 24 % 2 ^ 8 ∷ out)))
put_u32 v out = out

-- The readers are for spans with room, which their callers have checked.
unfoldable pub get_u8 : List ℕ → ℕ
get_u8 bytes = get_or bytes 0 0

unfoldable pub get_u16 : List ℕ → ℕ
get_u16 bytes = bit_or (get_or bytes 0 0) (get_or bytes 1 0 * 2 ^ 8)

unfoldable pub get_u32 : List ℕ → ℕ
get_u32 bytes =
    bit_or
      (bit_or (bit_or (get_or bytes 0 0) (get_or bytes 1 0 * 2 ^ 8)) (get_or bytes 2 0 * 2 ^ 16))
      (get_or bytes 3 0 * 2 ^ 24)

pub u16_bytes : (v : ℕ) → v < 2 ^ 16 → bit_or (v % 2 ^ 8) (v / 2 ^ 8 % 2 ^ 8 * 2 ^ 8) ≡ v
u16_bytes v h = omega (arith, bit_or_fields 8 (v % 2 ^ 8) (v / 2 ^ 8 % 2 ^ 8) (omega arith))

pub u32_bytes :
    (v : ℕ)
    → v < 2 ^ 32
    → bit_or
        (bit_or (bit_or (v % 2 ^ 8) (v / 2 ^ 8 % 2 ^ 8 * 2 ^ 8)) (v / 2 ^ 16 % 2 ^ 8 * 2 ^ 16))
        (v / 2 ^ 24 % 2 ^ 8 * 2 ^ 24)
      ≡ v
u32_bytes v h =
    let low : bit_or (v % 2 ^ 8) (v / 2 ^ 8 % 2 ^ 8 * 2 ^ 8) ≡ v % 2 ^ 16 =
      omega (arith, bit_or_fields 8 (v % 2 ^ 8) (v / 2 ^ 8 % 2 ^ 8) (omega arith)) in
    let middle : bit_or (v % 2 ^ 16) (v / 2 ^ 16 % 2 ^ 8 * 2 ^ 16) ≡ v % 2 ^ 24 =
      omega (arith, bit_or_fields 16 (v % 2 ^ 16) (v / 2 ^ 16 % 2 ^ 8) (omega arith)) in
    rw (low, middle)
      (omega (arith, bit_or_fields 24 (v % 2 ^ 24) (v / 2 ^ 24 % 2 ^ 8) (omega arith)))

-- A property of every list with at least `n` elements, by those elements and the rest.
unfoldable pub Split : ℕ → (List ℕ → Type 0) → Type 0
Split zero P = (rest : List ℕ) → P rest
Split (suc n) P = (x : ℕ) → Split n (λ l. P (x ∷ l))

pub split : (n : ℕ) (P : List ℕ → Type 0) → Split n P → (xs : List ℕ) → n ≤ length xs → P xs
unfolding Split
split zero P f xs h = f xs
split (suc n) P f [] h = absurd (omega arith)
split (suc n) P f (x ∷ xs) h = split n (λ l. P (x ∷ l)) (f x) xs (omega arith)

pub at_offset-append :
    (write : List ℕ → List ℕ) (xs ys : List ℕ)
    → at_offset (length xs) write (xs ++ ys) ≡ xs ++ write ys
unfolding at_offset
at_offset-append write [] ys = refl
at_offset-append write (x ∷ xs) ys = ap (◌∷◌ x) (at_offset-append write xs ys)
