-- ===== src/Wire/Cobs/RoundTrip.antt =====
-- The serial binding's byte stuffing as a whole: encoding and then decoding.
use slop_sync.Base.{
  ℕ, ◌+◌, ◌/◌, ◌≤◌, ◌≡◌, refl, sym, ap, ◌∙◌, subst, true, some, List, [], ◌∷◌, ◌++◌, arith, length,
  take, All,
}
use slop_sync.Result.{ok}
use slop_sync.Wire.Cobs.{cobs_encode, cobs_decode}
use slop_sync.Wire.Cobs.Blocks.{blocks, length-blocks, NonZero, blocks-NonZero}
use slop_sync.Wire.Cobs.Encode.{cobs_encode-blocks}
use slop_sync.Wire.Cobs.Decode.{cobs_decode-blocks}

take-append : {A : Type 0} (xs ys : List A) → take (length xs) (xs ++ ys) ≡ xs
take-append [] ys = refl
take-append (x ∷ xs) ys = ap (◌∷◌ x) (take-append xs ys)

-- `bytes`, which `n` counts, stand at the front of `buf`.
Front : List ℕ → ℕ → List ℕ → Type 0
Front bytes n buf = (n ≡ length bytes) × (take n buf ≡ bytes)

front : (bytes tail : List ℕ) (n : ℕ) → n ≡ length bytes → Front bytes n (bytes ++ tail)
unfolding Front
front bytes tail n e = (e, ap (λ k. take k (bytes ++ tail)) e ∙ take-append bytes tail)

-- Encoding into a buffer of the documented size `length src + length src / 254 + 1` succeeds, writes
-- no more bytes than that and no zero byte; and decoding the bytes written into any buffer with room
-- for the source succeeds and writes the source, whatever its bytes are.
pub cobs_decode-cobs_encode :
    (src dst out : List ℕ)
    → length src + length src / 254 + 1 ≤ length dst
    → length src ≤ length out
    → (n : ℕ) × (buf : List ℕ) × (m : ℕ) × (back : List ℕ) × (cobs_encode src dst ≡ some (n, buf))
      × (n ≤ length src + length src / 254 + 1)
      × All NonZero (take n buf)
      × (cobs_decode (take n buf) out ≡ some (ok (m, back)))
      × (m ≡ length src)
      × (take m back ≡ src)
unfolding Front
cobs_decode-cobs_encode src dst out h k =
    let (n, buf, tail, e, c, shape, size) = cobs_encode-blocks src dst h in
    let (m, tail', d, c') = cobs_decode-blocks src out k in
    let stuffed : take n buf ≡ blocks [] true src =
      ap (take n) shape ∙ (front (blocks [] true src) tail n c).1 in
    (
      n,
      buf,
      m,
      src ++ tail',
      e,
      omega (arith, c, length-blocks src [] true),
      subst (All NonZero) (sym stuffed) (blocks-NonZero src [] true tt),
      ap (λ l. cobs_decode l out) stuffed ∙ d,
      c',
      (front src tail' m c').1,
    )
