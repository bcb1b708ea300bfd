-- ===== src/Wire/Cobs/Bounds.antt =====
-- `cobsDecode` of wire/serial_cobs.hpp on any input, malformed ones included.
use slop_sync.Base.{
  ℕ, zero, suc, ◌+◌, ◌-◌, ◌≤◌, ◌<◌, ◌≡◌, refl, ◌∙◌, subst, inl, inr, false, Option, none, some,
  List, [], ◌∷◌, arith, leb, ◌==◌, Bool-cases, length, set, length-set,
}
use slop_sync.Result.{Result, ok, err, ◌>>=◌}
use slop_sync.Wire.Cobs.{copy_run, put_zero, decode_loop, cobs_decode}

-- The part of a round's state that bounds the reads and the writes.
Within : ℕ → ℕ → Result (List ℕ × List ℕ × ℕ) → Type 0
Within left size (err e) = Unit
Within left size (ok (src, dst, w)) = (length src ≤ left) × (length dst ≡ size) × (w ≤ size)

ltb_gap : (m w : ℕ) → leb m w ≡ false → w < m
ltb_gap m w h = ground arith

copy_run-Within :
    (n : ℕ) (src dst : List ℕ) (w left : ℕ)
    → length src ≤ left
    → w ≤ length dst
    → Within left (length dst) (copy_run n src dst w)
unfolding copy_run Within
copy_run-Within zero src dst w left h k = (h, refl, k)
copy_run-Within (suc n) [] dst w left h k = tt
copy_run-Within (suc n) (b ∷ src) dst w left h k = elim (Bool-cases (leb (length dst) w)) [
  | inl full ↦ rw full tt
  | inr free ↦ rw free (
      subst (λ m. Within left m (copy_run n src (set dst w b) (w + 1))) (length-set dst w b)
        (copy_run-Within n src (set dst w b) (w + 1) left (omega arith)
          (omega (arith, length-set dst w b, ltb_gap (length dst) w free))))
]

put_zero-Within :
    (code : ℕ) (src dst : List ℕ) (w : ℕ)
    → w ≤ length dst
    → Within (length src) (length dst) (put_zero code src dst w)
unfolding put_zero Within
put_zero-Within code [] dst w k = (omega arith, refl, k)
put_zero-Within code (b ∷ src) dst w k = ground (arith, length-set dst w 0)

widen :
    (r : Result (List ℕ × List ℕ × ℕ)) (left left' size size' : ℕ)
    → left ≤ left'
    → size ≡ size'
    → Within left size r
    → Within left' size' r
unfolding Within
widen (err e) left left' size size' h k i = tt
widen (ok (src, dst, w)) left left' size size' h k (a, b, c) = (omega arith, b ∙ k, omega arith)

-- An answer is given; a count that is given lies in the buffer, whose length is kept.
unfoldable pub Sound : ℕ → Option (Result (ℕ × List ℕ)) → Type 0
Sound size none = ⊥
Sound size (some (err e)) = Unit
Sound size (some (ok (n, buf))) = (n ≤ size) × (length buf ≡ size)

-- A round's end, where the rest of the loop is sound.
round-Sound :
    (fuel code left size : ℕ) (r : Result (List ℕ × List ℕ × ℕ))
    → left ≤ fuel
    → ((src dst : List ℕ) (w : ℕ)
        → length src ≤ fuel
        → w ≤ length dst
        → Sound (length dst) (decode_loop fuel src dst w))
    → Within left size r
    → Sound size (elim (r >>= λ (src', dst', w'). put_zero code src' dst' w') [
      | err e ↦ some (err e)
      | ok (src', dst', w') ↦ decode_loop fuel src' dst' w'
    ])
unfolding Sound Within
round-Sound fuel code left size (err e) h rest i = tt
round-Sound fuel code left size (ok (src, dst, w)) h rest (a, b, c) =
    last (put_zero code src dst w) (
      widen (put_zero code src dst w) (length src) left (length dst) size a b
        (put_zero-Within code src dst w (omega (arith, b))))
  where
    last :
        (r : Result (List ℕ × List ℕ × ℕ))
        → Within left size r
        → Sound size
            (elim r [ err e ↦ some (err e) | ok (src', dst', w') ↦ decode_loop fuel src' dst' w' ])
    last (err e) i = tt
    last (ok (src', dst', w')) (a', b', c') =
        subst (λ m. Sound m (decode_loop fuel src' dst' w')) b'
          (rest src' dst' w' (omega arith) (omega (arith, b')))

decode_loop-Sound :
    (fuel : ℕ) (src dst : List ℕ) (w : ℕ)
    → length src ≤ fuel
    → w ≤ length dst
    → Sound (length dst) (decode_loop fuel src dst w)
unfolding decode_loop Sound
decode_loop-Sound zero [] dst w h k = (k, refl)
decode_loop-Sound (suc fuel) [] dst w h k = (k, refl)
decode_loop-Sound zero (code ∷ src) dst w h k = omega arith
decode_loop-Sound (suc fuel) (code ∷ src) dst w h k = elim (Bool-cases (code == 0)) [
  | inl z ↦ rw z tt
  | inr nz ↦ rw nz (
      round-Sound fuel code (length src) (length dst) (copy_run (code - 1) src dst w) (omega arith)
        (λ src' dst' w'. decode_loop-Sound fuel src' dst' w')
        (copy_run-Within (code - 1) src dst w (length src) (omega arith) k))
]

-- `cobs_decode` answers every input, well-formed or not, within its fuel, and where it succeeds, the
-- count of bytes lies in the buffer, whose length it keeps.
pub cobs_decode-Sound : (src dst : List ℕ) → Sound (length dst) (cobs_decode src dst)
unfolding cobs_decode
cobs_decode-Sound src dst = decode_loop-Sound (length src) src dst 0 (omega arith) (omega arith)
