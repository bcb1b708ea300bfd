-- ===== src/Base/Buffers.antt =====
-- A fixed buffer is a list of its length; `write_at` is the copy into it (memcpy, memmove).
use Prim.Native.Nat.{ℕ, zero, suc, ◌+◌, ◌-◌, ◌≤◌, ◌<◌}
use mathlib.Core.Path.{◌≡◌, refl, ap, ◌∙◌}
use mathlib.Core.Bool.{◌&&◌}
use mathlib.Core.List.{List, [], ◌∷◌, ◌++◌}
use native.Mathlib.Omega.{arith}
use slop_sync.Base.Tests.{ltb, leb, if◌then◌else◌}
use slop_sync.Base.Lists.{length, get_or, take, drop}

module _ {A : Type 0} where
  -- What would fall outside the buffer is left out: callers check the room first.
  unfoldable pub write_at : ℕ → List A → List A → List A
  write_at off bs [] = []
  write_at zero [] (x ∷ buf) = x ∷ buf
  write_at zero (b ∷ bs) (x ∷ buf) = b ∷ write_at zero bs buf
  write_at (suc off) bs (x ∷ buf) = x ∷ write_at off bs buf

  pub length-write_at : (off : ℕ) (bs buf : List A) → length (write_at off bs buf) ≡ length buf
  unfolding write_at
  length-write_at off bs [] = refl
  length-write_at zero [] (x ∷ buf) = refl
  length-write_at zero (b ∷ bs) (x ∷ buf) = ap suc (length-write_at zero bs buf)
  length-write_at (suc off) bs (x ∷ buf) = ap suc (length-write_at off bs buf)

  -- Reading after a write, for every index.
  pub get_or-write_at :
      (off : ℕ) (bs buf : List A) (i : ℕ) (d : A)
      → i < length buf
      → get_or (write_at off bs buf) i d
        ≡ (if leb off i && ltb i (off + length bs) then get_or bs (i - off) d else get_or buf i d)
  unfolding write_at
  get_or-write_at off bs [] i d h = absurd (omega arith)
  get_or-write_at zero [] (x ∷ buf) i d h = ground arith
  get_or-write_at zero (b ∷ bs) (x ∷ buf) zero d h = ground arith
  get_or-write_at zero (b ∷ bs) (x ∷ buf) (suc i) d h =
      ground (arith, get_or-write_at zero bs buf i d)
  get_or-write_at (suc off) bs (x ∷ buf) zero d h = ground arith
  get_or-write_at (suc off) bs (x ∷ buf) (suc i) d h =
      ground (arith, get_or-write_at off bs buf i d)

  pub take-write_at :
      (bs buf : List A) → length bs ≤ length buf → take (length bs) (write_at 0 bs buf) ≡ bs
  unfolding write_at
  take-write_at [] buf h = refl
  take-write_at (b ∷ bs) [] h = absurd (omega arith)
  take-write_at (b ∷ bs) (x ∷ buf) h = ap (◌∷◌ b) (take-write_at bs buf (omega arith))

  pub drop-write_at :
      (bs buf : List A)
      → length bs ≤ length buf
      → drop (length bs) (write_at 0 bs buf) ≡ drop (length bs) buf
  unfolding write_at
  drop-write_at [] [] h = refl
  drop-write_at [] (x ∷ buf) h = refl
  drop-write_at (b ∷ bs) [] h = absurd (omega arith)
  drop-write_at (b ∷ bs) (x ∷ buf) h = drop-write_at bs buf (omega arith)

  pub write_at-append :
      (xs bs ys : List A) → write_at (length xs) bs (xs ++ ys) ≡ xs ++ write_at 0 bs ys
  unfolding write_at
  write_at-append [] bs ys = refl
  write_at-append (x ∷ xs) bs ys = ap (◌∷◌ x) (write_at-append xs bs ys)

  pub write_at_more-append :
      (n : ℕ) (xs bs ys : List A) → write_at (length xs + n) bs (xs ++ ys) ≡ xs ++ write_at n bs ys
  unfolding write_at
  write_at_more-append n [] bs ys = λ i. write_at (zero_more n i) bs ys
    where
      zero_more : (n : ℕ) → 0 + n ≡ n
      zero_more n = omega arith
  write_at_more-append n (x ∷ xs) bs ys =
      (λ i. write_at (suc_more (length xs) n i) bs (x ∷ (xs ++ ys)))
      ∙ ap (◌∷◌ x) (write_at_more-append n xs bs ys)
    where
      suc_more : (m n : ℕ) → suc m + n ≡ suc (m + n)
      suc_more m n = omega arith

  pub write_at-nil : (off : ℕ) (xs : List A) → write_at off [] xs ≡ xs
  unfolding write_at
  write_at-nil off [] = refl
  write_at-nil zero (x ∷ xs) = refl
  write_at-nil (suc off) (x ∷ xs) = ap (◌∷◌ x) (write_at-nil off xs)
