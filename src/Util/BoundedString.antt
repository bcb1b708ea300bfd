-- ===== src/Util/BoundedString.antt =====
-- util/bounded_string.hpp: a string of at most `cap` bytes, as the list of the bytes in use.
use slop_sync.Base.{
  ℕ, ◌≡◌, refl, ◌≢◌, inl, inr, Bool, true, false, ◌&&◌, List, [], ◌∷◌, arith, ◌==◌, Bool-cases,
  take,
}

-- std::equal and std::memcmp, on spans of one length.
unfoldable pub same_bytes : List ℕ → List ℕ → Bool
same_bytes [] [] = true
same_bytes [] (y ∷ ys) = false
same_bytes (x ∷ xs) [] = false
same_bytes (x ∷ xs) (y ∷ ys) = x == y && same_bytes xs ys

abbrev pub assign : ℕ → List ℕ → List ℕ
assign cap s = take cap s

unfoldable pub same_as : ℕ → List ℕ → List ℕ → Bool
unfolding same_bytes
same_as cap self s = same_bytes self (take cap s)

abbrev pub is_empty : List ℕ → Bool
is_empty [] = true
is_empty (x ∷ xs) = false

pub same_bytes-true : (xs ys : List ℕ) → same_bytes xs ys ≡ true → xs ≡ ys
unfolding same_bytes
same_bytes-true [] [] e = refl
same_bytes-true [] (y ∷ ys) e = absurd (ground arith)
same_bytes-true (x ∷ xs) [] e = absurd (ground arith)
same_bytes-true (x ∷ xs) (y ∷ ys) e =
    let p : x ≡ y = ground arith in λ i. p i ∷ same_bytes-true xs ys (ground arith) i

pub same_bytes_refl : (xs : List ℕ) → same_bytes xs xs ≡ true
unfolding same_bytes
same_bytes_refl [] = refl
same_bytes_refl (x ∷ xs) = ground (arith, same_bytes_refl xs)

pub same_bytes-false : (xs ys : List ℕ) → xs ≢ ys → same_bytes xs ys ≡ false
same_bytes-false xs ys n = elim (Bool-cases (same_bytes xs ys)) [
  | inl e ↦ absurd (n (same_bytes-true xs ys e))
  | inr e ↦ e
]
