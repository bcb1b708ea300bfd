-- ===== src/Wire/BlobChunks/Marks.antt =====
-- The marks of the received chunks in wire/blob_chunks.hpp, and their count.
use slop_sync.Base.{
  ℕ, zero, suc, ◌+◌, ◌≤◌, ◌<◌, ◌≡◌, refl, sym, ap, ◌∙◌, ◌⊎◌, inl, inr, Bool, true, false, not, List,
  [], ◌∷◌, arith, ◌==◌, if◌then◌else◌, ==_true, ==_false, Bool-cases, length, get_or, set,
  replicate, length-set, get_or-set_self, get_or-set_ne,
}
use native.Mathlib.Decide.{ℕ_discrete}

-- How many chunks were received.
unfoldable pub count_true : List Bool → ℕ
count_true [] = 0
count_true (true ∷ bs) = suc (count_true bs)
count_true (false ∷ bs) = count_true bs

abbrev pub Below : ℕ → List Bool → Type 0
Below n bs = (i : ℕ) → get_or bs i false ≡ true → i < n

Below-tail : (n : ℕ) (b : Bool) (bs : List Bool) → Below (suc n) (b ∷ bs) → Below n bs
Below-tail n b bs h = λ i e. omega (arith, h (suc i) e)

pub count_true-le : (bs : List Bool) (n : ℕ) → Below n bs → count_true bs ≤ n
unfolding count_true
count_true-le [] n h = omega arith
count_true-le (true ∷ bs) zero h = absurd (omega (arith, h 0 refl))
count_true-le (false ∷ bs) zero h =
    count_true-le bs zero (λ i e. absurd (omega (arith, h (suc i) e)))
count_true-le (true ∷ bs) (suc n) h = omega (arith, count_true-le bs n (Below-tail n true bs h))
count_true-le (false ∷ bs) (suc n) h = omega (arith, count_true-le bs n (Below-tail n false bs h))

pub count_true_all :
    (bs : List Bool) (n : ℕ)
    → Below n bs
    → count_true bs ≡ n
    → (i : ℕ) → i < n
    → get_or bs i false ≡ true
unfolding count_true
count_true_all [] n h c i k = absurd (omega arith)
count_true_all (b ∷ bs) zero h c i k = absurd (omega arith)
count_true_all (true ∷ bs) (suc n) h c zero k = refl
count_true_all (true ∷ bs) (suc n) h c (suc i) k =
    count_true_all bs n (Below-tail n true bs h) (omega arith) i (omega arith)
count_true_all (false ∷ bs) (suc n) h c i k =
    absurd (omega (arith, count_true-le bs n (Below-tail n false bs h)))

pub count_true_full :
    (bs : List Bool) (n : ℕ)
    → Below n bs
    → ((i : ℕ) → i < n → get_or bs i false ≡ true)
    → count_true bs ≡ n
unfolding count_true
count_true_full [] zero h k = refl
count_true_full [] (suc n) h k = absurd (ground (arith, k 0 (omega arith)))
count_true_full (true ∷ bs) zero h k = absurd (omega (arith, h 0 refl))
count_true_full (false ∷ bs) zero h k =
    count_true_full bs zero (λ i e. absurd (omega (arith, h (suc i) e)))
      (λ i l. absurd (omega arith))
count_true_full (true ∷ bs) (suc n) h k =
    omega (arith, count_true_full bs n (Below-tail n true bs h) (λ i l. k (suc i) (omega arith)))
count_true_full (false ∷ bs) (suc n) h k = absurd (ground (arith, k 0 (omega arith)))

pub count_true-set :
    (bs : List Bool) (i : ℕ)
    → get_or bs i false ≡ false
    → i < length bs
    → count_true (set bs i true) ≡ count_true bs + 1
unfolding count_true
count_true-set [] i e h = absurd (omega arith)
count_true-set (true ∷ bs) zero e h = absurd (ground (arith, e))
count_true-set (false ∷ bs) zero e h = omega arith
count_true-set (true ∷ bs) (suc i) e h = omega (arith, count_true-set bs i e (omega arith))
count_true-set (false ∷ bs) (suc i) e h = count_true-set bs i e (omega arith)

pub get_or-none : (n i : ℕ) → get_or (replicate n false) i false ≡ false
get_or-none zero i = refl
get_or-none (suc n) zero = refl
get_or-none (suc n) (suc i) = get_or-none n i

pub count_true-none : (n : ℕ) → count_true (replicate n false) ≡ 0
unfolding count_true
count_true-none zero = refl
count_true-none (suc n) = count_true-none n

-- The marks after chunk `i` was copied in.
abbrev pub marked : List Bool → ℕ → List Bool
marked bs i = if not (get_or bs i false) then set bs i true else bs

pub get_or-marked :
    (bs : List Bool) (i j : ℕ)
    → i < length bs
    → get_or (marked bs i) j false ≡ (if i == j then true else get_or bs j false)
get_or-marked bs i j h = elim (Bool-cases (get_or bs i false)) [
  | inl old ↦ rw old (ground (arith, old))
  | inr new ↦ elim (ℕ_discrete i j) [
    | yes e ↦
        rw (new, ==_true i j e)
          (ap (λ k. get_or (set bs i true) k false) (sym e) ∙ get_or-set_self bs i true false h)
    | no n ↦ rw (new, ==_false i j n) (get_or-set_ne bs i j true false n)
  ]
]

pub marked-cases :
    (bs : List Bool) (i j : ℕ)
    → i < length bs
    → get_or (marked bs i) j false ≡ true
    → (i ≡ j) ⊎ (get_or bs j false ≡ true)
marked-cases bs i j h e = elim (ℕ_discrete i j) [
  | yes p ↦ inl p
  | no n ↦ inr (sym (get_or-marked bs i j h ∙ (rw (==_false i j n) refl)) ∙ e)
]

pub count_true-marked :
    (bs : List Bool) (i n : ℕ)
    → i < length bs
    → n ≡ count_true bs
    → (if not (get_or bs i false) then n + 1 else n) ≡ count_true (marked bs i)
count_true-marked bs i n h e = elim (Bool-cases (get_or bs i false)) [
  | inl old ↦ rw old e
  | inr new ↦ rw new (omega (arith, e, count_true-set bs i new h))
]

pub length-marked : (bs : List Bool) (i : ℕ) → length (marked bs i) ≡ length bs
length-marked bs i = ground (arith, length-set bs i true)
