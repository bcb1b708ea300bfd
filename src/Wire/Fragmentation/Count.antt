-- ===== src/Wire/Fragmentation/Count.antt =====
-- Sets of fragment indices, and how many of the first `n` indices one holds: what `receivedMask` and
-- `receivedCount` of wire/fragmentation.hpp stand for.
use slop_sync.Base.{
  ℕ, zero, suc, ◌+◌, ◌≤◌, ◌<◌, ◌≡◌, refl, sym, ap, ◌∙◌, Bool, true, false, arith, ◌==◌,
  if◌then◌else◌, ==_true, ==_false, ◌≢◌,
}
use native.Mathlib.Decide.{ℕ_discrete}

abbrev pub mark : (ℕ → Bool) → ℕ → ℕ → Bool
mark seen j k = if j == k then true else seen k

abbrev pub one_if : Bool → ℕ
one_if true = 1
one_if false = 0

unfoldable pub count_below : (ℕ → Bool) → ℕ → ℕ
count_below seen zero = 0
count_below seen (suc n) = count_below seen n + one_if (seen n)

pub count_below-le : (seen : ℕ → Bool) (n : ℕ) → count_below seen n ≤ n
unfolding count_below
count_below-le seen zero = omega arith
count_below-le seen (suc n) = ground (arith, count_below-le seen n)

pub count_below-lt : (seen : ℕ → Bool) (n k : ℕ) → k < n → seen k ≡ false → count_below seen n < n
unfolding count_below
count_below-lt seen zero k h e = absurd (omega arith)
count_below-lt seen (suc n) k h e = elim (ℕ_discrete k n) [
  | yes p ↦ ground (arith, count_below-le seen n, sym (ap seen p) ∙ e)
  | no q ↦ ground (arith, count_below-lt seen n k (omega (arith, h, q)) e)
]

pub count_below_full :
    (seen : ℕ → Bool) (n : ℕ) → ((k : ℕ) → k < n → seen k ≡ true) → count_below seen n ≡ n
unfolding count_below
count_below_full seen zero h = refl
count_below_full seen (suc n) h =
    ground (arith, h n (omega arith), count_below_full seen n (λ k l. h k (omega arith)))

pub count_below_ext :
    (f g : ℕ → Bool) (n : ℕ) → ((k : ℕ) → k < n → f k ≡ g k) → count_below f n ≡ count_below g n
unfolding count_below
count_below_ext f g zero h = refl
count_below_ext f g (suc n) h =
    λ i. count_below_ext f g n (λ k l. h k (omega arith)) i + one_if (h n (omega arith) i)

pub count_below_none :
    (seen : ℕ → Bool) (n : ℕ) → ((k : ℕ) → k < n → seen k ≡ false) → count_below seen n ≡ 0
unfolding count_below
count_below_none seen zero h = refl
count_below_none seen (suc n) h =
    ground (arith, h n (omega arith), count_below_none seen n (λ k l. h k (omega arith)))

pub mark_other : (seen : ℕ → Bool) (j k : ℕ) → j ≢ k → mark seen j k ≡ seen k
mark_other seen j k n = rw (==_false j k n) refl

mark-beyond : (seen : ℕ → Bool) (j n : ℕ) → n ≤ j → count_below (mark seen j) n ≡ count_below seen n
mark-beyond seen j n h =
    count_below_ext (mark seen j) seen n (λ k l. rw (==_false j k (omega arith)) refl)

pub count_below-mark :
    (seen : ℕ → Bool) (j n : ℕ)
    → j < n
    → seen j ≡ false
    → count_below (mark seen j) n ≡ count_below seen n + 1
unfolding count_below
count_below-mark seen j zero h e = absurd (omega arith)
count_below-mark seen j (suc n) h e = elim (ℕ_discrete j n) [
  | yes p ↦
      ground (arith, ==_true j n p, mark-beyond seen j n (omega (arith, p)), sym (ap seen p) ∙ e)
  | no q ↦ ground (arith, ==_false j n q, count_below-mark seen j n (omega (arith, h, q)) e)
]
