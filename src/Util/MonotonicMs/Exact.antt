-- ===== src/Util/MonotonicMs/Exact.antt =====
-- The counter of `MonotonicMs` against the time that does not wrap.
use slop_sync.Base.{ℕ, ◌+◌, ◌-◌, ◌/◌, ◌%◌, ◌<◌, ◌≡◌, subst, true, List, [], ◌∷◌, All, arith}
use native.Mathlib.Nat.{add_assoc}
use slop_sync.Util.Serial.{u32_mod}
use slop_sync.Util.MonotonicMs.{MonotonicMs, fresh, advance}

-- The counter at the true time `t`, in microseconds since the clock's zero.
pub record At (t : ℕ) (m : MonotonicMs) : Type 0 where
  pub last : m.last_us ≡ t % u32_mod
  pub counter : m.ms ≡ t / 1000 % u32_mod
  pub remainder : m.rem ≡ t % 1000
  pub started : m.init ≡ true

-- Calls of `advance` with the given true times between them, each seen through the 32-bit clock.
unfoldable pub advance_by : ℕ → MonotonicMs → List ℕ → MonotonicMs
advance_by t m [] = m
advance_by t m (gap ∷ gaps) = advance_by (t + gap) (advance m ((t + gap) % u32_mod)) gaps

abbrev pub sum : List ℕ → ℕ
sum [] = 0
sum (x ∷ xs) = x + sum xs

advance_seed : (t : ℕ) → t < u32_mod → At t (advance fresh t)
unfolding advance
advance_seed t h = ground arith

advance-At :
    (t gap : ℕ) (m : MonotonicMs)
    → gap < u32_mod - 999
    → At t m
    → At (t + gap) (advance m ((t + gap) % u32_mod))
unfolding advance
advance-At t gap m h a = record {
  last = ground arith;
  counter = ground arith;
  remainder = ground arith;
  started = ground arith;
}

At-of_eq : {t u : ℕ} {m : MonotonicMs} → t ≡ u → At t m → At u m
At-of_eq {m} e = subst (λ t. At t m) e

advance_by-At :
    (gaps : List ℕ) (t : ℕ) (m : MonotonicMs)
    → All (λ g. g < u32_mod - 999) gaps
    → At t m
    → At (t + sum gaps) (advance_by t m gaps)
unfolding advance_by
advance_by-At [] t m h a = At-of_eq (omega arith) a
advance_by-At (gap ∷ gaps) t m (h, hs) a =
    At-of_eq (add_assoc t gap (sum gaps))
      (advance_by-At gaps (t + gap) _ hs (advance-At t gap m h a))

-- A counter that is first advanced at the time `t`, before the 32-bit clock wraps, and then after
-- any gaps that are each shorter than a full turn of the clock by 1 ms, reads the true milliseconds
-- mod 2 ^ 32, however often the clock has wrapped.
pub advance_exact :
    (t : ℕ) (gaps : List ℕ)
    → t < u32_mod
    → All (λ g. g < u32_mod - 999) gaps
    → (advance_by t (advance fresh t) gaps).ms ≡ (t + sum gaps) / 1000 % u32_mod
advance_exact t gaps h hs =
    let a : At (t + sum gaps) (advance_by t (advance fresh t) gaps) =
      advance_by-At gaps t _ hs (advance_seed t h) in
    a.counter
