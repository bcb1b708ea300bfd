-- ===== src/Base/Wrap.antt =====
-- Steps round a ring of `n` places.
use Prim.Native.Nat.{ℕ, suc, ◌+◌, ◌-◌, ◌%◌, ◌<◌}
use mathlib.Core.Path.{◌≡◌, ap}
use mathlib.Core.Logic.{◌≢◌}
use native.Mathlib.Nat.{mod-add-mod, mod-eq_of_lt, mod-eq-sub-mod}
use native.Mathlib.Decide.{dec_lt}
use native.Mathlib.Omega.{arith}

-- Fewer than `n` steps do not come back to the start, and `n` steps do.
pub wrap-ne : (n h k : ℕ) → h < n → suc k < n → (h + suc k) % n ≢ h
wrap-ne n h k hh hk = elim (dec_lt (h + suc k) n) [
  | yes p ↦ omega (arith, mod-eq_of_lt p)
  | no p ↦ omega (
    arith,
    mod-eq-sub-mod {n = h + suc k} {m = n} (omega arith),
    mod-eq_of_lt {n = h + suc k - n} {m = n} (omega arith),
  )
]

pub wrap_round : (n h : ℕ) → h < n → (h + n) % n ≡ h
wrap_round n h hh = omega (
  arith,
  mod-eq-sub-mod {n = h + n} {m = n} (omega arith),
  mod-eq_of_lt {n = h + n - n} {m = n} (omega arith),
)

-- A step from a place that was itself reached by steps.
pub wrap_add : (n h k : ℕ) → (h % n + k) % n ≡ (h + k) % n
wrap_add n h k = mod-add-mod h n k

pub wrap_next : (n t k : ℕ) → k ≢ 0 → (t + k) % n ≡ ((t + 1) % n + (k - 1)) % n
wrap_next n t k h = rw mod-add-mod (ap (λ j. j % n) (omega arith))
