-- ===== src/Base/Bits.antt =====
-- `|` of disjoint fields is a sum, and `^` keeps a width: by the lowest digit of each.
use Prim.Native.Nat.{
  ℕ, zero, suc, ◌+◌, ◌*◌, ◌/◌, ◌%◌, ◌^◌, ◌≤◌, ◌<◌, min, max, bit_and, bit_or, bit_xor, digits,
  differ, bit_and-bitwise, bit_or-bitwise, bit_xor-bitwise,
}
use mathlib.Core.Path.{◌≡◌, refl, sym, ap, ◌∙◌}
use mathlib.Core.Bool.{Bool, true, false, not}
use mathlib.Core.Logic.{◌≢◌, inl, inr}
use slop_sync.Base.Tests.{◌==◌, if◌then◌else◌, ==_false, Bool-cases}
use native.Mathlib.Nat.{pow-suc, div-div-eq-div-mul}
use native.Mathlib.Omega.{arith}

-- The digits do not depend on the fuel.
module _ (z : ℕ → ℕ) (f : ℕ → ℕ → ℕ) where
  abbrev run_digits : ℕ → ℕ → ℕ → ℕ
  run_digits n a b = digits z f n a b

  run_digits-fuel : (n m a b : ℕ) → a ≤ n → a ≤ m → run_digits n a b ≡ run_digits m a b
  run_digits-fuel zero zero a b p q = refl
  run_digits-fuel zero (suc m) zero b p q = refl
  run_digits-fuel zero (suc m) (suc a) b p q = absurd (omega arith)
  run_digits-fuel (suc n) zero zero b p q = refl
  run_digits-fuel (suc n) zero (suc a) b p q = absurd (omega arith)
  run_digits-fuel (suc n) (suc m) zero b p q = refl
  run_digits-fuel (suc n) (suc m) (suc a) b p q =
      omega (arith, run_digits-fuel n m (suc a / 2) (b / 2) (omega arith) (omega arith))

zero-bit_or : (b : ℕ) → bit_or 0 b ≡ b
zero-bit_or b = bit_or-bitwise 0 b

bit_or_digit : (a b : ℕ) → bit_or a b ≡ bit_or (a / 2) (b / 2) * 2 + max (a % 2) (b % 2)
bit_or_digit zero b = omega (arith, zero-bit_or b, zero-bit_or (b / 2))
bit_or_digit (suc a) b = omega (
  arith,
  bit_or-bitwise (suc a) b,
  bit_or-bitwise (suc a / 2) (b / 2),
  run_digits-fuel (λ b. b) max a (suc a / 2) (suc a / 2) (b / 2) (omega arith) (omega arith),
)

zero-bit_xor : (b : ℕ) → bit_xor 0 b ≡ b
zero-bit_xor b = bit_xor-bitwise 0 b

bit_xor_digit : (a b : ℕ) → bit_xor a b ≡ bit_xor (a / 2) (b / 2) * 2 + differ (a % 2) (b % 2)
bit_xor_digit zero b = omega (arith, zero-bit_xor b, zero-bit_xor (b / 2))
bit_xor_digit (suc a) b = omega (
  arith,
  bit_xor-bitwise (suc a) b,
  bit_xor-bitwise (suc a / 2) (b / 2),
  run_digits-fuel (λ b. b) differ a (suc a / 2) (suc a / 2) (b / 2) (omega arith) (omega arith),
)

bit_or_double : (r m : ℕ) → bit_or r (m * 2) ≡ bit_or (r / 2) m * 2 + r % 2
bit_or_double r m =
    let half : m * 2 / 2 ≡ m = omega arith in
    omega (arith, bit_or_digit r (m * 2), ap (bit_or (r / 2)) half)

pub bit_or_fields : (k r q : ℕ) → r < 2 ^ k → bit_or r (q * 2 ^ k) ≡ r + q * 2 ^ k
bit_or_fields zero zero q h = omega (arith, zero-bit_or (q * 1))
bit_or_fields zero (suc r) q h = absurd (omega arith)
bit_or_fields (suc k) r q h =
    let p = ap (λ t. q * t) (pow-suc 2 k) in
    let e : q * 2 ^ suc k ≡ q * 2 ^ k * 2 = omega (arith, p) in
    rw e (
      bit_or_double r (q * 2 ^ k)
      ∙ omega (arith, bit_or_fields k (r / 2) q (omega (arith, pow-suc 2 k))))

differ_bit : (a b : ℕ) → a < 2 → b < 2 → differ a b < 2
differ_bit zero b h k = k
differ_bit (suc a) zero h k = h
differ_bit (suc a) (suc b) h k = differ_bit a b (omega arith) (omega arith)

pub bit_xor-bound : (k a b : ℕ) → a < 2 ^ k → b < 2 ^ k → bit_xor a b < 2 ^ k
bit_xor-bound zero zero b h k = omega (arith, zero-bit_xor b)
bit_xor-bound zero (suc a) b h k = absurd (omega arith)
bit_xor-bound (suc n) a b h k = omega (
  arith,
  pow-suc 2 n,
  bit_xor_digit a b,
  differ_bit (a % 2) (b % 2) (omega arith) (omega arith),
  bit_xor-bound n (a / 2) (b / 2) (omega (arith, pow-suc 2 n)) (omega (arith, pow-suc 2 n)),
)

zero-bit_and : (b : ℕ) → bit_and 0 b ≡ 0
zero-bit_and b = bit_and-bitwise 0 b

bit_and_digit : (a b : ℕ) → bit_and a b ≡ bit_and (a / 2) (b / 2) * 2 + min (a % 2) (b % 2)
bit_and_digit zero b = omega (arith, zero-bit_and b, zero-bit_and (b / 2))
bit_and_digit (suc a) b = omega (
  arith,
  bit_and-bitwise (suc a) b,
  bit_and-bitwise (suc a / 2) (b / 2),
  run_digits-fuel (λ b. zero) min a (suc a / 2) (suc a / 2) (b / 2) (omega arith) (omega arith),
)

bit_and_below : (n a b : ℕ) → a ≤ n → bit_and a b ≤ b
bit_and_below n zero b h = omega (arith, zero-bit_and b)
bit_and_below zero (suc a) b h = absurd (omega arith)
bit_and_below (suc n) (suc a) b h =
    omega (arith, bit_and_digit (suc a) b, bit_and_below n (suc a / 2) (b / 2) (omega arith))

pub bit_and-le : (a b : ℕ) → bit_and a b ≤ b
bit_and-le a b = bit_and_below a a b (omega arith)

-- `mask & (1 << i)`, as a test.
unfoldable pub test_bit : ℕ → ℕ → Bool
test_bit mask i = not (bit_and mask (2 ^ i) == 0)

bit_and_one : (m : ℕ) → bit_and m 1 ≡ m % 2
bit_and_one m = omega (arith, bit_and_digit m 1, bit_and_zero (m / 2))
  where
    bit_and_zero : (m : ℕ) → bit_and m 0 ≡ 0
    bit_and_zero m = omega (arith, bit_and-le m 0)

bit_and_pow : (i m : ℕ) → bit_and m (2 ^ suc i) ≡ bit_and (m / 2) (2 ^ i) * 2
bit_and_pow i m =
    let half : 2 ^ suc i / 2 ≡ 2 ^ i = omega (arith, pow-suc 2 i) in
    omega (arith, pow-suc 2 i, bit_and_digit m (2 ^ suc i), ap (bit_and (m / 2)) half)

bit_or_pow : (i m : ℕ) → bit_or m (2 ^ suc i) ≡ bit_or (m / 2) (2 ^ i) * 2 + m % 2
bit_or_pow i m =
    let double : 2 ^ suc i ≡ 2 ^ i * 2 = omega (arith, pow-suc 2 i) in
    rw double (bit_or_double m (2 ^ i))

lt_pow : (m : ℕ) → m < 2 ^ m
lt_pow zero = omega arith
lt_pow (suc m) = omega (arith, lt_pow m, pow-suc 2 m)

bit_or_zero : (m : ℕ) → bit_or m 0 ≡ m
bit_or_zero m =
    let none_added : 0 * 2 ^ m ≡ 0 = omega arith in
    omega (arith, bit_or_fields m m 0 (lt_pow m), ap (bit_or m) none_added)

-- `mask |= 1 << i` sets bit `i` and no other.
pub bit_and-bit_or_pow :
    (i j m : ℕ) → bit_and (bit_or m (2 ^ i)) (2 ^ j) ≡ (if i == j then 2 ^ j else bit_and m (2 ^ j))
bit_and-bit_or_pow zero zero m = omega (arith, bit_and_one (bit_or m 1), bit_or_digit m 1)
bit_and-bit_or_pow zero (suc j) m =
    let rest : bit_or m 1 / 2 ≡ m / 2 = omega (arith, bit_or_digit m 1, bit_or_zero (m / 2)) in
    rw (==_false 0 (suc j) (λ e. absurd (omega (arith, e))))
      (omega (arith, bit_and_pow j (bit_or m 1), bit_and_pow j m, ap (λ k. bit_and k (2 ^ j)) rest))
bit_and-bit_or_pow (suc i) zero m =
    rw (==_false (suc i) 0 (λ e. absurd (omega (arith, e))))
      (omega (arith, bit_and_one (bit_or m (2 ^ suc i)), bit_and_one m, bit_or_pow i m))
bit_and-bit_or_pow (suc i) (suc j) m =
    let rest : bit_or m (2 ^ suc i) / 2 ≡ bit_or (m / 2) (2 ^ i) = omega (arith, bit_or_pow i m) in
    let step : bit_and (bit_or m (2 ^ suc i)) (2 ^ suc j)
        ≡ bit_and (bit_or (m / 2) (2 ^ i)) (2 ^ j) * 2 =
      omega (arith, bit_and_pow j (bit_or m (2 ^ suc i)), ap (λ k. bit_and k (2 ^ j)) rest) in
    elim (Bool-cases (i == j)) [
      | inl e ↦ ground (arith, step, bit_and-bit_or_pow i j (m / 2), e, pow-suc 2 j)
      | inr e ↦ ground (arith, step, bit_and-bit_or_pow i j (m / 2), e, bit_and_pow j m)
    ]

pub pow_ne_zero : (i : ℕ) → 2 ^ i ≢ 0
pow_ne_zero zero = λ e. absurd (omega (arith, e))
pow_ne_zero (suc i) = λ e. pow_ne_zero i (omega (arith, e, pow-suc 2 i))

pub test_bit-bit_or_pow :
    (i j m : ℕ) → test_bit (bit_or m (2 ^ i)) j ≡ (if i == j then true else test_bit m j)
unfolding test_bit
test_bit-bit_or_pow i j m = ground (arith, bit_and-bit_or_pow i j m, pow_ne_zero j)

pub test_bit-zero : (i : ℕ) → test_bit 0 i ≡ false
unfolding test_bit
test_bit-zero i = rw (zero-bit_and (2 ^ i)) refl

bit_or_swap : (n a b : ℕ) → a ≤ n → bit_or a b ≡ bit_or b a
bit_or_swap n zero b h = omega (arith, zero-bit_or b, bit_or_zero b)
bit_or_swap zero (suc a) b h = absurd (omega arith)
bit_or_swap (suc n) (suc a) b h = omega (
  arith,
  bit_or_digit (suc a) b,
  bit_or_digit b (suc a),
  bit_or_swap n (suc a / 2) (b / 2) (omega arith),
)

pub bit_or_comm : (a b : ℕ) → bit_or a b ≡ bit_or b a
bit_or_comm a b = bit_or_swap a a b (omega arith)

pub bit_and_31 : (m : ℕ) → bit_and m 31 ≡ m % 32
bit_and_31 m = omega (
  arith,
  bit_and_digit m 31,
  bit_and_digit (m / 2) 15,
  bit_and_digit (m / 2 / 2) 7,
  bit_and_digit (m / 2 / 2 / 2) 3,
  bit_and_one (m / 2 / 2 / 2 / 2),
)

pub test_bit-suc : (i m : ℕ) → test_bit m (suc i) ≡ test_bit (m / 2) i
unfolding test_bit
test_bit-suc i m = ground (arith, bit_and_pow i m)

-- `mask >> k`.
pub test_bit-shift : (k i m : ℕ) → test_bit (m / 2 ^ k) i ≡ test_bit m (k + i)
test_bit-shift zero i m =
    let whole : m / 2 ^ 0 ≡ m = omega arith in
    let place : 0 + i ≡ i = omega arith in λ j. test_bit (whole j) (sym place j)
test_bit-shift (suc k) i m =
    let double : 2 ^ suc k ≡ 2 * 2 ^ k = omega (arith, pow-suc 2 k) in
    let halved : m / 2 ^ suc k ≡ m / 2 / 2 ^ k =
      ap (λ p. m / p) double ∙ sym (div-div-eq-div-mul m 2 (2 ^ k)) in
    let place : suc k + i ≡ suc (k + i) = omega arith in
    ap (λ p. test_bit p i) halved
    ∙ (test_bit-shift k i (m / 2) ∙ (sym (test_bit-suc (k + i) m) ∙ ap (test_bit m) (sym place)))

pub test_bit-high : (n i m : ℕ) → m < 2 ^ n → n ≤ i → test_bit m i ≡ false
test_bit-high zero i m h le =
    let none_set : m ≡ 0 = omega (arith, h) in ap (λ p. test_bit p i) none_set ∙ test_bit-zero i
test_bit-high (suc n) zero m h le = absurd (omega (arith, le))
test_bit-high (suc n) (suc i) m h le =
    test_bit-suc i m ∙ test_bit-high n i (m / 2) (omega (arith, h, pow-suc 2 n)) (omega (arith, le))
