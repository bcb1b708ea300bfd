-- ===== src/Result.antt =====
-- core/result.hpp: a value or a decoder's error.
use slop_sync.Base.{◌≡◌, refl, ◌⊎◌, inl, inr}

pub data DecodeError : Type 0 where
  truncated malformed profile_violation depth_exceeded bad_crc unknown_version capacity_exceeded :
      DecodeError

pub data Result {ℓ} (A : Type ℓ) : Type ℓ where
  ok : A → Result A
  err : DecodeError → Result A

infixl 5 ◌>>=◌
abbrev pub ◌>>=◌ {ℓ κ} : {A : Type ℓ} {B : Type κ} → Result A → (A → Result B) → Result B
ok a >>= f = f a
err e >>= f = err e

-- To split on a computed result and keep the equation.
pub Result-cases {ℓ} :
    {A : Type ℓ} (x : Result A) → ((e : DecodeError) × (x ≡ err e)) ⊎ ((a : A) × (x ≡ ok a))
Result-cases (ok a) = inr (a, refl)
Result-cases (err e) = inl (e, refl)
