-- ===== src/Util/Serial.antt =====
-- util/serial_arithmetic.hpp: comparisons of wrapping sequence numbers and timestamps.
-- A uint16_t is a number below 2 ^ 16 and a uint32_t one below 2 ^ 32; an int32_t is an integer.
pub mod Laws
mod Tests
use slop_sync.Base.{ℕ, ◌+◌, ◌-◌, ◌%◌, ◌^◌, Bool, true, false, not, ◌&&◌, ltb, ◌==◌, if◌then◌else◌}
use slop_sync.Int.{ℤ, pos, negsuc}

abbrev pub u8_mod : ℕ
u8_mod = 2 ^ 8

abbrev pub u16_mod : ℕ
u16_mod = 2 ^ 16

abbrev pub u32_mod : ℕ
u32_mod = 2 ^ 32

-- `uint16_t(a - b)` and `uint32_t(a - b)`.
abbrev pub sub16 : ℕ → ℕ → ℕ
sub16 a b = (a + u16_mod - b) % u16_mod

abbrev pub sub32 : ℕ → ℕ → ℕ
sub32 a b = (a + u32_mod - b) % u32_mod

-- `int32_t(w)` of a 32-bit pattern.
abbrev pub signed32 : ℕ → ℤ
signed32 w = if ltb w (2 ^ 31) then pos w else negsuc (u32_mod - w - 1)

unfoldable pub seq_is_newer : ℕ → ℕ → Bool
seq_is_newer a b = let d = sub16 a b in not (d == 0) && ltb d 0x8000

unfoldable pub time_delta : ℕ → ℕ → ℤ
time_delta t reference = signed32 (sub32 t reference)

-- `x >= 0` of an int32_t.
abbrev is_nonneg : ℤ → Bool
is_nonneg (pos n) = true
is_nonneg (negsuc n) = false

unfoldable pub time_reached : ℕ → ℕ → Bool
unfolding time_delta
time_reached now deadline = is_nonneg (time_delta now deadline)
