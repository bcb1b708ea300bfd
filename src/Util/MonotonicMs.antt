-- ===== src/Util/MonotonicMs.antt =====
-- `MonotonicMs` of util/serial_arithmetic.hpp: a millisecond counter over the wrapping
-- microsecond clock.
pub mod Exact
mod Tests
use slop_sync.Base.{ℕ, ◌+◌, ◌/◌, ◌%◌, Bool, true, false, if◌then◌else◌, List, [], ◌∷◌}
use slop_sync.Util.Serial.{u32_mod, u16_mod, sub32}

pub record MonotonicMs : Type 0 where
  pub last_us : ℕ
  pub ms : ℕ
  pub rem : ℕ
  pub init : Bool

-- The counter as it is constructed.
abbrev pub fresh : MonotonicMs
fresh = record { last_us = 0; ms = 0; rem = 0; init = false }

-- `advance` returns the new value of the counter, which it also keeps as `ms`.
unfoldable pub advance : MonotonicMs → ℕ → MonotonicMs
advance m now_us =
    let total : ℕ = (sub32 now_us m.last_us + m.rem) % u32_mod in
    if m.init
    then record {
      last_us = now_us;
      ms = (m.ms + total / 1000) % u32_mod;
      rem = total % 1000 % u16_mod;
      init = true;
    }
    else record { last_us = now_us; ms = now_us / 1000; rem = now_us % 1000 % u16_mod; init = true }
