-- ===== src/Util/Serial/Laws.antt =====
-- What the wrapping comparisons of util/serial_arithmetic.hpp decide.
use slop_sync.Base.{ℕ, ◌+◌, ◌-◌, ◌%◌, ◌^◌, ◌<◌, ◌≤◌, ◌≡◌, ◌≢◌, ◌↔◌, true, false, not, arith, ltb}
use slop_sync.Int.{pos, sub_ℕ}
use slop_sync.Util.Serial.{u16_mod, u32_mod, sub16, seq_is_newer, time_delta, time_reached}

-- On uint16_t values the sequence number that lies `d` steps ahead of `a`, counted with the wrap, is
-- newer than `a` exactly when 0 < d < 2 ^ 15.
pub seq_is_newer_iff :
    (a d : ℕ)
    → a < u16_mod
    → d < u16_mod
    → (seq_is_newer ((a + d) % u16_mod) a ≡ true) ↔ ((0 < d) × (d < 2 ^ 15))
unfolding seq_is_newer
seq_is_newer_iff a d ha hd = ground arith

-- Of two distinct uint16_t values that are not exactly half the range apart, exactly one is newer
-- than the other; at exactly half the range neither is.
pub seq_is_newer_total :
    (a b : ℕ)
    → a < u16_mod
    → b < u16_mod
    → a ≢ b
    → (sub16 a b ≢ 2 ^ 15 → seq_is_newer a b ≡ not (seq_is_newer b a))
      × (sub16 a b ≡ 2 ^ 15 → (seq_is_newer a b ≡ false) × (seq_is_newer b a ≡ false))
unfolding seq_is_newer
seq_is_newer_total a b ha hb ne = ground arith

-- For a uint32_t reference and a time that lies `d` ticks ahead of it, `time_delta` is `d` where
-- d < 2 ^ 31; for one that lies `d` ticks behind it, it is `-d` where d ≤ 2 ^ 31. Both hold across
-- the wrap.
pub time_delta_window :
    (r d : ℕ)
    → r < u32_mod
    → (d < 2 ^ 31 → time_delta ((r + d) % u32_mod) r ≡ pos d)
      × (d ≤ 2 ^ 31 → time_delta ((r + u32_mod - d) % u32_mod) r ≡ sub_ℕ 0 d)
unfolding time_delta
time_delta_window r d hr = ground arith

pub time_reached-ltb :
    (d e : ℕ) → d < u32_mod → e < u32_mod → time_reached ((d + e) % u32_mod) d ≡ ltb e (2 ^ 31)
unfolding time_reached
time_reached-ltb d e hd he = ground arith
