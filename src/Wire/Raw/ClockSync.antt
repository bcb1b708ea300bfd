-- ===== src/Wire/Raw/ClockSync.antt =====
-- wire/raw/clock_frame.hpp: computeClockSync, the offset and the round trip of one CLOCK exchange. An int64_t
-- is an integer: the sums here are far from its ends.
use slop_sync.Base.{ℕ, suc, ◌+◌, ◌-◌, ◌*◌, ◌/◌, ◌%◌, ◌^◌, ◌<◌, ◌≤◌, ◌≡◌, sym, subst, ◌∙◌, arith}
use slop_sync.Int.{ℤ, pos, negsuc, pos_part, neg_part, sub_ℕ, ◌+ℤ◌, ◌-ℤ◌}
use slop_sync.Util.Serial.{u32_mod, signed32, time_delta}

pub record ClockSync : Type 0 where
  pub offset_us : ℤ
  pub rtt_us : ℕ

-- Division by 2 rounds to 0.
abbrev half : ℤ → ℤ
half (pos n) = pos (n / 2)
half (negsuc n) = sub_ℕ 0 (suc n / 2)

-- `uint32_t(z)`.
abbrev to_u32 : ℤ → ℕ
to_u32 (pos n) = n % u32_mod
to_u32 (negsuc n) = u32_mod - 1 - n % u32_mod

unfoldable pub compute_clock_sync : ℕ → ℕ → ℕ → ℕ → ClockSync
compute_clock_sync t0 t1 t2 t3 =
    let d1 = time_delta t1 t0 in
    let d2 = time_delta t2 t3 in
    let offset = half (d1 +ℤ d2) in
    let rtt_observed = time_delta t3 t0 in
    let hub_hold = time_delta t2 t1 in
    let rtt = rtt_observed -ℤ hub_hold in
    record { offset_us = signed32 (to_u32 offset); rtt_us = to_u32 rtt }

out_delta :
    (t0 s a : ℕ)
    → t0 < u32_mod
    → s < u32_mod
    → pos_part (signed32 s) + a < 2 ^ 31
    → time_delta ((t0 + s + a) % u32_mod) t0 ≡ signed32 s +ℤ pos a
unfolding time_delta ◌+ℤ◌
out_delta t0 s a h0 hs room = ground arith

back_delta :
    (x s b : ℕ)
    → s < u32_mod
    → neg_part (signed32 s) + b ≤ 2 ^ 31
    → time_delta ((x + s) % u32_mod) ((x + b) % u32_mod) ≡ signed32 s -ℤ pos b
unfolding time_delta ◌-ℤ◌
back_delta x s b hs room = ground arith

ahead_delta : (x d : ℕ) → d < 2 ^ 31 → time_delta ((x + d) % u32_mod) (x % u32_mod) ≡ pos d
unfolding time_delta
ahead_delta x d h = ground arith

-- The two halves of the sum (z + a) + (z - b) differ from z by at most half of |a - b|, rounded up.
half_sum :
    (z : ℤ) (a b : ℕ)
    → 2
        * (pos_part (half ((z +ℤ pos a) +ℤ (z -ℤ pos b)) -ℤ z)
            + neg_part (half ((z +ℤ pos a) +ℤ (z -ℤ pos b)) -ℤ z))
      ≤ (a - b) + (b - a) + 1
unfolding ◌+ℤ◌ ◌-ℤ◌
half_sum z a b = ground arith

half_range :
    (z : ℤ) (a b : ℕ)
    → pos_part z + a < 2 ^ 31
    → neg_part z + b ≤ 2 ^ 31
    → signed32 (to_u32 (half ((z +ℤ pos a) +ℤ (z -ℤ pos b)))) ≡ half ((z +ℤ pos a) +ℤ (z -ℤ pos b))
unfolding ◌+ℤ◌ ◌-ℤ◌
half_range z a b above below = ground arith

rtt_parts : (a h b : ℕ) → a + h + b < 2 ^ 31 → to_u32 (pos (a + h + b) -ℤ pos h) ≡ a + b
unfolding ◌-ℤ◌
rtt_parts a h b small = ground arith

-- The hub's clock shows the client's plus `s`, on 32 bits. A request that was sent at `t0` takes `a`, is held
-- for `h` and the reply takes `b`; `a + h + b` and the clocks' difference with the delays stay within half the
-- range of the clocks. Then the round trip that is computed is `a + b`, and the offset differs from the
-- difference of the clocks, `s` read as signed, by at most half of |a - b|, rounded up: for equal delays it is
-- exact.
pub compute_clock_sync_lem :
    (t0 s a h b : ℕ)
    → t0 < u32_mod
    → s < u32_mod
    → pos_part (signed32 s) + a < 2 ^ 31
    → neg_part (signed32 s) + b ≤ 2 ^ 31
    → a + h + b < 2 ^ 31
    → let sync =
        compute_clock_sync t0
          ((t0 + s + a) % u32_mod)
          ((t0 + a + h + s) % u32_mod)
          ((t0 + a + h + b) % u32_mod) in
      (sync.rtt_us ≡ a + b)
      × (2 * (pos_part (sync.offset_us -ℤ signed32 s) + neg_part (sync.offset_us -ℤ signed32 s))
          ≤ (a - b) + (b - a) + 1)
unfolding compute_clock_sync
compute_clock_sync_lem t0 s a h b h0 hs above below small =
    let z = signed32 s in
    let d1 = out_delta t0 s a h0 hs above in
    let d2 = back_delta (t0 + a + h) s b hs below in
    let observed : time_delta ((t0 + a + h + b) % u32_mod) t0 ≡ pos (a + h + b) =
      (λ i. time_delta (sum i % u32_mod) (start i)) ∙ ahead_delta t0 (a + h + b) small in
    let held : time_delta ((t0 + a + h + s) % u32_mod) ((t0 + s + a) % u32_mod) ≡ pos h =
      (λ i. time_delta (later i % u32_mod) ((t0 + s + a) % u32_mod))
      ∙ ahead_delta (t0 + s + a) h (omega (arith, small)) in
    let offset = (λ i. signed32 (to_u32 (half (d1 i +ℤ d2 i)))) ∙ half_range z a b above below in
    (
      (λ i. to_u32 (observed i -ℤ held i)) ∙ rtt_parts a h b small,
      subst (λ o. 2 * (pos_part (o -ℤ z) + neg_part (o -ℤ z)) ≤ (a - b) + (b - a) + 1) (sym offset)
          (half_sum z a b),
    )
  where
    sum : t0 + a + h + b ≡ t0 + (a + h + b)
    sum = omega arith

    start : t0 ≡ t0 % u32_mod
    start = omega (arith, h0)

    later : t0 + a + h + s ≡ t0 + s + a + h
    later = omega arith
