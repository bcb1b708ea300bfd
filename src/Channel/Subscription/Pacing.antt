-- ===== src/Channel/Subscription/Pacing.antt =====
-- The pacing of the pushes of one grant.
use slop_sync.Base.{ℕ, ◌+◌, ◌%◌, ◌^◌, ◌<◌, ◌≡◌, Bool, true, ◌&&◌, ◌||◌, leb, arith}
use slop_sync.Util.Serial.{u32_mod, time_reached}
use slop_sync.Channel.Subscription.{
  Priority, Rates, SubscriptionEntry, granted, due_for_push, mark_pushed,
}

module _ (rates : Rates) where
  open rates use {Rate, is_nonpos, period_ms}

  time_reached-period :
      (t d period : ℕ)
      → t < u32_mod
      → d < 2 ^ 31
      → period < 2 ^ 31
      → time_reached ((t + d) % u32_mod) ((t + period) % u32_mod) ≡ leb period d
  unfolding time_reached
  time_reached-period t d period ht hd hp = ground arith

  -- A fresh grant is due at once, whatever is pending. After a push at time `t` the grant is next
  -- due, `d` ms later, exactly when a change is pending and either the rate is not positive or the
  -- period of the rate has passed; `d` and the period are below half the range of the clock.
  pub due_for_push_paced :
      (e : SubscriptionEntry Rate) (c : ℕ) (rate : Rate) (p : Priority) (t d : ℕ) (pending : Bool)
      → t < u32_mod
      → d < 2 ^ 31
      → period_ms e.granted_rate_hz < 2 ^ 31
      → (due_for_push rates (granted c rate p) t pending ≡ true)
        × (due_for_push rates (mark_pushed rates e t) ((t + d) % u32_mod) pending
            ≡ (pending && (is_nonpos e.granted_rate_hz || leb (period_ms e.granted_rate_hz) d)))
  unfolding due_for_push mark_pushed
  due_for_push_paced e c rate p t d pending ht hd hp =
      ground (arith, time_reached-period t d (period_ms e.granted_rate_hz) ht hd hp)
