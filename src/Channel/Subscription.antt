-- ===== src/Channel/Subscription.antt =====
-- channel/subscription.hpp: the grants of a session and the pacing of their pushes. A rate is a
-- `float` of the platform: its type is a parameter, with the two things that the code asks of it.
-- The entries in use, `_entries[0 .. _count)`, are the list, so `_count` is its length.
pub mod Laws
pub mod Pacing
mod Tests
use slop_sync.Base.{
  ℕ, ◌+◌, ◌%◌, Bool, true, false, not, Option, none, some, List, [], ◌∷◌, ◌++◌, length, leb, ◌==◌,
  if◌then◌else◌,
}
use slop_sync.Util.Serial.{u32_mod, time_reached}

pub data Priority : Type 0 where
  background normal elevated critical : Priority

-- `float`: `rate <= 0.0f` and `uint32_t(1000.0f / rate)`.
pub record Rates : Type 1 where
  pub Rate : Type 0
  pub is_nonpos : Rate → Bool
  pub period_ms : Rate → ℕ

pub record SubscriptionEntry (Rate : Type 0) : Type 0 where
  pub channel_id : ℕ
  pub granted_rate_hz : Rate
  pub priority : Priority
  pub ever_pushed : Bool
  pub last_push_ms : ℕ

-- A grant to which nothing has been pushed yet.
abbrev pub granted : {Rate : Type 0} → ℕ → Rate → Priority → SubscriptionEntry Rate
granted c rate priority = record {
  channel_id = c;
  granted_rate_hz = rate;
  priority = priority;
  ever_pushed = false;
  last_push_ms = 0;
}

module _ (rates : Rates) where
  open rates use {Rate, is_nonpos, period_ms}

  unfoldable pub due_for_push : SubscriptionEntry Rate → ℕ → Bool → Bool
  due_for_push e now_ms change_pending =
      if not e.ever_pushed
      then true
      else if not change_pending
      then false
      else if is_nonpos e.granted_rate_hz
      then true
      else time_reached now_ms ((e.last_push_ms + period_ms e.granted_rate_hz) % u32_mod)

  unfoldable pub mark_pushed : SubscriptionEntry Rate → ℕ → SubscriptionEntry Rate
  mark_pushed e now_ms = record e { ever_pushed = true; last_push_ms = now_ms }

module _ {Rate : Type 0} where
  unfoldable pub find : List (SubscriptionEntry Rate) → ℕ → Option (SubscriptionEntry Rate)
  find [] c = none
  find (e ∷ es) c = if e.channel_id == c then some e else find es c

  -- The writes through the pointer that `find` returned.
  unfoldable pub regrant :
      List (SubscriptionEntry Rate) → ℕ → Rate → Priority → List (SubscriptionEntry Rate)
  regrant [] c rate priority = []
  regrant (e ∷ es) c rate priority =
      if e.channel_id == c
      then record e {
        granted_rate_hz = rate;
        priority = priority;
        ever_pushed = false;
        last_push_ms = 0;
      }
        ∷ es
      else e ∷ regrant es c rate priority

  unfoldable pub upsert :
      ℕ → List (SubscriptionEntry Rate) → ℕ → Rate → Priority → Bool × List (SubscriptionEntry Rate)
  unfolding find regrant
  upsert capacity t c rate priority = elim (find t c) [
    | some e ↦ (true, regrant t c rate priority)
    | none ↦
        if leb capacity (length t) then (false, t) else (true, t ++ (granted c rate priority ∷ []))
  ]

  unfoldable pub remove : List (SubscriptionEntry Rate) → ℕ → Bool × List (SubscriptionEntry Rate)
  remove [] c = (false, [])
  remove (e ∷ es) c =
      if e.channel_id == c then (true, es) else (let (found, es') = remove es c in (found, e ∷ es'))
