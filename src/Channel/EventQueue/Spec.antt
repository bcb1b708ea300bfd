-- ===== src/Channel/EventQueue/Spec.antt =====
-- What a subscriber is promised: its newest events, oldest first, and a count of what was lost.
use slop_sync.Base.{
  ℕ, ◌+◌, ◌-◌, ◌%◌, Bool, true, false, Option, none, some, List, [], ◌∷◌, ◌++◌, length, drop, ltb,
  if◌then◌else◌, ◌==◌,
}
use slop_sync.Util.Serial.{u32_mod}
use slop_sync.Channel.EventQueue.{Slot}

pub record Log : Type 0 where
  pub events : List Slot
  pub lost : ℕ

pub data Call : Type 0 where
  pushes : ℕ → List ℕ → Call
  pops : Call
  -- `size`, `empty`, `full` and `eventsDropped`.
  asks : Call

pub data Reply : Type 0 where
  pushed : Bool → Reply
  popped : Option Slot → Reply
  told : ℕ → Bool → Bool → ℕ → Reply

abbrev pub pop_events : List Slot → ℕ → Option Slot × Log
pop_events [] lost = (none, record { events = []; lost = lost })
pop_events (e ∷ es) lost = (some e, record { events = es; lost = lost })

abbrev pub pop_log : Log → Option Slot × Log
pop_log l = pop_events l.events l.lost

module _ (depth slot_capacity : ℕ) where
  -- An event that is too long is refused; any other is added, and the last `depth` events are kept.
  abbrev pub push_log : Log → ℕ → List ℕ → Bool × Log
  push_log l channel_id bytes = if ltb slot_capacity (length bytes) then (false, l) else (
    true,
    record {
      events =
          drop (length l.events + 1 - depth)
            (l.events ++ (record { bytes = bytes; channel_id = channel_id } ∷ []));
      lost = (l.lost + (length l.events + 1 - depth)) % u32_mod;
    },
  )

  unfoldable pub run_log : Log → List Call → List Reply
  run_log l [] = []
  run_log l (pushes c bytes ∷ cs) = let (r, l') = push_log l c bytes in pushed r ∷ run_log l' cs
  run_log l (pops ∷ cs) = let (r, l') = pop_log l in popped r ∷ run_log l' cs
  run_log l (asks ∷ cs) =
      told (length l.events) (length l.events == 0) (length l.events == depth) l.lost ∷ run_log l cs
