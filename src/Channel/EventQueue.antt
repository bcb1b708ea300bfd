-- ===== src/Channel/EventQueue.antt =====
-- channel/event_channel.hpp: the bounded per-subscriber EVENT queue, a ring that drops its oldest
-- entry. A slot's byte array with its size, a uint16_t, is the list of the bytes that it holds.
pub mod Spec
pub mod Refine
mod Tests
use slop_sync.Base.{
  ℕ, ◌+◌, ◌-◌, ◌%◌, Bool, true, false, Option, none, some, List, length, set, get_or, replicate,
  take, ltb, ◌==◌, if◌then◌else◌,
}
use slop_sync.Util.Serial.{u16_mod, u32_mod}

pub record Slot : Type 0 where
  pub bytes : List ℕ
  pub channel_id : ℕ

abbrev pub empty_slot : Slot
empty_slot = record { bytes = List.[]; channel_id = 0 }

pub record EventQueue : Type 0 where
  pub slots : List Slot
  pub head : ℕ
  pub tail : ℕ
  pub count : ℕ
  pub events_dropped : ℕ

unfoldable pub size : EventQueue → ℕ
size q = q.count

unfoldable pub is_empty : EventQueue → Bool
is_empty q = q.count == 0

unfoldable pub dropped : EventQueue → ℕ
dropped q = q.events_dropped

-- `Depth` of the template; its `SlotCapacity` is an argument of `push`.
module _ (depth : ℕ) where
  unfoldable pub empty : EventQueue
  empty = record {
    slots = replicate depth empty_slot;
    head = 0;
    tail = 0;
    count = 0;
    events_dropped = 0;
  }

  unfoldable pub is_full : EventQueue → Bool
  is_full q = q.count == depth

  -- The first part of `push`: room for one more, at the cost of the oldest entry.
  unfoldable pub make_room : EventQueue → EventQueue
  make_room q =
      if q.count == depth
      then record q {
        tail = (q.tail + 1) % depth;
        count = q.count - 1;
        events_dropped = (q.events_dropped + 1) % u32_mod;
      }
      else q

  unfoldable pub write_slot : EventQueue → ℕ → List ℕ → EventQueue
  write_slot q channel_id bytes = record q {
    slots =
        set q.slots q.head
          (record { bytes = take (length bytes % u16_mod) bytes; channel_id = channel_id });
    head = (q.head + 1) % depth;
    count = q.count + 1;
  }

  unfoldable pub push : ℕ → EventQueue → ℕ → List ℕ → Bool × EventQueue
  push slot_capacity q channel_id bytes =
      if ltb slot_capacity (length bytes)
      then (false, q)
      else (true, write_slot (make_room q) channel_id bytes)

  unfoldable pub pop : EventQueue → Option Slot × EventQueue
  pop q = if q.count == 0 then (none, q) else (
    some (get_or q.slots q.tail empty_slot),
    record q { tail = (q.tail + 1) % depth; count = q.count - 1 },
  )
