-- ===== src/Channel/IntentRing.antt =====
-- `IntentRing` of channel/intent_registry.hpp: the echoes of the last intents of a session, by id.
-- A slot's byte array with its size is the list of the bytes that it holds.
pub mod Recall
mod Tests
use slop_sync.Base.{
  ℕ, zero, suc, ◌+◌, ◌-◌, ◌*◌, ◌/◌, ◌%◌, ◌^◌, ◌≤◌, ◌<◌, min, bit_and, bit_or, bit_xor, ◌≡◌, refl,
  sym, ap, ◌∙◌, subst, ◌≢◌, ◌↔◌, ◌⊎◌, inl, inr, Bool, true, false, not, ◌&&◌, ◌||◌, Option, none,
  some, List, [], ◌∷◌, ◌++◌, map, append-nil, append_assoc, arith, ltb, leb, ◌==◌, if◌then◌else◌,
  ==_iff, ltb-true, ltb-false, leb-true, leb-false, ==_true, ==_false, Bool-cases, Option-cases,
  length, get_elem?, get_or, set, take, drop, replicate, All, length-append, length-replicate,
  length-set, get_or-set_self, get_or-set_ne, take-append-drop, length-take, length-drop,
  drop-append, list_ext, write_at, length-write_at, get_or-write_at, take-write_at, drop-write_at,
}

pub record Slot : Type 0 where
  pub used : Bool
  pub intent_id : ℕ
  pub bytes : List ℕ

abbrev pub empty_slot : Slot
empty_slot = record { used = false; intent_id = 0; bytes = [] }

pub record IntentRing : Type 0 where
  pub slots : List Slot
  pub head : ℕ
  pub count : ℕ

abbrev pub Echo : Type 0
Echo = Option (List ℕ)

-- The loop of `lookup` over the first `n` slots.
unfoldable pub lookup_in : ℕ → List Slot → ℕ → Echo
lookup_in zero slots id = none
lookup_in (suc n) [] id = none
lookup_in (suc n) (s ∷ slots) id =
    if s.used && s.intent_id == id then some s.bytes else lookup_in n slots id

unfoldable pub lookup : IntentRing → ℕ → Echo
unfolding lookup_in
lookup r id = lookup_in r.count r.slots id

-- `Depth` and `SlotCapacity` of the template.
module _ (depth slot_capacity : ℕ) where
  unfoldable pub store : IntentRing → ℕ → List ℕ → Bool × IntentRing
  store r id echo = if ltb slot_capacity (length echo) then (false, r) else (
    true,
    record {
      slots = set r.slots r.head (record { used = true; intent_id = id; bytes = echo });
      head = (r.head + 1) % depth;
      count = if ltb r.count depth then r.count + 1 else r.count;
    },
  )

abbrev pub fresh : ℕ → IntentRing
fresh depth = record { slots = replicate depth empty_slot; head = 0; count = 0 }

-- Session end.
unfoldable pub clear : IntentRing → IntentRing
clear r = record {
  slots = map {A = Slot} (λ s. record s { used = false }) r.slots;
  head = 0;
  count = 0;
}
