-- ===== src/Wire/Fragmentation/Slots.antt =====
-- The slots of the reassembler of wire/fragmentation.hpp: which one a message has.
use slop_sync.Base.{
  ℕ, zero, suc, ◌+◌, ◌%◌, ◌<◌, bit_and, ◌≡◌, refl, ap, ◌∙◌, inl, inr, true, false, none, some, List,
  [], ◌∷◌, arith, ◌==◌, if◌then◌else◌, ==_true, Bool-cases, Option-cases, length, get_or, set,
  get_or-set_self,
}
use slop_sync.Int.{ℤ, ltb_ℤ}
use slop_sync.Util.Serial.{time_delta, u16_mod}
use slop_sync.Wire.Fragmentation.{
  Slot, Reassembler, empty_slot, opened, is_for, find_slot, find_idle, oldest_from, alloc_slot,
  place_fragment, place_pending, fill_slot, frag_more, frag_start,
}

find_slot_later :
    (s : Slot) (slots : List Slot) (type seq k : ℕ)
    → find_slot (s ∷ slots) type seq ≡ some (suc k)
    → (is_for s type seq ≡ false) × (find_slot slots type seq ≡ some k)
unfolding find_slot
find_slot_later s slots type seq k h = elim (Bool-cases (is_for s type seq)) [
  | inl e ↦ ground (arith, h, e)
  | inr e ↦ elim (Option-cases (find_slot slots type seq)) [
    | inl n ↦ ground (arith, h, e, n)
    | inr (j, q) ↦ ground (arith, h, e, q)
  ]
]

find_slot_not :
    (s : Slot) (slots : List Slot) (type seq : ℕ)
    → find_slot (s ∷ slots) type seq ≡ none
    → (is_for s type seq ≡ false) × (find_slot slots type seq ≡ none)
unfolding find_slot
find_slot_not s slots type seq h = elim (Bool-cases (is_for s type seq)) [
  | inl e ↦ ground (arith, h, e)
  | inr e ↦ elim (Option-cases (find_slot slots type seq)) [
    | inl n ↦ (e, n)
    | inr (j, q) ↦ ground (arith, h, e, q)
  ]
]

pub find_slot-found :
    (slots : List Slot) (type seq k : ℕ)
    → find_slot slots type seq ≡ some k
    → (k < length slots) × (is_for (get_or slots k empty_slot) type seq ≡ true)
unfolding find_slot
find_slot-found [] type seq k h = ground (arith, h)
find_slot-found (s ∷ slots) type seq zero h = elim (Bool-cases (is_for s type seq)) [
  | inl e ↦ (omega arith, e)
  | inr e ↦ elim (Option-cases (find_slot slots type seq)) [
    | inl n ↦ ground (arith, h, e, n)
    | inr (j, q) ↦ ground (arith, h, e, q)
  ]
]
find_slot-found (s ∷ slots) type seq (suc k) h =
    let rest = find_slot-found slots type seq k (find_slot_later s slots type seq k h).1 in
    (omega (arith, rest.0), rest.1)

suc_eq : (k : ℕ) → k + 1 ≡ suc k
suc_eq k = omega arith

pub find_slot-set :
    (slots : List Slot) (type seq k : ℕ) (s : Slot)
    → find_slot slots type seq ≡ some k
    → is_for s type seq ≡ true
    → find_slot (set slots k s) type seq ≡ some k
unfolding find_slot
find_slot-set [] type seq k s h e = ground (arith, h)
find_slot-set (t ∷ slots) type seq zero s h e = rw e refl
find_slot-set (t ∷ slots) type seq (suc k) s h e =
    let (other, later) = find_slot_later t slots type seq k h in
    rw (other, find_slot-set slots type seq k s later e) (ap some (suc_eq k))

pub find_slot-set_new :
    (slots : List Slot) (type seq k : ℕ) (s : Slot)
    → find_slot slots type seq ≡ none
    → k < length slots
    → is_for s type seq ≡ true
    → find_slot (set slots k s) type seq ≡ some k
unfolding find_slot
find_slot-set_new [] type seq k s h l e = absurd (omega arith)
find_slot-set_new (t ∷ slots) type seq zero s h l e = rw e refl
find_slot-set_new (t ∷ slots) type seq (suc k) s h l e =
    let (other, later) = find_slot_not t slots type seq h in
    rw (other, find_slot-set_new slots type seq k s later (omega arith) e) (ap some (suc_eq k))

find_idle-lt : (slots : List Slot) (k : ℕ) → find_idle slots ≡ some k → k < length slots
unfolding find_idle
find_idle-lt [] k h = ground (arith, h)
find_idle-lt (s ∷ slots) k h = elim (Option-cases (find_idle slots)) [
  | inl n ↦ ground (arith, h, n)
  | inr (j, q) ↦ ground (arith, h, q, find_idle-lt slots j q)
]

oldest_from-lt :
    (now : ℕ) (slots : List Slot) (k : ℕ) (best : ℕ × ℤ)
    → best.0 < k + length slots
    → oldest_from now slots k best < k + length slots
unfolding oldest_from
oldest_from-lt now [] k (best, age) h = h
oldest_from-lt now (s ∷ slots) k (best, age) h =
    let next = time_delta now s.start_ms in
    elim (Bool-cases (ltb_ℤ age next)) [
      | inl e ↦ rw e (omega (arith, oldest_from-lt now slots (k + 1) (k, next) (omega arith)))
      | inr e ↦
          rw e (omega (arith, oldest_from-lt now slots (k + 1) (best, age) (omega (arith, h))))
    ]

pub alloc_slot-opened :
    (r : Reassembler) (type seq now : ℕ)
    → 0 < length r.slots
    → find_slot r.slots type seq ≡ none
    → (r' : Reassembler) × (k : ℕ) × (alloc_slot r type seq now ≡ (r', k))
      × (find_slot r'.slots type seq ≡ some k)
      × (get_or r'.slots k empty_slot ≡ opened type seq now)
unfolding alloc_slot
alloc_slot-opened r type seq now some_slots h =
    let mine : is_for (opened type seq now) type seq ≡ true =
      rw (==_true type type refl, ==_true seq seq refl) refl in
    elim (Option-cases (find_idle r.slots)) [
      | inl n ↦
          let k =
            oldest_from now r.slots 0 (0, time_delta now (get_or r.slots 0 empty_slot).start_ms) in
          let l : k < length r.slots = omega (
            arith,
            oldest_from-lt now r.slots 0 (0, time_delta now (get_or r.slots 0 empty_slot).start_ms)
                (omega arith),
          ) in
          rw (n, alloc_slot)
            (
              _,
              _,
              refl,
              find_slot-set_new r.slots type seq k (opened type seq now) h l mine,
              get_or-set_self r.slots k (opened type seq now) empty_slot l,
            )
      | inr (k, q) ↦
          let l = find_idle-lt r.slots k q in
          rw (q, alloc_slot)
            (
              _,
              _,
              refl,
              find_slot-set_new r.slots type seq k (opened type seq now) h l mine,
              get_or-set_self r.slots k (opened type seq now) empty_slot l,
            )
    ]

-- Filling a slot does not change whose it is.
pub record Keeps (s t : Slot) : Type 0 where
  pub active : t.active ≡ s.active
  pub type : t.type ≡ s.type
  pub channel : t.channel ≡ s.channel
  pub seq : t.seq ≡ s.seq
  pub start_ms : t.start_ms ≡ s.start_ms

place_fragment-Keeps :
    (s t : Slot) (index : ℕ) (bytes : List ℕ) → place_fragment s index bytes ≡ some t → Keeps s t
unfolding place_fragment
place_fragment-Keeps s t index bytes h = ground (arith, h)

place_pending-Keeps : (s t : Slot) → place_pending s ≡ some t → Keeps s t
unfolding place_pending
place_pending-Keeps s t h = grind (arith, h, place_fragment-Keeps)

pub fill_slot-Keeps :
    (s t : Slot) (flags index : ℕ) (slice : List ℕ)
    → fill_slot s flags index slice ≡ some t
    → Keeps s t
unfolding fill_slot
fill_slot-Keeps s t flags index slice h = elim (Bool-cases (bit_and flags frag_more == 0)) [
  | inl last ↦ elim (Bool-cases (bit_and flags frag_start == 0)) [
    | inl middle ↦ grind (arith, h, last, middle, place_fragment-Keeps)
    | inr start ↦ grind (arith, h, last, start, place_fragment-Keeps)
  ]
  | inr more ↦
      let sized = record s {
        unit_len = if s.unit_len == 0 then length slice % u16_mod else s.unit_len;
      } in
      elim (Option-cases (place_fragment sized index slice)) [
        | inl n ↦ absurd (ground (arith, h, more, n))
        | inr (u, q) ↦
            let first = place_fragment-Keeps sized u index slice q in
            let second = place_pending-Keeps u t (ground (arith, h, more, q)) in
            record {
              active = second.active ∙ first.active;
              type = second.type ∙ first.type;
              channel = second.channel ∙ first.channel;
              seq = second.seq ∙ first.seq;
              start_ms = second.start_ms ∙ first.start_ms;
            }
      ]
]
