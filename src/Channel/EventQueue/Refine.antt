-- ===== src/Channel/EventQueue/Refine.antt =====
-- The ring of channel/event_channel.hpp behaves as the log of the newest events.
use slop_sync.Base.{
  wrap-ne, wrap_next, ℕ, zero, suc, ◌+◌, ◌-◌, ◌%◌, ◌≤◌, ◌<◌, ◌≡◌, ◌≢◌, refl, sym, ap, ◌∙◌, Bool,
  true, Option, inl, inr, List, [], ◌∷◌, ◌++◌, length, drop, drop-append, set, get_or, length-set,
  take, take_all, get_or-set_self, get_or-set_ne, length-replicate, Bool-cases, ==_iff, ltb, ◌==◌,
  arith,
}
use native.Mathlib.Nat.{mod-add-mod, mod-eq_of_lt, add-zero}
use native.Mathlib.Numerals.{add-one}
use slop_sync.Util.Serial.{u16_mod, u32_mod}
use slop_sync.Channel.EventQueue.{
  Slot, EventQueue, empty_slot, empty, make_room, write_slot, push, pop, size, is_empty, is_full,
  dropped,
}
use slop_sync.Channel.EventQueue.Spec.{
  Log, Call, pushes, pops, asks, Reply, pushed, popped, told, push_log, pop_log, run_log,
}

-- The `n` slots from index `h` on, going round at `depth`.
abbrev pub entries : List Slot → ℕ → ℕ → ℕ → List Slot
entries slots depth h zero = []
entries slots depth h (suc n) = get_or slots h empty_slot ∷ entries slots depth ((h + 1) % depth) n

length-entries : (slots : List Slot) (depth h n : ℕ) → length (entries slots depth h n) ≡ n
length-entries slots depth h zero = refl
length-entries slots depth h (suc n) = ap suc (length-entries slots depth ((h + 1) % depth) n)

entries_pos :
    (slots : List Slot) (depth h n : ℕ)
    → n ≢ 0
    → entries slots depth h n
      ≡ get_or slots h empty_slot ∷ entries slots depth ((h + 1) % depth) (n - 1)
entries_pos slots depth h zero p = absurd (p refl)
entries_pos slots depth h (suc n) p = ap (λ k. entries slots depth h (suc k)) (omega arith)

entries_none : (slots : List Slot) (depth h n : ℕ) → n ≡ 0 → entries slots depth h n ≡ []
entries_none slots depth h zero p = refl
entries_none slots depth h (suc n) p = absurd (omega arith)

-- A write just past the entries adds one entry at the end.
entries-set :
    (slots : List Slot) (depth : ℕ) (s : Slot) (n h i : ℕ)
    → length slots ≡ depth
    → h < depth
    → n < depth
    → i ≡ (h + n) % depth
    → entries (set slots i s) depth h (suc n) ≡ entries slots depth h n ++ (s ∷ [])
entries-set slots depth s zero h i hs hh hn e =
    rw (e, add-zero, mod-eq_of_lt hh, get_or-set_self slots h s empty_slot (omega arith))
entries-set slots depth s (suc n) h i hs hh hn e = λ j.
    get_or-set_ne slots i h s empty_slot (rw e (wrap-ne depth h n hh hn)) j
    ∷ entries-set slots depth s n ((h + 1) % depth) i hs (omega arith) (omega arith) (e ∙ shift) j
  where
    shift : (h + suc n) % depth ≡ ((h + 1) % depth + n) % depth
    shift = rw mod-add-mod (ap (λ k. k % depth) (omega arith))

module _ (depth : ℕ) where
  pub record IsValid (q : EventQueue) : Type 0 where
    pub sized : length q.slots ≡ depth
    pub tail_in : q.tail < depth
    pub fits : q.count ≤ depth
    pub linked : q.head ≡ (q.tail + q.count) % depth
    pub counted : q.events_dropped < u32_mod

  abbrev pub to_log : EventQueue → Log
  to_log q = record { events = entries q.slots depth q.tail q.count; lost = q.events_dropped }

  pub empty-IsValid : 0 < depth → IsValid (empty depth)
  unfolding empty
  empty-IsValid h = record {
    sized = length-replicate depth empty_slot;
    tail_in = h;
    fits = omega arith;
    linked = omega arith;
    counted = omega arith;
  }

  make_room-IsValid :
      (q : EventQueue)
      → IsValid q
      → IsValid (make_room depth q) × ((make_room depth q).count < depth)
  unfolding make_room
  make_room-IsValid q v = elim (Bool-cases (q.count == depth)) [
    | inl full ↦
        let e : q.count ≡ depth = (==_iff q.count depth).0 full in
        rw full (
          record {
            sized = v.sized;
            tail_in = omega arith;
            fits = omega arith;
            linked = v.linked ∙ wrap_next depth q.tail q.count (omega arith);
            counted = omega arith;
          },
          omega arith,
        )
    | inr room ↦ rw room (v, ground arith)
  ]

  -- Making room drops the oldest entry of a full ring.
  to_log-make_room :
      (q : EventQueue)
      → IsValid q
      → to_log (make_room depth q) ≡ record {
        events = drop (q.count + 1 - depth) (to_log q).events;
        lost = (q.events_dropped + (q.count + 1 - depth)) % u32_mod;
      }
  unfolding make_room
  to_log-make_room q v =
      ground (
        arith,
        entries_pos q.slots depth q.tail q.count,
        length-entries q.slots depth q.tail q.count,
      )

  write_slot-IsValid :
      (q : EventQueue) (c : ℕ) (bytes : List ℕ)
      → IsValid q
      → q.count < depth
      → IsValid (write_slot depth q c bytes)
  unfolding write_slot
  write_slot-IsValid q c bytes v room = record {
    sized = length-set q.slots q.head _ ∙ v.sized;
    tail_in = v.tail_in;
    fits = omega arith;
    linked = rw v.linked (mod-add-mod _ _ _ ∙ ap (λ k. k % depth) (omega arith));
    counted = v.counted;
  }

  to_log-write_slot :
      (q : EventQueue) (c : ℕ) (bytes : List ℕ)
      → IsValid q
      → q.count < depth
      → length bytes < u16_mod
      → (to_log (write_slot depth q c bytes)).events
        ≡ (to_log q).events ++ (record { bytes = bytes; channel_id = c } ∷ [])
  unfolding write_slot
  to_log-write_slot q c bytes v room short =
      let whole : take (length bytes % u16_mod) bytes ≡ bytes =
        ap (λ n. take n bytes) (mod-eq_of_lt short) ∙ take_all bytes in
      rw (add-one q.count) (
        entries-set q.slots depth _ q.count q.tail q.head v.sized v.tail_in room v.linked
        ∙ ap (λ l. (to_log q).events ++ (record { bytes = l; channel_id = c } ∷ [])) whole)

  -- Writing after making room is what the log does with an event that it takes.
  to_log-push :
      (q : EventQueue) (c : ℕ) (bytes : List ℕ)
      → IsValid q
      → length bytes < u16_mod
      → to_log (write_slot depth (make_room depth q) c bytes) ≡ record {
        events =
            drop
              (length (to_log q).events + 1 - depth)
              ((to_log q).events ++ (record { bytes = bytes; channel_id = c } ∷ []));
        lost = (q.events_dropped + (length (to_log q).events + 1 - depth)) % u32_mod;
      }
  unfolding make_room write_slot
  to_log-push q c bytes v short =
      rw (length-entries q.slots depth q.tail q.count)
        λ i. record { events = kept i; lost = (to_log-make_room q v i).lost }
    where
      s : Slot
      s = record { bytes = bytes; channel_id = c }

      kept :
          (to_log (write_slot depth (make_room depth q) c bytes)).events
          ≡ drop (q.count + 1 - depth) ((to_log q).events ++ (s ∷ []))
      kept =
          let (v', room) = make_room-IsValid q v in
          to_log-write_slot (make_room depth q) c bytes v' room short
          ∙ ap (λ l. l.events ++ (s ∷ [])) (to_log-make_room q v)
          ∙ sym (
              drop-append (q.count + 1 - depth) _ (s ∷ [])
                (rw (length-entries q.slots depth q.tail q.count) (omega arith)))

  -- `push` answers as the log does, and the ring then holds the log's events.
  pub push_refines :
      (slot_capacity : ℕ) (q : EventQueue) (c : ℕ) (bytes : List ℕ)
      → slot_capacity < u16_mod
      → IsValid q
      → let (r, q') = push depth slot_capacity q c bytes in
        IsValid q' × ((r, to_log q') ≡ push_log depth slot_capacity (to_log q) c bytes)
  unfolding push
  push_refines slot_capacity q c bytes small v =
      elim (Bool-cases (ltb slot_capacity (length bytes))) [
        | inl long ↦ rw long (v, refl)
        | inr fits ↦
            let (v', room) = make_room-IsValid q v in
            let short : length bytes < u16_mod = ground (arith, fits, small) in
            rw fits (
              write_slot-IsValid (make_room depth q) c bytes v' room,
              λ i. (true, to_log-push q c bytes v short i),
            )
      ]

  pub pop_refines :
      (q : EventQueue)
      → IsValid q
      → let (r, q') = pop depth q in IsValid q' × ((r, to_log q') ≡ pop_log (to_log q))
  unfolding pop
  pop_refines q v = elim (Bool-cases (q.count == 0)) [
    | inl none_left ↦
        let e : q.count ≡ 0 = (==_iff q.count 0).0 none_left in
        rw none_left (v, rw (entries_none q.slots depth q.tail q.count e))
    | inr more ↦
        let ne : q.count ≢ 0 = ground arith in
        rw more (
          record {
            sized = v.sized;
            tail_in = omega arith;
            fits = omega arith;
            linked = v.linked ∙ wrap_next depth q.tail q.count ne;
            counted = v.counted;
          },
          rw (entries_pos q.slots depth q.tail q.count ne),
        )
  ]

-- A client's calls in order on the ring, with what each returns.
unfoldable pub run : ℕ → ℕ → EventQueue → List Call → List Reply
run depth slot_capacity q [] = []
run depth slot_capacity q (pushes c bytes ∷ cs) =
    let (r, q') = push depth slot_capacity q c bytes in pushed r ∷ run depth slot_capacity q' cs
run depth slot_capacity q (pops ∷ cs) =
    let (r, q') = pop depth q in popped r ∷ run depth slot_capacity q' cs
run depth slot_capacity q (asks ∷ cs) =
    told (size q) (is_empty q) (is_full depth q) (dropped q) ∷ run depth slot_capacity q cs

-- The four questions about the queue are answered as by the log.
tells :
    (depth : ℕ) (q : EventQueue)
    → let n = length (to_log depth q).events in
      told (size q) (is_empty q) (is_full depth q) (dropped q)
      ≡ told n (n == 0) (n == depth) (to_log depth q).lost
unfolding size is_empty is_full dropped
tells depth q = rw (length-entries q.slots depth q.tail q.count) refl

run-valid :
    (depth slot_capacity : ℕ) (cs : List Call) (q : EventQueue)
    → slot_capacity < u16_mod
    → IsValid depth q
    → run depth slot_capacity q cs ≡ run_log depth slot_capacity (to_log depth q) cs
unfolding run run_log
run-valid depth slot_capacity [] q small v = refl
run-valid depth slot_capacity (pushes c bytes ∷ cs) q small v =
    let (v', e) = push_refines depth slot_capacity q c bytes small v in
    rw (run-valid depth slot_capacity cs _ small v')
      (ap (λ (p : Bool × Log). pushed p.0 ∷ run_log depth slot_capacity p.1 cs) e)
run-valid depth slot_capacity (pops ∷ cs) q small v =
    let (v', e) = pop_refines depth q v in
    rw (run-valid depth slot_capacity cs _ small v')
      (ap (λ (p : Option Slot × Log). popped p.0 ∷ run_log depth slot_capacity p.1 cs) e)
run-valid depth slot_capacity (asks ∷ cs) q small v =
    λ i. tells depth q i ∷ run-valid depth slot_capacity cs q small v i

-- From the empty queue, of a slot capacity below 2 ^ 16, no sequence of pushes, pops and questions tells the ring
-- from the log that keeps the last `depth` events: the same events are refused as too long, the same events come
-- out in the same order, and at every moment the size, whether the queue is empty or full, and the number of
-- lost events, on 32 bits, are answered alike.
pub run_refines :
    (depth slot_capacity : ℕ) (cs : List Call)
    → 0 < depth
    → slot_capacity < u16_mod
    → run depth slot_capacity (empty depth) cs
      ≡ run_log depth slot_capacity (record { events = []; lost = 0 }) cs
unfolding empty
run_refines depth slot_capacity cs h small =
    run-valid depth slot_capacity cs (empty depth) small (empty-IsValid depth h)
