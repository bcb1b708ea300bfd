-- ===== src/Wire/Fragmentation/Deliver.antt =====
-- One fragment arrives at the reassembler of wire/fragmentation.hpp.
use slop_sync.Base.{
  ℕ, suc, ◌+◌, ◌/◌, ◌%◌, ◌^◌, ◌≤◌, ◌<◌, ◌≡◌, refl, sym, ap, ◌∙◌, subst, ◌⊎◌, inl, inr, Bool, true,
  false, ◌&&◌, none, some, List, ◌∷◌, arith, ◌==◌, ltb-false, leb-false, length, get_or, set, drop,
  length-replicate, get_or-set_self,
}
use slop_sync.Util.Serial.{u32_mod, time_reached, time_delta}
use slop_sync.Wire.Bytes.{get_u16, u16_bytes}
use slop_sync.Wire.FrameHeader.{FrameHeader}
use slop_sync.Wire.Fragmentation.{
  Slot, Reassembler, empty_slot, opened, is_for, find_slot, alloc_slot, slot_for, expire_one,
  fill_slot, check_complete, accept, accept_in, frag_flags, max_slot_payload, reassembly_timeout_ms,
}
use slop_sync.Wire.Fragmentation.Emit.{slice}
use slop_sync.Wire.Fragmentation.Count.{mark}
use slop_sync.Wire.Fragmentation.Placed.{Cut, Placed_same}
use slop_sync.Wire.Fragmentation.Collects.{Collects, fill-Collects}
use slop_sync.Wire.Fragmentation.Slots.{
  find_slot-found, find_slot-set, alloc_slot-opened, fill_slot-Keeps,
}

-- Slot `k` collects the frame of `header`, since less than the timeout after `t0`.
pub record Open (header : FrameHeader) (payload : List ℕ) (budget last t0 : ℕ) (seen : ℕ → Bool)
    (k : ℕ) (r : Reassembler) : Type 0 where
  pub found : find_slot r.slots header.type header.seq ≡ some k
  pub delay : ℕ
  pub short : delay < reassembly_timeout_ms
  pub started : (get_or r.slots k empty_slot).start_ms ≡ (t0 + delay) % u32_mod
  pub collects : Collects payload budget last seen (get_or r.slots k empty_slot)

-- Before the first fragment, or after it.
abbrev pub Ready : FrameHeader → List ℕ → ℕ → ℕ → ℕ → (ℕ → Bool) → Reassembler → Type 0
Ready header payload budget last t0 seen r =
    ((find_slot r.slots header.type header.seq ≡ none) × ((k : ℕ) → seen k ≡ false))
    ⊎ ((k : ℕ) × Open header payload budget last t0 seen k r)

in_time :
    (t0 d e : ℕ)
    → d < reassembly_timeout_ms
    → e < reassembly_timeout_ms
    → time_reached ((t0 + e) % u32_mod) (((t0 + d) % u32_mod + reassembly_timeout_ms) % u32_mod)
      ≡ false
unfolding time_reached time_delta
in_time t0 d e hd he = ground arith

expire_one_missing :
    (r : Reassembler) (type seq now : ℕ)
    → find_slot r.slots type seq ≡ none
    → expire_one r type seq now ≡ r
unfolding expire_one
expire_one_missing r type seq now h = rw (h, expire_one) refl

expire_one_open :
    (r : Reassembler) (type seq now k : ℕ)
    → find_slot r.slots type seq ≡ some k
    → time_reached now (((get_or r.slots k empty_slot).start_ms + reassembly_timeout_ms) % u32_mod)
      ≡ false
    → expire_one r type seq now ≡ r
unfolding expire_one
expire_one_open r type seq now k h e = rw (h, e, expire_one) refl

slot_for_missing :
    (r : Reassembler) (type seq now : ℕ)
    → find_slot r.slots type seq ≡ none
    → slot_for r type seq now ≡ alloc_slot r type seq now
unfolding slot_for
slot_for_missing r type seq now h = rw (h, slot_for) refl

slot_for_open :
    (r : Reassembler) (type seq now k : ℕ)
    → find_slot r.slots type seq ≡ some k
    → slot_for r type seq now ≡ (r, k)
unfolding slot_for
slot_for_open r type seq now k h = rw (h, slot_for) refl

-- The bytes of fragment `j` behind its header.
abbrev pub numbered : List ℕ → ℕ → ℕ → List ℕ
numbered payload budget j =
    j % 2 ^ 16 % 2 ^ 8 ∷ (j % 2 ^ 16 / 2 ^ 8 % 2 ^ 8 ∷ slice budget payload j)

numbered-get_u16 :
    (payload : List ℕ) (budget j : ℕ) → j < 32 → get_u16 (numbered payload budget j) ≡ j
unfolding get_u16
numbered-get_u16 payload budget j h =
    let word : j % 2 ^ 16 ≡ j = omega (arith, h) in u16_bytes (j % 2 ^ 16) (omega arith) ∙ word

accept_filled :
    (h : FrameHeader) (fp : List ℕ) (now : ℕ) (r found : Reassembler) (k j : ℕ) (s' : Slot)
    → 2 ≤ length fp
    → get_u16 fp ≡ j
    → j < 32
    → slot_for (expire_one r h.type h.seq now) h.type h.seq now ≡ (found, k)
    → fill_slot
        (record (get_or found.slots k empty_slot) { channel = h.channel })
        h.flags
        j
        (drop 2 fp)
      ≡ some s'
    → accept h fp now r ≡ check_complete (record found { slots = set found.slots k s' }) k
unfolding accept accept_in
accept_filled h fp now r found k j s' long index small eq filled =
    let gone : accept h fp now r ≡ accept_in h j (drop 2 fp) (found, k) =
      rw (ltb-false (length fp) 2 long, index, leb-false 32 j small, accept)
        (ap (accept_in h j (drop 2 fp)) eq) in
    gone ∙ rw (filled, accept_in) refl

is_for_same :
    (s t : Slot) (type seq : ℕ)
    → t.active ≡ s.active
    → t.type ≡ s.type
    → t.seq ≡ s.seq
    → is_for s type seq ≡ true
    → is_for t type seq ≡ true
is_for_same s t type seq a b c h = (λ i. a i && (b i == type) && (c i == seq)) ∙ h

is_for_whose :
    (s : Slot) (type seq : ℕ) → is_for s type seq ≡ true → (s.type ≡ type) × (s.seq ≡ seq)
is_for_whose s type seq h = ground (arith, h)

module _ (header : FrameHeader) (payload : List ℕ) (budget last t0 : ℕ)
    (cut : Cut payload budget last) (seen : ℕ → Bool) where
  opened-Collects :
      (now : ℕ)
      → ((k : ℕ) → seen k ≡ false)
      → Collects payload budget last seen (opened header.type header.seq now)
  opened-Collects now none_seen = inl (record {
    unit = refl;
    sized = length-replicate {A = ℕ} max_slot_payload 0;
    room = length-replicate {A = ℕ} max_slot_payload 0;
    mask = refl;
    count = refl;
    full = λ k l. none_seen k;
    pending = sym (none_seen last);
    known = λ e. absurd (cc (e, none_seen last));
    unknown = λ e. refl;
  })

  -- The slot that a fragment goes to, before it is filled.
  slot_of_message :
      (r : Reassembler) (e : ℕ)
      → 0 < length r.slots
      → e < reassembly_timeout_ms
      → Ready header payload budget last t0 seen r
      → (found : Reassembler) × (k : ℕ) × (slot_for
            (expire_one r header.type header.seq ((t0 + e) % u32_mod))
            header.type
            header.seq
            ((t0 + e) % u32_mod)
          ≡ (found, k))
        × Open header payload budget last t0 seen k found
  slot_of_message r e some_slots he v = elim v [
    | inl (missing, none_seen) ↦
        let now = (t0 + e) % u32_mod in
        let (found, k, eq, at, fresh) =
          alloc_slot-opened r header.type header.seq now some_slots missing in
        (
          found,
          k,
          ap (λ a. slot_for a header.type header.seq now)
                (expire_one_missing r header.type header.seq now missing)
              ∙ (slot_for_missing r header.type header.seq now missing ∙ eq),
          record {
            found = at;
            delay = e;
            short = he;
            started = ap (λ (s : Slot). s.start_ms) fresh;
            collects =
                subst (Collects payload budget last seen) (sym fresh)
                  (opened-Collects now none_seen);
          },
        )
    | inr (k, o) ↦
        let unexpired =
          ap (λ t. time_reached ((t0 + e) % u32_mod) ((t + reassembly_timeout_ms) % u32_mod))
            o.started
          ∙ in_time t0 o.delay e o.short he in
        (
          r,
          k,
          ap (λ a. slot_for a header.type header.seq ((t0 + e) % u32_mod))
                (expire_one_open r header.type header.seq ((t0 + e) % u32_mod) k o.found unexpired)
              ∙ slot_for_open r header.type header.seq ((t0 + e) % u32_mod) k o.found,
          o,
        )
  ]

  with_channel :
      (s : Slot) (channel : ℕ)
      → Collects payload budget last seen s
      → Collects payload budget last seen (record s { channel = channel })
  with_channel s channel v = elim v [
    | inl w ↦ inl (record {
      unit = w.unit;
      sized = w.sized;
      room = w.room;
      mask = w.mask;
      count = w.count;
      full = w.full;
      pending = w.pending;
      known = w.known;
      unknown = w.unknown;
    })
    | inr w ↦ inr (record {
      placed =
          Placed_same payload budget last seen seen s (record s { channel = channel }) (λ k l. refl)
            refl refl refl refl w.placed;
      idle = w.idle;
      known = w.known;
      unknown = w.unknown;
    })
  ]

  -- A fragment is taken into its slot, and then the slot is looked at.
  pub accept_one :
      (r : Reassembler) (j e len : ℕ)
      → 0 < length r.slots
      → e < reassembly_timeout_ms
      → j < suc last
      → Ready header payload budget last t0 seen r
      → (r' : Reassembler) × (k : ℕ) × (accept
            (record header { flags = frag_flags (suc last) j; len = len })
            (numbered payload budget j)
            ((t0 + e) % u32_mod)
            r
          ≡ check_complete r' k)
        × Open header payload budget last t0 (mark seen j) k r'
        × ((get_or r'.slots k empty_slot).type ≡ header.type)
        × ((get_or r'.slots k empty_slot).channel ≡ header.channel)
        × ((get_or r'.slots k empty_slot).seq ≡ header.seq)
  accept_one r j e len some_slots he hj v =
      let (found, k, eq, o) = slot_of_message r e some_slots he v in
      let s = record (get_or found.slots k empty_slot) { channel = header.channel } in
      let (s', filled, c) =
        fill-Collects payload budget last cut s seen j hj
          (with_channel (get_or found.slots k empty_slot) header.channel o.collects) in
      let (room, mine) = find_slot-found found.slots header.type header.seq k o.found in
      let whose = is_for_whose (get_or found.slots k empty_slot) header.type header.seq mine in
      let kept = fill_slot-Keeps s s' (frag_flags (suc last) j) j (slice budget payload j) filled in
      let back = get_or-set_self found.slots k s' empty_slot room in
      let r' = record found { slots = set found.slots k s' } in
      (
        r',
        k,
        accept_filled (record header { flags = frag_flags (suc last) j; len = len })
            (numbered payload budget j) ((t0 + e) % u32_mod) r found k j s' (omega arith)
            (numbered-get_u16 payload budget j (omega (arith, hj, cut.few)))
            (omega (arith, hj, cut.few)) eq filled,
        record {
          found = find_slot-set found.slots header.type header.seq k s' o.found (
              is_for_same (get_or found.slots k empty_slot) s' header.type header.seq kept.active
                kept.type kept.seq mine);
          delay = o.delay;
          short = o.short;
          started = ap (λ (t : Slot). t.start_ms) back ∙ (kept.start_ms ∙ o.started);
          collects = subst (Collects payload budget last (mark seen j)) (sym back) c;
        },
        ap (λ (t : Slot). t.type) back ∙ (kept.type ∙ whose.0),
        ap (λ (t : Slot). t.channel) back ∙ kept.channel,
        ap (λ (t : Slot). t.seq) back ∙ (kept.seq ∙ whose.1),
      )
