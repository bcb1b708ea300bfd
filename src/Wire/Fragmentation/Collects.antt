-- ===== src/Wire/Fragmentation/Collects.antt =====
-- A slot of wire/fragmentation.hpp while the fragments of one frame arrive, in any order.
use slop_sync.Base.{
  ℕ, suc, ◌+◌, ◌%◌, ◌≤◌, ◌<◌, ◌≡◌, refl, sym, ap, ◌∙◌, subst, ◌≢◌, ◌⊎◌, inl, inr, Bool, true, false,
  none, some, List, arith, ◌==◌, if◌then◌else◌, ltb-true, ltb-false, ==_true, ==_false, Bool-cases,
  length, take, write_at, length-write_at, take-write_at, test_bit, test_bit-zero,
}
use native.Mathlib.Decide.{ℕ_discrete}
use slop_sync.Util.Serial.{u16_mod}
use slop_sync.Wire.Fragmentation.{
  Slot, frag_flags, place_fragment, place_pending, fill_slot, max_slot_payload,
}
use slop_sync.Wire.Fragmentation.Emit.{slice, slice_length, length-slice}
use slop_sync.Wire.Fragmentation.Count.{mark, mark_other, count_below_none}
use slop_sync.Wire.Fragmentation.Placed.{
  Cut, Placed, placed, place_new, place_again, Placed_same, slot_start-le,
}

-- No full fragment has come: only the last may be there, and it waits for the unit size.
pub record Waiting (payload : List ℕ) (budget last : ℕ) (seen : ℕ → Bool) (s : Slot) : Type 0 where
  pub unit : s.unit_len ≡ 0
  pub sized : length s.content ≡ max_slot_payload
  pub room : length s.pending_last_bytes ≡ max_slot_payload
  pub mask : s.received_mask ≡ 0
  pub count : s.received_count ≡ 0
  pub full : (k : ℕ) → k < last → seen k ≡ false
  pub pending : s.have_pending_last ≡ seen last
  pub known :
      seen last ≡ true
      → (s.total_fragments ≡ suc last)
        × (s.last_frag_len ≡ slice_length budget (length payload) last)
        × (s.pending_last_index ≡ last)
        × (take s.pending_last_len s.pending_last_bytes ≡ slice budget payload last)
  pub unknown : seen last ≡ false → s.total_fragments ≡ 0

-- A full fragment has come, and what has come is in place.
pub record Placing (payload : List ℕ) (budget last : ℕ) (seen : ℕ → Bool) (s : Slot) : Type 0 where
  pub placed : Placed payload budget last seen s
  pub idle : s.have_pending_last ≡ false
  pub known :
      seen last ≡ true
      → (s.total_fragments ≡ suc last)
        × (s.last_frag_len ≡ slice_length budget (length payload) last)
  pub unknown : seen last ≡ false → s.total_fragments ≡ 0

abbrev pub Collects : List ℕ → ℕ → ℕ → (ℕ → Bool) → Slot → Type 0
Collects payload budget last seen s =
    Waiting payload budget last seen s ⊎ Placing payload budget last seen s

fill_slot-more :
    (s : Slot) (last j : ℕ) (piece : List ℕ)
    → j < last
    → fill_slot s (frag_flags (suc last) j) j piece
      ≡ elim (place_fragment
          (record s { unit_len = if s.unit_len == 0 then length piece % u16_mod else s.unit_len })
          j
          piece) [ none ↦ none | some s' ↦ place_pending s' ]
unfolding fill_slot frag_flags
fill_slot-more s last j piece h = elim (Bool-cases (j == 0)) [
  | inl e ↦ rw (e, ltb-true (j + 1) (suc last) (omega (arith, h))) refl
  | inr e ↦ rw (e, ltb-true (j + 1) (suc last) (omega (arith, h))) refl
]

last_flags : (last : ℕ) → 1 ≤ last → frag_flags (suc last) last ≡ 0
unfolding frag_flags
last_flags last h =
    rw (==_false last 0 (omega (arith, h)), ltb-false (last + 1) (suc last) (omega arith)) refl

place_pending_idle : (s : Slot) → s.have_pending_last ≡ false → place_pending s ≡ some s
unfolding place_pending
place_pending_idle s h = rw h refl

place_pending_waiting :
    (s s' : Slot) (last : ℕ) (piece : List ℕ)
    → s.have_pending_last ≡ true
    → s.unit_len ≢ 0
    → s.pending_last_index ≡ last
    → take s.pending_last_len s.pending_last_bytes ≡ piece
    → place_fragment s last piece ≡ some s'
    → place_pending s ≡ some (record s' { have_pending_last = false })
unfolding place_pending
place_pending_waiting s s' last piece h u i t e =
    let done : place_fragment s s.pending_last_index (take s.pending_last_len s.pending_last_bytes)
        ≡ some s' =
      (λ j. place_fragment s (i j) (t j)) ∙ e in
    simp (h, ==_false s.unit_len 0 u, done) refl

module _ (payload : List ℕ) (budget last : ℕ) (cut : Cut payload budget last) where
  full_length : (j : ℕ) → j < last → length (slice budget payload j) ≡ budget
  full_length j h =
      omega (arith, length-slice budget payload j, slot_start-le budget j last h, cut.more)

  -- A first full fragment tells the unit size.
  sized-Placed :
      (s : Slot) (seen : ℕ → Bool)
      → Waiting payload budget last seen s
      → Placed payload budget last (λ k. false) (record s { unit_len = budget })
  sized-Placed s seen v = record {
    unit = refl;
    sized = v.sized;
    mask = λ k l. ap (λ m. test_bit m k) v.mask ∙ test_bit-zero k;
    count = v.count ∙ sym (count_below_none (λ k. false) (suc last) (λ k l. refl));
    holds = λ k x l m i. absurd (cc m);
  }

  both :
      (seen : ℕ → Bool) (j k : ℕ)
      → seen last ≡ true
      → (last ≢ k → seen k ≡ false)
      → mark (mark (λ k. false) j) last k ≡ mark seen j k
  both seen j k e none_other = elim (ℕ_discrete last k) [
    | yes p ↦ ground (arith, ==_true last k p, sym (ap seen p) ∙ e)
    | no q ↦ rw (==_false last k q, none_other q) refl
  ]

  one :
      (seen : ℕ → Bool) (j k : ℕ)
      → (last ≢ k → seen k ≡ false)
      → seen last ≡ false
      → mark (λ k. false) j k ≡ mark seen j k
  one seen j k none_other e = elim (ℕ_discrete last k) [
    | yes p ↦ rw (sym (ap seen p) ∙ e) refl
    | no q ↦ rw (none_other q) refl
  ]

  fill-Waiting_more :
      (s : Slot) (seen : ℕ → Bool) (j : ℕ)
      → j < last
      → Waiting payload budget last seen s
      → (s' : Slot) × (fill_slot s (frag_flags (suc last) j) j (slice budget payload j) ≡ some s')
        × Placing payload budget last (mark seen j) s'
  fill-Waiting_more s seen j h v =
      let t = record s { unit_len = budget } in
      let piece = slice budget payload j in
      let told : (if s.unit_len == 0 then length piece % u16_mod else s.unit_len) ≡ budget =
        rw (==_true s.unit_len 0 v.unit) (omega (arith, full_length j h, cut.small)) in
      let first =
        place_new payload budget last cut (λ k. false) t (sized-Placed s seen v) j
          (omega (arith, h)) refl in
      let s1 = placed payload budget j t in
      let start : fill_slot s (frag_flags (suc last) j) j piece ≡ place_pending s1 =
        fill_slot-more s last j piece h ∙ rw (told, first.0) refl in
      let apart : j ≢ last = λ e. absurd (omega (arith, h, e)) in
      elim (Bool-cases (seen last)) [
        | inl e ↦
            let facts = v.known e in
            let second =
              place_new payload budget last cut (mark (λ k. false) j) s1 first.1 last (omega arith)
                (rw (==_false j last apart) refl) in
            let s2 = record (placed payload budget last s1) { have_pending_last = false } in
            (
              s2,
              start
                  ∙ place_pending_waiting s1 (placed payload budget last s1) last
                      (slice budget payload last) (v.pending ∙ e)
                      (λ z. absurd (omega (arith, z, cut.positive))) facts.2 facts.3 second.0,
              record {
                placed =
                    Placed_same payload budget last (mark (mark (λ k. false) j) last) (mark seen j)
                      (placed payload budget last s1) s2
                      (λ k l. both seen j k e (λ q. v.full k (omega (arith, l, q)))) refl refl refl
                      refl second.1;
                idle = refl;
                known = λ e'. (facts.0, facts.1);
                unknown = λ e'. absurd (cc (e', mark_other seen j last apart, e));
              },
            )
        | inr e ↦ (
          s1,
          start ∙ place_pending_idle s1 (v.pending ∙ e),
          record {
            placed =
                Placed_same payload budget last (mark (λ k. false) j) (mark seen j) s1 s1
                  (λ k l. one seen j k (λ q. v.full k (omega (arith, l, q))) e) refl refl refl refl
                  first.1;
            idle = v.pending ∙ e;
            known = λ e'. absurd (cc (sym e', mark_other seen j last apart, e));
            unknown = λ e'. v.unknown e;
          },
        )
      ]

  -- The last fragment comes first of all: it waits.
  fill-Waiting_last :
      (s : Slot) (seen : ℕ → Bool)
      → Waiting payload budget last seen s
      → (s' : Slot) × (fill_slot s (frag_flags (suc last) last) last (slice budget payload last)
          ≡ some s')
        × Waiting payload budget last (mark seen last) s'
  unfolding fill_slot
  fill-Waiting_last s seen v =
      let piece = slice budget payload last in
      let measured = length-slice budget payload last in
      let marked : mark seen last last ≡ true = rw (==_true last last refl) refl in
      let word : length piece % u16_mod ≡ length piece = omega (arith, measured, cut.small) in
      let s' = record s {
        total_fragments = (last + 1) % u16_mod;
        last_frag_len = length piece % u16_mod;
        pending_last_bytes = write_at 0 piece s.pending_last_bytes;
        pending_last_len = length piece % u16_mod;
        pending_last_index = last;
        have_pending_last = true;
      } in
      (
        s',
        simp
            (
              last_flags last cut.several,
              ==_true s.unit_len 0 v.unit,
              ltb-false (length s.pending_last_bytes) (length piece)
                  (omega (arith, v.room, measured, cut.small)),
            )
            refl,
        record {
          unit = v.unit;
          sized = v.sized;
          room = length-write_at 0 piece s.pending_last_bytes ∙ v.room;
          mask = v.mask;
          count = v.count;
          full = λ k l. mark_other seen last k (λ e. absurd (omega (arith, l, e))) ∙ v.full k l;
          pending = sym marked;
          known = λ e. (
            omega (arith, cut.few),
            word ∙ measured,
            refl,
            (λ i. take (word i) (write_at 0 piece s.pending_last_bytes))
                ∙ take-write_at piece s.pending_last_bytes
                    (omega (arith, v.room, measured, cut.small)),
          );
          unknown = λ e. absurd (cc (e, marked));
        },
      )

  place_any :
      (s : Slot) (seen : ℕ → Bool) (j : ℕ)
      → j < suc last
      → Placed payload budget last seen s
      → (s' : Slot) × (place_fragment s j (slice budget payload j) ≡ some s')
        × Placed payload budget last (mark seen j) s'
        × (s'.have_pending_last ≡ s.have_pending_last)
        × (s'.total_fragments ≡ s.total_fragments)
        × (s'.last_frag_len ≡ s.last_frag_len)
  place_any s seen j h v = elim (Bool-cases (seen j)) [
    | inl old ↦
        let r = place_again payload budget last cut seen s v j h old in
        (s, r.0, r.1, refl, refl, refl)
    | inr new ↦
        let r = place_new payload budget last cut seen s v j h new in
        (placed payload budget j s, r.0, r.1, refl, refl, refl)
  ]

  fill-Placing_more :
      (s : Slot) (seen : ℕ → Bool) (j : ℕ)
      → j < last
      → Placing payload budget last seen s
      → (s' : Slot) × (fill_slot s (frag_flags (suc last) j) j (slice budget payload j) ≡ some s')
        × Placing payload budget last (mark seen j) s'
  fill-Placing_more s seen j h v =
      let piece = slice budget payload j in
      let t = record s {
        unit_len = if s.unit_len == 0 then length piece % u16_mod else s.unit_len;
      } in
      let told : (if s.unit_len == 0 then length piece % u16_mod else s.unit_len) ≡ s.unit_len =
        rw (==_false s.unit_len 0 (λ e. absurd (omega (arith, e, v.placed.unit, cut.positive))))
          refl in
      let apart : j ≢ last = λ e. absurd (omega (arith, h, e)) in
      let (s', e, w, idle, total, len) = place_any t seen j (omega (arith, h)) (
        Placed_same payload budget last seen seen s t (λ k l. refl) told refl refl refl v.placed) in
      (
        s',
        fill_slot-more s last j piece h ∙ (rw e refl) ∙ place_pending_idle s' (idle ∙ v.idle),
        record {
          placed = w;
          idle = idle ∙ v.idle;
          known = λ q.
              let facts = v.known (sym (mark_other seen j last apart) ∙ q) in
              (total ∙ facts.0, len ∙ facts.1);
          unknown = λ q. total ∙ v.unknown (sym (mark_other seen j last apart) ∙ q);
        },
      )

  fill-Placing_last :
      (s : Slot) (seen : ℕ → Bool)
      → Placing payload budget last seen s
      → (s' : Slot) × (fill_slot s (frag_flags (suc last) last) last (slice budget payload last)
          ≡ some s')
        × Placing payload budget last (mark seen last) s'
  unfolding fill_slot
  fill-Placing_last s seen v =
      let piece = slice budget payload last in
      let measured = length-slice budget payload last in
      let marked : mark seen last last ≡ true = rw (==_true last last refl) refl in
      let t = record s {
        total_fragments = (last + 1) % u16_mod;
        last_frag_len = length piece % u16_mod;
      } in
      let (s', e, w, idle, total, len) = place_any t seen last (omega arith) (
        Placed_same payload budget last seen seen s t (λ k l. refl) refl refl refl refl v.placed) in
      (
        s',
        simp
            (
              last_flags last cut.several,
              ==_false s.unit_len 0 (λ e. absurd (omega (arith, e, v.placed.unit, cut.positive))),
            )
            e,
        record {
          placed = w;
          idle = idle ∙ v.idle;
          known = λ q. (omega (arith, total, cut.few), omega (arith, len, measured, cut.small));
          unknown = λ q. absurd (cc (q, marked));
        },
      )

  -- A fragment of the frame is always taken in.
  pub fill-Collects :
      (s : Slot) (seen : ℕ → Bool) (j : ℕ)
      → j < suc last
      → Collects payload budget last seen s
      → (s' : Slot) × (fill_slot s (frag_flags (suc last) j) j (slice budget payload j) ≡ some s')
        × Collects payload budget last (mark seen j) s'
  fill-Collects s seen j h v = elim (ℕ_discrete j last) [
    | yes p ↦
        subst
          (λ k.
            (s' : Slot) × (fill_slot s (frag_flags (suc last) k) k (slice budget payload k)
              ≡ some s')
            × Collects payload budget last (mark seen k) s')
          (sym p)
          (elim v [
            | inl w ↦ let (s', e, c) = fill-Waiting_last s seen w in (s', e, inl c)
            | inr w ↦ let (s', e, c) = fill-Placing_last s seen w in (s', e, inr c)
          ])
    | no q ↦
        let below : j < last = omega (arith, h, q) in
        elim v [
          | inl w ↦ let (s', e, c) = fill-Waiting_more s seen j below w in (s', e, inr c)
          | inr w ↦ let (s', e, c) = fill-Placing_more s seen j below w in (s', e, inr c)
        ]
  ]
