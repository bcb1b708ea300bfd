-- ===== src/Wire/Fragmentation/Placed.antt =====
-- A slot of wire/fragmentation.hpp whose unit size is known holds the slices that it has received.
use slop_sync.Base.{
  ℕ, suc, ◌+◌, ◌-◌, ◌*◌, ◌/◌, ◌%◌, ◌^◌, ◌≤◌, ◌<◌, bit_or, ◌≡◌, refl, sym, ap, ◌∙◌, subst, ◌≢◌, ◌⊎◌,
  inl, inr, Bool, true, false, some, List, arith, ◌==◌, if◌then◌else◌, ltb-false, ==_true, ==_false,
  length, get_or, take, drop, length-take, list_ext, write_at, length-write_at, get_or-write_at,
  get_or-take, get_or-drop, test_bit, test_bit-bit_or_pow,
}
use native.Mathlib.Nat.{
  mul-le-mul_right, suc-mul, div-add-mod, mod-lt, lt_of_mul-lt-mul_right, mul_comm,
}
use native.Mathlib.Decide.{ℕ_discrete, dec_lt}
use slop_sync.Wire.Fragmentation.{Slot, max_slot_payload, place_fragment}
use slop_sync.Util.Serial.{u16_mod}
use slop_sync.Wire.Fragmentation.Emit.{slice_length, slice, length-slice}
use slop_sync.Wire.Fragmentation.Count.{
  count_below, mark, count_below-mark, count_below-le, count_below_ext,
}

-- `last + 1` fragments of `budget` bytes, all full but the last.
pub record Cut (payload : List ℕ) (budget last : ℕ) : Type 0 where
  pub positive : 0 < budget
  pub small : budget ≤ 502
  pub several : 1 ≤ last
  pub few : last < 32
  pub more : last * budget < length payload
  pub enough : length payload ≤ last * budget + budget
  pub fits : length payload ≤ max_slot_payload

pub slot_start-le : (budget i j : ℕ) → i < j → i * budget + budget ≤ j * budget
slot_start-le budget i j h =
    let step = suc-mul i budget in omega (arith, step, mul-le-mul_right budget h)

pub record Placed (payload : List ℕ) (budget last : ℕ) (seen : ℕ → Bool) (s : Slot) : Type 0 where
  pub unit : s.unit_len ≡ budget
  pub sized : length s.content ≡ max_slot_payload
  pub mask : (k : ℕ) → k < suc last → test_bit s.received_mask k ≡ seen k
  pub count : s.received_count ≡ count_below seen (suc last)
  pub holds :
      (k x : ℕ)
      → k < suc last
      → seen k ≡ true
      → x < slice_length budget (length payload) k
      → get_or s.content (k * budget + x) 0 ≡ get_or payload (k * budget + x) 0

-- The slot after slice `j` was copied in.
abbrev pub placed : List ℕ → ℕ → ℕ → Slot → Slot
placed payload budget j s = record s {
  content = write_at (j * s.unit_len) (slice budget payload j) s.content;
  received_mask = bit_or s.received_mask (2 ^ j);
  received_count = (s.received_count + 1) % u16_mod;
}

module _ (payload : List ℕ) (budget last : ℕ) (cut : Cut payload budget last) (seen : ℕ → Bool)
    (s : Slot) (v : Placed payload budget last seen s) where
  pub slice_fits :
      (j : ℕ) → j < suc last → j * budget + slice_length budget (length payload) j ≤ length payload
  slice_fits j h = elim (ℕ_discrete j last) [
    | yes p ↦ omega (arith, cut.more, cut.enough, ap (λ k. k * budget) p)
    | no q ↦ omega (arith, cut.more, slot_start-le budget j last (omega (arith, h, q)))
  ]

  get_or-slice :
      (j x : ℕ)
      → x < slice_length budget (length payload) j
      → get_or (slice budget payload j) x 0 ≡ get_or payload (j * budget + x) 0
  unfolding slice
  get_or-slice j x h =
      get_or-take (slice_length budget (length payload) j) x (drop (j * budget) payload) 0 h
      ∙ get_or-drop (j * budget) x payload 0

  holds_new :
      (j x : ℕ)
      → j < suc last
      → x < slice_length budget (length payload) j
      → get_or (write_at (j * budget) (slice budget payload j) s.content) (j * budget + x) 0
        ≡ get_or payload (j * budget + x) 0
  holds_new j x h l =
      let e : j * budget + x - j * budget ≡ x = omega arith in
      ground (
        arith,
        ap (λ t. get_or (slice budget payload j) t 0) e ∙ get_or-slice j x l,
        length-slice budget payload j,
        get_or-write_at (j * budget) (slice budget payload j) s.content (j * budget + x) 0
            (omega (arith, slice_fits j h, cut.fits, v.sized)),
      )

  holds_old :
      (j k x : ℕ)
      → j ≢ k
      → k < suc last
      → x < slice_length budget (length payload) k
      → get_or (write_at (j * budget) (slice budget payload j) s.content) (k * budget + x) 0
        ≡ get_or s.content (k * budget + x) 0
  holds_old j k x n h l =
      let apart : (k * budget + x < j * budget) ⊎ (j * budget + budget ≤ k * budget + x) =
        elim (dec_lt j k) [
          | yes p ↦ inr (omega (arith, slot_start-le budget j k p))
          | no q ↦ inl (omega (arith, l, slot_start-le budget k j (omega (arith, n, q))))
        ] in
      ground (
        arith,
        apart,
        length-slice budget payload j,
        get_or-write_at (j * budget) (slice budget payload j) s.content (k * budget + x) 0
            (omega (arith, slice_fits k h, cut.fits, v.sized, l)),
      )

  seen_before : (j k : ℕ) → j ≢ k → mark seen j k ≡ seen k
  seen_before j k n = rw (==_false j k n) refl

  -- A fragment that is new.
  pub place_new :
      (j : ℕ)
      → j < suc last
      → seen j ≡ false
      → (place_fragment s j (slice budget payload j) ≡ some (placed payload budget j s))
        × Placed payload budget last (mark seen j) (placed payload budget j s)
  unfolding place_fragment
  place_new j h e = (
    rw (v.mask j h ∙ e) (
        rw
          (ltb-false (length s.content) (j * s.unit_len + length (slice budget payload j)) (
            omega (
              arith,
              v.sized,
              ap (λ u. j * u) v.unit,
              length-slice budget payload j,
              slice_fits j h,
              cut.fits,
            )))
          refl),
    record {
      unit = v.unit;
      sized = length-write_at (j * s.unit_len) (slice budget payload j) s.content ∙ v.sized;
      mask = λ k l.
          test_bit-bit_or_pow j k s.received_mask
          ∙ ap (λ b. if j == k then true else b) (v.mask k l);
      count = omega (
        arith,
        v.count,
        count_below-mark seen j (suc last) h e,
        count_below-le seen (suc last),
        cut.few,
      );
      holds = λ k x l m i. elim (ℕ_discrete j k) [
        | yes p ↦
            ap
              (λ u. get_or (write_at (j * u) (slice budget payload j) s.content) (k * budget + x) 0)
              v.unit
            ∙ subst
                (λ t.
                  x < slice_length budget (length payload) t
                  → get_or (write_at (j * budget) (slice budget payload j) s.content)
                      (t * budget + x) 0
                    ≡ get_or payload (t * budget + x) 0)
                p (holds_new j x h) i
        | no q ↦
            ap
              (λ u. get_or (write_at (j * u) (slice budget payload j) s.content) (k * budget + x) 0)
              v.unit
            ∙ (holds_old j k x q l i ∙ v.holds k x l (sym (seen_before j k q) ∙ m) i)
      ];
    },
  )

  -- A fragment that was there before.
  pub place_again :
      (j : ℕ)
      → j < suc last
      → seen j ≡ true
      → (place_fragment s j (slice budget payload j) ≡ some s)
        × Placed payload budget last (mark seen j) s
  unfolding place_fragment
  place_again j h e =
      let same : (k : ℕ) → mark seen j k ≡ seen k = λ k. elim (ℕ_discrete j k) [
        | yes p ↦ rw (==_true j k p) (sym e ∙ ap seen p)
        | no q ↦ seen_before j k q
      ] in
      (
        rw (v.mask j h ∙ e) refl,
        record {
          unit = v.unit;
          sized = v.sized;
          mask = λ k l. v.mask k l ∙ sym (same k);
          count = v.count ∙ sym (count_below_ext (mark seen j) seen (suc last) (λ k l. same k));
          holds = λ k x l m i. v.holds k x l (sym (same k) ∙ m) i;
        },
      )

  -- All the fragments make up the payload.
  pub content_whole :
      ((k : ℕ) → k < suc last → seen k ≡ true) → take (length payload) s.content ≡ payload
  content_whole all =
      list_ext (take (length payload) s.content) payload 0
        (omega (arith, length-take (length payload) s.content, v.sized, cut.fits))
        (λ y h.
          let bound : y < length payload =
            omega (arith, h, length-take (length payload) s.content) in
          let split : y / budget * budget + y % budget ≡ y =
            omega (arith, div-add-mod y budget, mul_comm budget (y / budget)) in
          let k_lt : y / budget < suc last =
            lt_of_mul-lt-mul_right budget
              (omega (arith, split, bound, cut.enough, suc-mul last budget)) in
          let rest_lt : y % budget < budget = mod-lt y cut.positive in
          get_or-take (length payload) y s.content 0 bound
          ∙ subst (λ t. get_or s.content t 0 ≡ get_or payload t 0) split
              (v.holds (y / budget) (y % budget) k_lt (all (y / budget) k_lt)
                (omega (arith, split, bound, rest_lt))))

-- What `Placed` says of a slot depends on four of its fields, and on which indices below the count are in.
pub Placed_same :
    (payload : List ℕ) (budget last : ℕ) (f g : ℕ → Bool) (s t : Slot)
    → ((k : ℕ) → k < suc last → f k ≡ g k)
    → t.unit_len ≡ s.unit_len
    → t.content ≡ s.content
    → t.received_mask ≡ s.received_mask
    → t.received_count ≡ s.received_count
    → Placed payload budget last f s
    → Placed payload budget last g t
Placed_same payload budget last f g s t same unit content mask count v = record {
  unit = unit ∙ v.unit;
  sized = ap length content ∙ v.sized;
  mask = λ k l. ap (λ m. test_bit m k) mask ∙ (v.mask k l ∙ same k l);
  count = count ∙ (v.count ∙ count_below_ext f g (suc last) same);
  holds =
      λ k x l m i. ap (λ c. get_or c (k * budget + x) 0) content ∙ v.holds k x l (same k l ∙ m) i;
}
