-- ===== src/Wire/Raw/AckTracker/Laws.antt =====
-- wire/raw/ackmask.hpp: what the acknowledgement window says after a number is recorded.
use slop_sync.Base.{
  ℕ, ◌+◌, ◌-◌, ◌/◌, ◌%◌, ◌^◌, ◌<◌, ◌≤◌, ◌≡◌, refl, sym, ap, ◌∙◌, Bool, true, false, not, ◌&&◌,
  bit_or, arith, ltb, leb, ◌==◌, if◌then◌else◌, Bool-cases, test_bit, test_bit-bit_or_pow,
  test_bit-zero, test_bit-shift, test_bit-high, inl, inr,
}
use slop_sync.Util.Serial.{u16_mod, sub16, seq_is_newer}
use slop_sync.Wire.Raw.{AckMask}
use slop_sync.Wire.Raw.AckTracker.{record_seq, ack_mask_window}

abbrev window : ℕ → ℕ → AckMask
window base mask = record { base_seq = base; mask = mask }

-- A number is acknowledged where it lies in the window and its bit is set.
unfoldable pub acked : AckMask → ℕ → Bool
acked t k = ltb (sub16 k t.base_seq) ack_mask_window && test_bit t.mask (sub16 k t.base_seq)

-- The numbers that `record` drops.
unfoldable pub stale : AckMask → ℕ → Bool
stale t seq = not (seq == t.base_seq) && not (seq_is_newer seq t.base_seq)

fresh_near : (t : AckMask) (seq : ℕ) → stale t seq ≡ false → sub16 seq t.base_seq < 2 ^ 15
unfolding stale seq_is_newer
fresh_near t seq h = ground (arith, h)

-- Within the window a bit is set.
within_acked :
    (base mask seq k : ℕ)
    → base < u16_mod
    → seq < u16_mod
    → k < u16_mod
    → sub16 seq base < ack_mask_window
    → acked (record { base_seq = base; mask = bit_or mask (2 ^ sub16 seq base) }) k
      ≡ (if k == seq then true else acked (record { base_seq = base; mask = mask }) k)
unfolding acked
within_acked base mask seq k hb hs hk near =
    let bits = test_bit-bit_or_pow (sub16 seq base) (sub16 k base) mask in
    elim (Bool-cases (k == seq)) [
      | inl e ↦ ground (arith, bits, near, e)
      | inr e ↦
          let apart : (sub16 seq base == sub16 k base) ≡ false = ground (arith, e, hb, hs, hk) in
          rw (e, bits, apart) refl
    ]

-- What is left of the bits when the window slides.
unfoldable slid : ℕ → ℕ → ℕ
slid mask shift = if leb ack_mask_window shift then 0 else mask / 2 ^ shift

test_bit-slid :
    (mask shift i : ℕ) → mask < 2 ^ 32 → test_bit (slid mask shift) i ≡ test_bit mask (shift + i)
unfolding slid
test_bit-slid mask shift i h = elim (Bool-cases (leb ack_mask_window shift)) [
  | inl e ↦
      let far : 32 ≤ shift + i = ground (arith, e) in
      rw e (test_bit-zero i ∙ sym (test_bit-high 32 (shift + i) mask h far))
  | inr e ↦ rw e (test_bit-shift shift i mask)
]

acked-slid :
    (base mask shift k : ℕ)
    → base < u16_mod
    → k < u16_mod
    → mask < 2 ^ 32
    → shift < 2 ^ 15
    → let slid_base = (base + shift) % u16_mod in
      acked (record { base_seq = slid_base; mask = slid mask shift }) k ≡ (
        ltb (sub16 k slid_base) ack_mask_window
        && acked (record { base_seq = base; mask = mask }) k)
unfolding acked
acked-slid base mask shift k hb hk hm hs =
    let i = sub16 k ((base + shift) % u16_mod) in
    elim (Bool-cases (ltb i ack_mask_window)) [
      | inl e ↦
          let place : sub16 k base ≡ shift + i = ground (arith, e, hb, hk, hs) in
          let bits = test_bit-slid mask shift i hm in
          elim (Bool-cases (ltb (sub16 k base) ack_mask_window)) [
            | inl f ↦ rw (e, f, bits) (ap (test_bit mask) (sym place))
            | inr f ↦
                let far : 32 ≤ shift + i = ground (arith, f, place) in
                rw (e, f, bits) (test_bit-high 32 (shift + i) mask hm far)
          ]
      | inr e ↦ rw e refl
    ]

-- The base after a number that is not stale.
unfoldable pub next_base : AckMask → ℕ → ℕ
next_base t seq =
    let offset = sub16 seq t.base_seq in
    if leb ack_mask_window offset
    then (t.base_seq + (offset - ack_mask_window + 1)) % u16_mod
    else t.base_seq

next_near :
    (t : AckMask) (seq : ℕ)
    → t.base_seq < u16_mod
    → seq < u16_mod
    → sub16 seq (next_base t seq) < ack_mask_window
unfolding next_base
next_near t seq hb hs = ground (arith, hb, hs)

stale_kept : (t : AckMask) (seq : ℕ) → stale t seq ≡ true → record_seq t seq ≡ t
unfolding stale record_seq
stale_kept t seq e = rw e refl

fresh_within :
    (t : AckMask) (seq : ℕ)
    → stale t seq ≡ false
    → leb ack_mask_window (sub16 seq t.base_seq) ≡ false
    → record_seq t seq
      ≡ record { base_seq = t.base_seq; mask = bit_or t.mask (2 ^ sub16 seq t.base_seq) }
unfolding stale record_seq
fresh_within t seq e f = rw (e, f) refl

fresh_slides :
    (t : AckMask) (seq : ℕ)
    → stale t seq ≡ false
    → leb ack_mask_window (sub16 seq t.base_seq) ≡ true
    → let shift = sub16 seq t.base_seq - ack_mask_window + 1 in
      record_seq t seq ≡ record {
        base_seq = (t.base_seq + shift) % u16_mod;
        mask = bit_or (slid t.mask shift) (2 ^ 31);
      }
unfolding stale record_seq slid
fresh_slides t seq e f = rw (e, f) refl

in_window :
    (t : AckMask) (k : ℕ) → acked t k ≡ (ltb (sub16 k t.base_seq) ack_mask_window && acked t k)
unfolding acked
in_window t k = ground arith

fresh_acked :
    (t : AckMask) (seq k : ℕ)
    → t.base_seq < u16_mod
    → t.mask < 2 ^ 32
    → seq < u16_mod
    → k < u16_mod
    → stale t seq ≡ false
    → acked (record_seq t seq) k
      ≡ (if k == seq then true else ltb (sub16 k (next_base t seq)) ack_mask_window && acked t k)
unfolding next_base
fresh_acked t seq k hb hm hs hk e =
    let offset = sub16 seq t.base_seq in
    let near = fresh_near t seq e in
    elim (Bool-cases (leb ack_mask_window offset)) [
      | inl f ↦
          let shift = offset - ack_mask_window + 1 in
          let base = (t.base_seq + shift) % u16_mod in
          let last : sub16 seq base ≡ 31 = ground (arith, f, hb, hs) in
          let top : window base (bit_or (slid t.mask shift) (2 ^ 31))
              ≡ window base (bit_or (slid t.mask shift) (2 ^ sub16 seq base)) =
            λ i. window base (bit_or (slid t.mask shift) (2 ^ sym last i)) in
          let base_small : base < u16_mod = omega arith in
          let seq_inside : sub16 seq base < ack_mask_window = omega (arith, last) in
          let kept = acked-slid t.base_seq t.mask shift k hb hk hm (omega (arith, near)) in
          rw f (
            ap (λ u. acked u k) (fresh_slides t seq e f ∙ top)
            ∙ (within_acked base (slid t.mask shift) seq k base_small hs hk seq_inside
                ∙ ap (λ b. if k == seq then true else b) kept))
      | inr f ↦
          let inside : offset < 32 = ground (arith, f) in
          rw f (
            ap (λ u. acked u k) (fresh_within t seq e f)
            ∙ (within_acked t.base_seq t.mask seq k hb hs hk inside
                ∙ ap (λ b. if k == seq then true else b) (in_window t k)))
    ]

-- On uint16_t numbers and a mask of 32 bits: after a number `seq` that is stale every number is as
-- acknowledged as before. After one that is not, `seq` is acknowledged, and any other number just if it was
-- and is still in the window. The window from the next base on has room for `seq`.
pub acked-record_seq :
    (t : AckMask) (seq k : ℕ)
    → t.base_seq < u16_mod
    → t.mask < 2 ^ 32
    → seq < u16_mod
    → k < u16_mod
    → (acked (record_seq t seq) k ≡ (
        if stale t seq
        then acked t k
        else if k == seq
        then true
        else ltb (sub16 k (next_base t seq)) ack_mask_window && acked t k))
      × (sub16 seq (next_base t seq) < ack_mask_window)
acked-record_seq t seq k hb hm hs hk = elim (Bool-cases (stale t seq)) [
  | inl e ↦ (rw e (ap (λ u. acked u k) (stale_kept t seq e)), next_near t seq hb hs)
  | inr e ↦ (rw e (fresh_acked t seq k hb hm hs hk e), next_near t seq hb hs)
]
