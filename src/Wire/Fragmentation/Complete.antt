-- ===== src/Wire/Fragmentation/Complete.antt =====
-- When a slot of wire/fragmentation.hpp is complete, and the frame that it gives.
use slop_sync.Base.{
  ℕ, suc, ◌+◌, ◌-◌, ◌*◌, ◌%◌, ◌≤◌, ◌<◌, ◌≡◌, refl, ap, ◌∙◌, ◌≢◌, inl, inr, Bool, true, false, not,
  ◌||◌, none, some, List, ◌++◌, arith, ◌==◌, ltb-false, leb-true, Bool-cases, length, get_or, set,
  take, replicate, write_at, take-write_at, write_at-append, take_more-append,
}
use slop_sync.Result.{ok}
use slop_sync.Util.Serial.{u16_mod}
use slop_sync.Wire.FrameHeader.{FrameHeader}
use slop_sync.Wire.FrameBuffer.{FrameBuffer, bytes, set_size}
use slop_sync.Wire.Fragmentation.{
  Slot, Reassembler, empty_slot, assembled_frame, check_complete, max_slot_payload,
}
use slop_sync.Wire.Fragmentation.Image.{header_image, encode_frame_header-image}
use slop_sync.Wire.Fragmentation.Count.{count_below_full, count_below-lt}
use slop_sync.Wire.Fragmentation.Placed.{Cut, content_whole}
use slop_sync.Wire.Fragmentation.Collects.{Collects}

abbrev pub whole_header : Slot → ℕ → FrameHeader
whole_header s n = record {
  type = s.type;
  flags = 0;
  channel = s.channel;
  seq = s.seq;
  len = n % u16_mod;
}

assembled_frame-bytes :
    (s : Slot) (payload : List ℕ)
    → length payload ≤ max_slot_payload
    → take (length payload) s.content ≡ payload
    → bytes (assembled_frame s (length payload))
      ≡ header_image (whole_header s (length payload)) ++ payload
unfolding assembled_frame bytes set_size header_image
assembled_frame-bytes s payload fits whole =
    let image = header_image (whole_header s (length payload)) in
    let zeros = replicate {A = ℕ} 504 0 in
    let written =
      encode_frame_header-image (whole_header s (length payload)) (replicate 512 0) (omega arith) in
    rw
      (
        assembled_frame,
        bytes,
        set_size,
        written,
        whole,
        leb-true (8 + length payload) 512 (omega (arith, fits)),
      )
      (ap (take (8 + length payload)) (write_at-append image payload zeros)
        ∙ (take_more-append (length payload) image (write_at 0 payload zeros)
            ∙ ap (◌++◌ image) (take-write_at payload zeros (omega (arith, fits)))))

-- A slot that lacks a fragment is not complete.
pub check_complete_early :
    (payload : List ℕ) (budget last : ℕ)
    → Cut payload budget last
    → (seen : ℕ → Bool) (r : Reassembler) (k j : ℕ)
    → Collects payload budget last seen (get_or r.slots k empty_slot)
    → j < suc last
    → seen j ≡ false
    → check_complete r k ≡ (r, ok none)
unfolding check_complete
check_complete_early payload budget last cut seen r k j v h e =
    let s = get_or r.slots k empty_slot in
    let undone : (s.total_fragments == 0 || not (s.received_count == s.total_fragments)) ≡ true =
      elim (Bool-cases (seen last)) [
        | inl there ↦
            let differ : s.received_count ≢ s.total_fragments = elim v [
              | inl w ↦ λ p. absurd (omega (arith, p, w.count, (w.known there).0))
              | inr w ↦ λ p. absurd (
                  omega (
                    arith,
                    p,
                    w.placed.count,
                    (w.known there).0,
                    count_below-lt seen (suc last) j h e,
                  ))
            ] in
            ground (arith, differ)
        | inr missing ↦
            let none_known : s.total_fragments ≡ 0 = elim v [
              | inl w ↦ w.unknown missing
              | inr w ↦ w.unknown missing
            ] in
            ground (arith, none_known)
      ] in
    rw undone refl

-- A slot that has every fragment gives the frame, and is cleared.
pub check_complete_whole :
    (payload : List ℕ) (budget last : ℕ)
    → Cut payload budget last
    → (seen : ℕ → Bool) (r : Reassembler) (k : ℕ)
    → Collects payload budget last seen (get_or r.slots k empty_slot)
    → ((j : ℕ) → j < suc last → seen j ≡ true)
    → (frame : FrameBuffer) × ((check_complete r k).1 ≡ ok (some frame))
      × ((check_complete r k).0.slots ≡ set r.slots k empty_slot)
      × (bytes frame
          ≡ header_image (whole_header (get_or r.slots k empty_slot) (length payload)) ++ payload)
unfolding check_complete
check_complete_whole payload budget last cut seen r k v all =
    let s = get_or r.slots k empty_slot in
    elim v [
      | inl w ↦ absurd (cc (w.full 0 (omega (arith, cut.several)), all 0 (omega arith)))
      | inr w ↦
          let facts = w.known (all last (omega arith)) in
          let counted : s.received_count ≡ suc last =
            w.placed.count ∙ count_below_full seen (suc last) all in
          let done : (s.total_fragments == 0 || not (s.received_count == s.total_fragments))
              ≡ false =
            ground (arith, facts.0, counted) in
          let before : s.total_fragments - 1 ≡ last = omega (arith, facts.0) in
          let total : (s.total_fragments - 1) * s.unit_len + s.last_frag_len ≡ length payload =
            (λ i. before i * w.placed.unit i + facts.1 i) ∙ omega (arith, cut.more, cut.enough) in
          rw (check_complete, done, total, ltb-false max_slot_payload (length payload) cut.fits)
            (
              assembled_frame s (length payload),
              refl,
              refl,
              assembled_frame-bytes s payload cut.fits
                  (content_whole payload budget last cut seen s w.placed all),
            )
    ]
