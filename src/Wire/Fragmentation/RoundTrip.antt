-- ===== src/Wire/Fragmentation/RoundTrip.antt =====
-- Fragments of wire/fragmentation.hpp and the frame that they come from.
use slop_sync.Base.{
  ℕ, suc, ◌+◌, ◌-◌, ◌*◌, ◌%◌, ◌^◌, ◌≤◌, ◌<◌, ◌≡◌, refl, ap, ◌∙◌, subst, ◌≢◌, inl, inr, Bool, true,
  false, ◌&&◌, Option, none, some, List, [], ◌∷◌, ◌++◌, arith, ltb, leb, ◌==◌, if◌then◌else◌,
  leb-false, ==_true, ==_false, Bool-cases, length, get_or, drop, replicate, All,
}
use native.Mathlib.Nat.{mul-le-mul_right, suc-mul, div-add-mod', mod-lt}
use native.Mathlib.Decide.{dec_le, ℕ_discrete}
use slop_sync.Wire.Estop.{estop_frame_bytes, has_magic}
use slop_sync.Result.{Result, ok}
use slop_sync.Util.Serial.{u16_mod, u32_mod}
use slop_sync.Wire.FrameHeader.{FrameHeader, header_bytes, decode_frame_header, IsWord}
use slop_sync.Wire.FrameBuffer.{FrameBuffer, frame_buffer_capacity, bytes}
use slop_sync.Wire.Fragmentation.{
  Reassembler, find_slot, frag_flags, num_fragments, fragments_from, fragment_frame, accept,
  max_fragments, max_slot_payload, frag_index_bytes, reassembly_timeout_ms,
}
use slop_sync.Wire.Fragmentation.Image.{header_image, decode_frame_header-image}
use slop_sync.Wire.Fragmentation.Emit.{
  slice_length, fragment_header, fragment_bytes, all_fragments, fragments_from-all,
  length-all_fragments, get_or-all_fragments,
}
use slop_sync.Wire.Fragmentation.Count.{mark}
use slop_sync.Wire.Fragmentation.Placed.{Cut}
use slop_sync.Wire.Fragmentation.Complete.{check_complete_early, check_complete_whole}
use slop_sync.Wire.Fragmentation.Slots.{find_slot-found}
use slop_sync.Wire.Fragmentation.Deliver.{Ready, numbered, accept_one}

-- The bytes of a frame.
unfoldable pub frame_bytes : FrameHeader → List ℕ → List ℕ
frame_bytes header payload = header_image header ++ payload

-- Where a frame is cut, what is emitted are its fragments.
pub fragment_frame-fragments :
    (header : FrameHeader) (payload : List ℕ) (max_bytes : ℕ) (frags : List (List ℕ))
    → IsWord header
    → max_bytes < header_bytes + length payload
    → fragment_frame (frame_bytes header payload) max_bytes ≡ some frags
    → (budget : ℕ) × (max_bytes ≡ 10 + budget)
      × (0 < budget)
      × (budget ≤ 502)
      × (frags
          ≡ all_fragments header payload budget
              (num_fragments budget (length payload))
              0
              (num_fragments budget (length payload)))
unfolding fragment_frame frame_bytes header_image
fragment_frame-fragments header payload max_bytes frags w long h =
    let budget = max_bytes - header_bytes - frag_index_bytes in
    let decoded = decode_frame_header-image header payload w in
    let frame = frame_bytes header payload in
    let n = num_fragments budget (length payload) in
    let emitted = fragments_from header payload budget n 0 n (replicate frame_buffer_capacity 0) in
    let uncut = leb-false (length frame) max_bytes (omega (arith, long)) in
    elim (Bool-cases (ltb frame_buffer_capacity max_bytes)) [
      | inl e ↦
          let refused : fragment_frame frame max_bytes ≡ none = rw (e, fragment_frame) refl in
          absurd (cc (refused, h))
      | inr e ↦ elim (Bool-cases (length frame == estop_frame_bytes && has_magic frame)) [
        | inl g ↦
            let refused : fragment_frame frame max_bytes ≡ none =
              rw (e, uncut, g, fragment_frame) refl in
            absurd (cc (refused, h))
        | inr g ↦ elim (Bool-cases (leb max_bytes 10)) [
          | inl f ↦
              let refused : fragment_frame frame max_bytes ≡ none =
                rw (e, uncut, g, decoded, f, fragment_frame) refl in
              absurd (cc (refused, h))
          | inr f ↦
              let done : fragment_frame frame max_bytes ≡ some emitted =
                rw (e, uncut, g, decoded, f, fragment_frame) refl in
              (
                budget,
                ground (arith, f),
                ground (arith, f),
                ground (arith, e),
                cc (
                  done,
                  h,
                  fragments_from-all header payload budget n 0 n (replicate frame_buffer_capacity 0)
                      refl (ground (arith, e)),
                ),
              )
        ]
      ]
    ]

cut_lem :
    (payload : List ℕ) (budget : ℕ)
    → 0 < budget
    → budget ≤ 502
    → budget < length payload
    → length payload ≤ 504
    → num_fragments budget (length payload) ≤ 32
    → (last : ℕ) × (num_fragments budget (length payload) ≡ suc last) × Cut payload budget last
cut_lem payload budget positive small long fits few =
    let n = num_fragments budget (length payload) in
    let split : n * budget + (length payload + budget - 1) % budget ≡ length payload + budget - 1 =
      div-add-mod' (length payload + budget - 1) budget in
    let rest : (length payload + budget - 1) % budget < budget =
      mod-lt (length payload + budget - 1) positive in
    let two : 2 ≤ n = elim (dec_le 2 n) [
      | yes p ↦ p
      | no q ↦ absurd (
          omega
            (arith, split, rest, long, mul-le-mul_right {m = n} {n = 1} budget (omega (arith, q))))
    ] in
    let before : n ≡ suc (n - 1) = omega (arith, two) in
    let product : n * budget ≡ (n - 1) * budget + budget =
      ap (λ k. k * budget) before ∙ suc-mul (n - 1) budget in
    (
      n - 1,
      before,
      record {
        positive = positive;
        small = small;
        several = omega (arith, two);
        few = omega (arith, two, few);
        more = omega (arith, split, product, rest);
        enough = omega (arith, split, product, rest);
        fits = fits;
      },
    )

-- The caller of the reassembler takes the header off a fragment.
unfoldable pub receive : ℕ → List ℕ → Reassembler → Reassembler × Result (Option FrameBuffer)
receive now fragment r = elim (decode_frame_header fragment) [
  | none ↦ (r, ok none)
  | some header ↦ accept header (drop header_bytes fragment) now r
]

-- Fragments arrive, each given by its index and its delay after the time `t0`; the answers in order.
unfoldable pub receive_all :
    List (List ℕ)
    → ℕ
    → List (ℕ × ℕ)
    → Reassembler
    → Reassembler × List (Result (Option FrameBuffer))
receive_all frags t0 [] r = (r, [])
receive_all frags t0 ((j, d) ∷ order) r =
    let step = receive ((t0 + d) % u32_mod) (get_or frags j []) r in
    let rest = receive_all frags t0 order step.0 in (rest.0, step.1 ∷ rest.1)

unfoldable pub arrives : ℕ → List (ℕ × ℕ) → Bool
arrives k [] = false
arrives k ((j, d) ∷ order) = if j == k then true else arrives k order

seen_after : (ℕ → Bool) → List (ℕ × ℕ) → ℕ → Bool
seen_after seen [] = seen
seen_after seen ((j, d) ∷ order) = seen_after (mark seen j) order

seen_after-arrives :
    (seen : ℕ → Bool) (order : List (ℕ × ℕ)) (k : ℕ)
    → seen_after seen order k ≡ (if arrives k order then true else seen k)
unfolding seen_after arrives
seen_after-arrives seen [] k = refl
seen_after-arrives seen ((j, d) ∷ order) k =
    ground (arith, seen_after-arrives (mark seen j) order k)

frag_flags-bound : (n i : ℕ) → frag_flags n i < 2 ^ 8
unfolding frag_flags
frag_flags-bound n i = elim (Bool-cases (i == 0)) [
  | inl e ↦ elim (Bool-cases (ltb (i + 1) n)) [
    | inl f ↦ rw (e, f) (omega arith)
    | inr f ↦ rw (e, f) (omega arith)
  ]
  | inr e ↦ elim (Bool-cases (ltb (i + 1) n)) [
    | inl f ↦ rw (e, f) (omega arith)
    | inr f ↦ rw (e, f) (omega arith)
  ]
]

earlier :
    (seen : ℕ → Bool) (order : List (ℕ × ℕ)) (k : ℕ)
    → seen_after seen order k ≡ false
    → seen k ≡ false
earlier seen order k h = ground (arith, h, seen_after-arrives seen order k)

module _ (header : FrameHeader) (payload : List ℕ) (budget last t0 : ℕ) (w : IsWord header)
    (cut : Cut payload budget last) (frags : List (List ℕ))
    (are_fragments : frags ≡ all_fragments header payload budget (suc last) 0 (suc last)) where
  receive_lem :
      (j e : ℕ) (r : Reassembler)
      → j < suc last
      → receive ((t0 + e) % u32_mod) (get_or frags j []) r
        ≡ accept
            (record header {
              flags = frag_flags (suc last) j;
              len = (2 + slice_length budget (length payload) j) % u16_mod;
            })
            (numbered payload budget j)
            ((t0 + e) % u32_mod)
            r
  unfolding receive fragment_bytes fragment_header header_image
  receive_lem j e r hj =
      let fh = fragment_header header budget (length payload) (suc last) j in
      let bytes_eq : get_or frags j [] ≡ header_image fh ++ numbered payload budget j =
        ap (λ l. get_or l j []) are_fragments
        ∙ (get_or-all_fragments header payload budget (suc last) 0 (suc last) j hj
            ∙ ap (fragment_bytes header payload budget (suc last)) (omega arith)) in
      let word : IsWord fh = record {
        type = w.type;
        flags = frag_flags-bound (suc last) j;
        channel = w.channel;
        seq = w.seq;
        len = omega arith;
      } in
      ap (λ b. receive ((t0 + e) % u32_mod) b r) bytes_eq
      ∙ rw (decode_frame_header-image fh (numbered payload budget j) word, receive) refl

  -- As long as a fragment is missing, the answer is that the frame is not complete.
  receive_early :
      (seen : ℕ → Bool) (r : Reassembler) (j e k : ℕ)
      → 0 < length r.slots
      → Ready header payload budget last t0 seen r
      → j < suc last
      → e < reassembly_timeout_ms
      → k < suc last
      → mark seen j k ≡ false
      → (r' : Reassembler) × (receive ((t0 + e) % u32_mod) (get_or frags j []) r ≡ (r', ok none))
        × (0 < length r'.slots)
        × Ready header payload budget last t0 (mark seen j) r'
  receive_early seen r j e k some_slots v hj he hk missing =
      let (r', slot, eq, o, type, channel, seq) =
        accept_one header payload budget last t0 cut seen r j e
          ((2 + slice_length budget (length payload) j) % u16_mod) some_slots he hj v in
      (
        r',
        receive_lem j e r hj
            ∙ (eq
                ∙ check_complete_early payload budget last cut (mark seen j) r' slot k o.collects hk
                    missing),
        omega (arith, (find_slot-found r'.slots header.type header.seq slot o.found).0),
        inr (slot, o),
      )

  -- The fragment that was missing completes the frame.
  receive_last :
      (seen : ℕ → Bool) (r : Reassembler) (j e : ℕ)
      → 0 < length r.slots
      → Ready header payload budget last t0 seen r
      → j < suc last
      → e < reassembly_timeout_ms
      → ((k : ℕ) → k < suc last → mark seen j k ≡ true)
      → (frame : FrameBuffer) × ((receive ((t0 + e) % u32_mod) (get_or frags j []) r).1
          ≡ ok (some frame))
        × (bytes frame
            ≡ frame_bytes (record header { flags = 0; len = length payload % u16_mod }) payload)
  unfolding frame_bytes
  receive_last seen r j e some_slots v hj he all =
      let (r', slot, eq, o, type, channel, seq) =
        accept_one header payload budget last t0 cut seen r j e
          ((2 + slice_length budget (length payload) j) % u16_mod) some_slots he hj v in
      let (frame, answer, cleared, content) =
        check_complete_whole payload budget last cut (mark seen j) r' slot o.collects all in
      (
        frame,
        ap (λ (p : Reassembler × Result (Option FrameBuffer)). p.1) (receive_lem j e r hj ∙ eq)
            ∙ answer,
        content ∙ (λ i.
            header_image (record {
              type = type i;
              flags = 0;
              channel = channel i;
              seq = seq i;
              len = length payload % u16_mod;
            })
            ++ payload),
      )

  receive_all_early :
      (order : List (ℕ × ℕ)) (seen : ℕ → Bool) (r : Reassembler) (k : ℕ)
      → 0 < length r.slots
      → Ready header payload budget last t0 seen r
      → All (λ (p : ℕ × ℕ). (p.0 < suc last) × (p.1 < reassembly_timeout_ms)) order
      → k < suc last
      → seen_after seen order k ≡ false
      → ((receive_all frags t0 order r).1 ≡ replicate (length order) (ok none))
        × (0 < length (receive_all frags t0 order r).0.slots)
        × Ready header payload budget last t0
            (seen_after seen order)
            (receive_all frags t0 order r).0
  unfolding receive_all seen_after
  receive_all_early [] seen r k some_slots v valid hk missing = (refl, some_slots, v)
  receive_all_early ((j, d) ∷ order) seen r k some_slots v valid hk missing =
      let (r', eq, some_slots', v') =
        receive_early seen r j d k some_slots v valid.0.0 valid.0.1 hk
          (earlier (mark seen j) order k missing) in
      rw (eq, receive_all)
        (let rest = receive_all_early order (mark seen j) r' k some_slots' v' valid.1 hk missing in
          (ap (◌∷◌ (ok none)) rest.0, rest.1, rest.2))

-- An oversized frame of at most 504 payload bytes that was cut into at most 32 fragments: let the fragments
-- arrive in any order, some of them repeatedly, all less than 5 s after a common time, at a reassembler with
-- room for a message and no slot for this one. Until the last missing fragment every answer is "not yet
-- complete"; with it the answer is a frame, the one that was cut, with the flags cleared and the length that
-- of its payload.
pub receive-fragment_frame :
    (header : FrameHeader) (payload : List ℕ) (max_bytes t0 : ℕ) (frags : List (List ℕ))
    (r : Reassembler) (order : List (ℕ × ℕ)) (i d : ℕ)
    → IsWord header
    → length payload ≤ max_slot_payload
    → max_bytes < header_bytes + length payload
    → fragment_frame (frame_bytes header payload) max_bytes ≡ some frags
    → length frags ≤ max_fragments
    → 0 < length r.slots
    → find_slot r.slots header.type header.seq ≡ none
    → All (λ (p : ℕ × ℕ). (p.0 < length frags) × (p.1 < reassembly_timeout_ms)) order
    → i < length frags
    → d < reassembly_timeout_ms
    → arrives i order ≡ false
    → ((k : ℕ) → k < length frags → i ≢ k → arrives k order ≡ true)
    → ((receive_all frags t0 order r).1 ≡ replicate (length order) (ok none))
      × (frame : FrameBuffer) × ((receive
            ((t0 + d) % u32_mod)
            (get_or frags i [])
            (receive_all frags t0 order r).0).1
          ≡ ok (some frame))
      × (bytes frame ≡ frame_bytes (record header { flags = 0; len = length payload }) payload)
receive-fragment_frame header payload max_bytes t0 frags r order i d w fits long cutting few
      some_slots unopened valid hi hd missing others =
    let (budget, sum, positive, small, emitted) =
      fragment_frame-fragments header payload max_bytes frags w long cutting in
    let n = num_fragments budget (length payload) in
    let count : length frags ≡ n =
      ap length emitted ∙ length-all_fragments header payload budget n 0 n in
    let (last, size, cut) =
      cut_lem payload budget positive small (omega (arith, sum, long)) fits
        (omega (arith, count, few)) in
    let are_fragments : frags ≡ all_fragments header payload budget (suc last) 0 (suc last) =
      emitted ∙ ap (λ m. all_fragments header payload budget m 0 m) size in
    let total : length frags ≡ suc last = count ∙ size in
    let nothing : ℕ → Bool = λ k. false in
    let seen = seen_after nothing order in
    let absent : seen i ≡ false = seen_after-arrives nothing order i ∙ rw missing refl in
    let (answers, some_slots', ready) =
      receive_all_early header payload budget last t0 w cut frags are_fragments order nothing r i
        some_slots (inl (unopened, λ k. refl))
        (subst (λ m. All (λ (p : ℕ × ℕ). (p.0 < m) × (p.1 < reassembly_timeout_ms)) order) total
          valid)
        (omega (arith, hi, total)) absent in
    let all : (k : ℕ) → k < suc last → mark seen i k ≡ true = λ k l. elim (ℕ_discrete i k) [
      | yes p ↦ rw (==_true i k p) refl
      | no q ↦
          rw (==_false i k q)
            (seen_after-arrives nothing order k ∙ rw (others k (omega (arith, l, total)) q) refl)
    ] in
    let (frame, answer, content) =
      receive_last header payload budget last t0 w cut frags are_fragments seen
        (receive_all frags t0 order r).0 i d some_slots' ready (omega (arith, hi, total)) hd all in
    let word : length payload % u16_mod ≡ length payload = omega (arith, fits) in
    (
      answers,
      frame,
      answer,
      content ∙ ap (λ n. frame_bytes (record header { flags = 0; len = n }) payload) word,
    )
