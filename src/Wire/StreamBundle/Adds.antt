-- ===== src/Wire/StreamBundle/Adds.antt =====
-- What the writer of wire/stream_bundle.hpp has laid out after some samples.
use slop_sync.Base.{
  ℕ, suc, ◌+◌, ◌-◌, ◌*◌, ◌%◌, ◌^◌, ◌≤◌, ◌<◌, ◌≡◌, sym, ap, ◌∙◌, subst, inl, inr, true, false, not,
  some, List, [], ◌∷◌, ◌++◌, arith, ltb, leb, ◌==◌, if◌then◌else◌, Bool-cases, length, get_or, set,
  take, drop, All, length-append, length-set, get_or-set_self, write_at, drop_all-append,
  take_front-append, drop-drop, write_at-nil,
}
use native.Mathlib.Nat.{suc-mul}
use slop_sync.Wire.Bytes.{at_offset, put_u8, put_u16}
use slop_sync.Util.Serial.{u8_mod}
use slop_sync.Wire.StreamBundle.{
  BundleWriter, make_room, add_sample, bundle_max_samples, bundle_max_span_ms,
}
use slop_sync.Wire.StreamBundle.Layout.{
  Sample, offsets, contents, front, walk, length-offsets, offsets-append, contents-append,
  length-contents, walk-append, empty, layout_lem, front_size,
}

pub record Lays (t_base size : ℕ) (samples : List Sample) (count : ℕ) (rest : List ℕ) (last : ℕ)
    (w : BundleWriter) : Type 0 where
  pub valid : w.valid ≡ true
  pub base : w.t_base ≡ t_base
  pub sized : w.sample_size ≡ size
  pub number : w.n ≡ length samples
  pub few : length samples ≤ bundle_max_samples
  pub counted : 0 < length samples → count ≡ length samples
  pub laid : w.out ≡ front t_base count ++ (offsets samples ++ (contents samples ++ rest))
  pub ascends : walk 0 samples 0 ≡ some last
  pub latest : 0 < length samples → get_or w.t_offs (length samples - 1) 0 ≡ last
  pub offs : length w.t_offs ≡ bundle_max_samples
  pub span : last ≤ bundle_max_span_ms * 1000

moved_lem :
    (t_base size : ℕ) (samples : List Sample) (count : ℕ) (rest : List ℕ) (last : ℕ)
    (w : BundleWriter)
    → Lays t_base size samples count rest last w
    → All (λ (s : Sample). length s.1 ≡ size) samples
    → make_room w (6 + 2 * w.n) (6 + 2 * w.n + 2)
      ≡ write_at
          (length (front t_base count) + length (offsets samples) + 2)
          (contents samples)
          (front t_base count ++ (offsets samples ++ (contents samples ++ rest)))
unfolding make_room front
moved_lem t_base size samples count rest last w v even =
    let start : 6 + 2 * w.n ≡ 6 + length (offsets samples) =
      omega (arith, v.number, length-offsets samples) in
    let block : w.n * w.sample_size ≡ length (contents samples) =
      (λ i. v.number i * v.sized i) ∙ sym (length-contents size samples even) in
    let ahead : drop (6 + 2 * w.n) w.out ≡ contents samples ++ rest =
      (λ i. drop (start i) (v.laid i))
      ∙ (drop-drop 6 (length (offsets samples))
            (front t_base count ++ (offsets samples ++ (contents samples ++ rest)))
          ∙ drop_all-append (offsets samples) (contents samples ++ rest)) in
    let taken : take (w.n * w.sample_size) (drop (6 + 2 * w.n) w.out) ≡ contents samples =
      (λ i. take (block i) (ahead i)) ∙ take_front-append (contents samples) rest in
    let place : 6 + 2 * w.n + 2 ≡ length (front t_base count) + length (offsets samples) + 2 =
      omega (arith, start) in
    elim (Bool-cases (ltb 0 w.n)) [
      | inl e ↦ rw (e, make_room) (λ i. write_at (place i) (taken i) (v.laid i))
      | inr e ↦
          let none_there : contents samples ≡ [] = empty samples (ground (arith, e, v.number)) in
          rw (e, make_room)
            (v.laid
              ∙ sym (
                  ap
                    (λ d.
                      write_at (length (front t_base count) + length (offsets samples) + 2) d
                        (front t_base count ++ (offsets samples ++ (contents samples ++ rest))))
                    none_there
                  ∙ write_at-nil (length (front t_base count) + length (offsets samples) + 2)
                      (front t_base count ++ (offsets samples ++ (contents samples ++ rest)))))
    ]

next_number : (n : ℕ) → n + 1 ≡ suc n
next_number n = omega arith

counted_front :
    (t_base count n : ℕ) (l : List ℕ)
    → n < 2 ^ 8
    → at_offset 4 (put_u8 n) (front t_base count ++ l) ≡ front t_base n ++ l
unfolding at_offset put_u8 front
counted_front t_base count n l h =
    let word : n % 2 ^ 8 ≡ n = omega (arith, h) in λ i. front t_base (word i) ++ l

counted_after :
    (t_base count n m : ℕ) (filled body : List ℕ)
    → filled ≡ front t_base count ++ body
    → m ≡ n
    → n < 2 ^ 8
    → at_offset 4 (put_u8 m) filled ≡ front t_base n ++ body
counted_after t_base count n m filled body whole number small =
    (λ i. at_offset 4 (put_u8 (number i)) (whole i)) ∙ counted_front t_base count n body small

-- The bytes before the count is written, and the writer, after a sample is taken in.
abbrev filled : BundleWriter → ℕ → List ℕ → List ℕ
filled w t s =
    write_at (6 + 2 * w.n + 2 + w.n * w.sample_size) s
      (at_offset (6 + 2 * w.n) (put_u16 t) (make_room w (6 + 2 * w.n) (6 + 2 * w.n + 2)))

abbrev next : BundleWriter → ℕ → List ℕ → BundleWriter
next w t s = record w {
  out = at_offset 4 (put_u8 ((w.n + 1) % u8_mod)) (filled w t s);
  n = (w.n + 1) % u8_mod;
  t_offs = set w.t_offs w.n t;
}

-- What has been checked of a sample that is taken in.
record Taken (w w' : BundleWriter) (t : ℕ) (s : List ℕ) : Type 0 where
  sized : length s ≡ w.sample_size
  below : w.n < bundle_max_samples
  span : t ≤ bundle_max_span_ms * 1000
  room : 6 + 2 * w.n + 2 + (w.n + 1) * w.sample_size ≤ length w.out
  ordered : (if w.n == 0 then not (t == 0) else leb t (get_or w.t_offs (w.n - 1) 0)) ≡ false
  reached : next w t s ≡ w'

add_sample-Taken :
    (w w' : BundleWriter) (t : ℕ) (s : List ℕ)
    → w.valid ≡ true
    → add_sample w t s ≡ some w'
    → Taken w w' t s
unfolding add_sample
add_sample-Taken w w' t s v h = record {
  sized = ground (arith, h, v);
  below = ground (arith, h, v);
  span = ground (arith, h, v);
  room = ground (arith, h, v);
  ordered = ground (arith, h, v);
  reached = ground (arith, h, v);
}

fits_behind :
    (t_base size : ℕ) (samples : List Sample) (count : ℕ) (rest : List ℕ) (last : ℕ)
    (w w' : BundleWriter) (t : ℕ) (s : List ℕ)
    → Lays t_base size samples count rest last w
    → w.n * w.sample_size ≡ length (contents samples)
    → Taken w w' t s
    → 2 + length s ≤ length rest
fits_behind t_base size samples count rest last w w' t s v block taken =
    let head = front t_base count in
    let offs = offsets samples in
    let datas = contents samples in
    let grown : (w.n + 1) * w.sample_size ≡ w.n * w.sample_size + w.sample_size =
      ap (λ k. k * w.sample_size) (next_number w.n) ∙ suc-mul w.n w.sample_size in
    omega (
      arith,
      ap length v.laid,
      length-append head (offs ++ (datas ++ rest)),
      length-append offs (datas ++ rest),
      length-append datas rest,
      length-offsets samples,
      front_size t_base count 0,
      grown,
      block,
      v.number,
      taken.room,
      taken.sized,
    )

filled_lem :
    (t_base size : ℕ) (samples : List Sample) (count : ℕ) (rest : List ℕ) (last : ℕ)
    (w w' : BundleWriter) (t : ℕ) (s : List ℕ)
    → Lays t_base size samples count rest last w
    → All (λ (s : Sample). length s.1 ≡ size) samples
    → Taken w w' t s
    → (rest' : List ℕ) × (filled w t s
        ≡ front t_base count
          ++ (offsets (samples ++ ((t, s) ∷ [])) ++ (contents (samples ++ ((t, s) ∷ [])) ++ rest')))
filled_lem t_base size samples count rest last w w' t s v even taken =
    let head = front t_base count in
    let start : 6 + 2 * w.n ≡ length head + length (offsets samples) =
      omega (arith, v.number, length-offsets samples, front_size t_base count 0) in
    let block : w.n * w.sample_size ≡ length (contents samples) =
      (λ i. v.number i * v.sized i) ∙ sym (length-contents size samples even) in
    let (rest', laid) =
      layout_lem head (offsets samples) (contents samples) rest s t
        (fits_behind t_base size samples count rest last w w' t s v block taken) in
    (
      rest',
      (λ i. write_at (start i + 2 + block i) s (
            at_offset (start i) (put_u16 t)
              (moved_lem t_base size samples count rest last w v even i)))
          ∙ (laid ∙ (λ i.
              head
              ++ (sym (offsets-append samples t s) i
                  ++ (sym (contents-append samples t s) i ++ rest')))),
    )

-- A sample that is taken in is laid out behind the others.
pub add_sample-Lays :
    (t_base size : ℕ) (samples : List Sample) (count : ℕ) (rest : List ℕ) (last : ℕ)
    (w w' : BundleWriter) (t : ℕ) (s : List ℕ)
    → Lays t_base size samples count rest last w
    → All (λ (s : Sample). length s.1 ≡ size) samples
    → add_sample w t s ≡ some w'
    → (length s ≡ size)
      × (rest' : List ℕ) × Lays t_base size
          (samples ++ ((t, s) ∷ []))
          (length samples + 1)
          rest'
          t
          w'
add_sample-Lays t_base size samples count rest last w w' t s v even h =
    let all = samples ++ ((t, s) ∷ []) in
    let taken = add_sample-Taken w w' t s v.valid h in
    let (rest', laid) = filled_lem t_base size samples count rest last w w' t s v even taken in
    let longer : length all ≡ length samples + 1 = length-append samples ((t, s) ∷ []) in
    let number : (w.n + 1) % u8_mod ≡ length samples + 1 = omega (arith, taken.below, v.number) in
    let last_index : length all - 1 ≡ w.n = omega (arith, longer, v.number) in
    let test : (if 0 + length samples == 0 then not (t == 0) else leb t last) ≡ false =
      ground (arith, taken.ordered, v.number, v.latest) in
    (
      taken.sized ∙ v.sized,
      rest',
      subst (Lays t_base size all (length samples + 1) rest' t) taken.reached (record {
        valid = v.valid;
        base = v.base;
        sized = v.sized;
        number = number ∙ sym longer;
        few = omega (arith, longer, taken.below, v.number);
        counted = λ _. sym longer;
        laid =
            counted_after t_base count (length samples + 1) ((w.n + 1) % u8_mod) (filled w t s)
              (offsets all ++ (contents all ++ rest')) laid number
              (omega (arith, taken.below, v.number));
        ascends = walk-append 0 0 last t s samples v.ascends test;
        latest = λ _.
            ap (λ k. get_or (set w.t_offs w.n t) k 0) last_index
            ∙ get_or-set_self w.t_offs w.n t 0 (omega (arith, taken.below, v.offs));
        offs = length-set w.t_offs w.n t ∙ v.offs;
        span = taken.span;
      }),
    )
