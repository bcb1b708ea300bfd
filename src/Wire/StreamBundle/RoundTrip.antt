-- ===== src/Wire/StreamBundle/RoundTrip.antt =====
-- wire/stream_bundle.hpp: a bundle that is written sample by sample is read back.
use slop_sync.Base.{
  ℕ, ◌+◌, ◌*◌, ◌%◌, ◌^◌, ◌≤◌, ◌<◌, ◌≡◌, refl, sym, ap, ◌∙◌, subst, inl, inr, true, false, Option,
  none, some, List, [], ◌∷◌, ◌++◌, append-nil, append_assoc, arith, leb, leb-true, Bool-cases,
  Option-cases, length, take, All, length-append, take_front-append,
}
use slop_sync.Wire.Bytes.{at_offset, put_u8, put_u32, Split, split}
use slop_sync.Result.{ok}
use slop_sync.Util.Serial.{u32_mod}
use slop_sync.Wire.StreamBundle.{
  BundleWriter, BundleView, new_bundle, add_sample, finalize, parse, sample_time_us, sample,
}
use slop_sync.Wire.StreamBundle.Layout.{Sample, offsets, contents, front, walk}
use slop_sync.Wire.StreamBundle.Adds.{Lays, add_sample-Lays}
use slop_sync.Wire.StreamBundle.Image.{image, length-image, parse-image, time_lem, sample_lem}

-- A caller that adds samples until one is refused.
unfoldable pub add_all : BundleWriter → List Sample → Option BundleWriter
add_all w [] = some w
add_all w ((t, s) ∷ samples) = elim (add_sample w t s) [
  | none ↦ none
  | some next ↦ add_all next samples
]

unfoldable pub Laid : ℕ → ℕ → List Sample → BundleWriter → Type 0
Laid t_base size samples w =
    All (λ (s : Sample). length s.1 ≡ size) samples
    × (count : ℕ) × (rest : List ℕ) × (last : ℕ) × Lays t_base size samples count rest last w

new_bundle-Laid :
    (out : List ℕ) (t_base size : ℕ)
    → 6 ≤ length out
    → Laid t_base size [] (new_bundle out t_base size)
unfolding Laid new_bundle Split at_offset put_u8 put_u32 front offsets contents walk
new_bundle-Laid out t_base size h =
    split 6 (λ l. 6 ≤ length l → Laid t_base size [] (new_bundle l t_base size))
      (λ a b c d e f rest fits.
        let has : leb 6 (length (a ∷ (b ∷ (c ∷ (d ∷ (e ∷ (f ∷ rest))))))) ≡ true =
          leb-true 6 (length (a ∷ (b ∷ (c ∷ (d ∷ (e ∷ (f ∷ rest))))))) fits in
        (
          tt,
          e,
          rest,
          0,
          record {
            valid = has;
            base = refl;
            sized = refl;
            number = refl;
            few = omega arith;
            counted = λ empty. absurd (omega (arith, empty));
            laid = rw has refl;
            ascends = refl;
            latest = λ empty. absurd (omega (arith, empty));
            offs = refl;
            span = omega arith;
          },
        ))
      out h h

All-append : (P : Sample → Type 0) (xs ys : List Sample) → All P xs → All P ys → All P (xs ++ ys)
All-append P [] ys h k = k
All-append P (x ∷ xs) ys h k = (h.0, All-append P xs ys h.1 k)

add_sample-Laid :
    (t_base size : ℕ) (samples : List Sample) (w w' : BundleWriter) (t : ℕ) (s : List ℕ)
    → Laid t_base size samples w
    → add_sample w t s ≡ some w'
    → Laid t_base size (samples ++ ((t, s) ∷ [])) w'
unfolding Laid
add_sample-Laid t_base size samples w w' t s (even, count, rest, last, v) h =
    let (fits, rest', next) =
      add_sample-Lays t_base size samples count rest last w w' t s v even h in
    (
      All-append (λ (s : Sample). length s.1 ≡ size) samples ((t, s) ∷ []) even (fits, tt),
      length samples + 1,
      rest',
      t,
      next,
    )

add_all-Laid :
    (t_base size : ℕ) (more samples : List Sample) (w w' : BundleWriter)
    → Laid t_base size samples w
    → add_all w more ≡ some w'
    → Laid t_base size (samples ++ more) w'
unfolding add_all
add_all-Laid t_base size [] samples w w' v h =
    let same : w ≡ w' = cc h in
    subst (Laid t_base size (samples ++ [])) same
      (subst (λ l. Laid t_base size l w) (sym (append-nil samples)) v)
add_all-Laid t_base size ((t, s) ∷ more) samples w w' v h = elim (Option-cases (add_sample w t s)) [
  | inl e ↦
      let stops : add_all w ((t, s) ∷ more) ≡ none = rw (e, add_all) refl in absurd (cc (stops, h))
  | inr (next, e) ↦
      let goes : add_all w ((t, s) ∷ more) ≡ add_all next more = rw (e, add_all) refl in
      subst (λ l. Laid t_base size l w') (append_assoc samples ((t, s) ∷ []) more)
        (add_all-Laid t_base size more (samples ++ ((t, s) ∷ [])) next w'
          (add_sample-Laid t_base size samples w next t s v e) (sym goes ∙ h))
]

-- The bytes that are laid out are the image, and as many as `finalize` says.
Lays-image :
    (t_base size : ℕ) (samples : List Sample) (count : ℕ) (rest : List ℕ) (last : ℕ)
    (w : BundleWriter)
    → Lays t_base size samples count rest last w
    → All (λ (s : Sample). length s.1 ≡ size) samples
    → 0 < length samples
    → take (finalize w) w.out ≡ image t_base samples
unfolding finalize image
Lays-image t_base size samples count rest last w v even some_there =
    let regrouped : w.out
        ≡ (front t_base (length samples) ++ (offsets samples ++ contents samples)) ++ rest =
      v.laid
      ∙ (ap (λ n. front t_base n ++ (offsets samples ++ (contents samples ++ rest)))
            (v.counted some_there)
          ∙ sym (
              append_assoc (front t_base (length samples)) (offsets samples ++ contents samples)
                rest
              ∙ ap (◌++◌ (front t_base (length samples)))
                  (append_assoc (offsets samples) (contents samples) rest))) in
    let whole = length-image t_base size samples even in
    let sized : w.n * w.sample_size ≡ length samples * size = λ i. v.number i * v.sized i in
    let counted : finalize w
        ≡ length (front t_base (length samples) ++ (offsets samples ++ contents samples)) =
      rw (v.valid, sized) (omega (arith, whole, v.number)) in
    (λ i. take (counted i) (regrouped i))
    ∙ take_front-append (front t_base (length samples) ++ (offsets samples ++ contents samples))
        rest

add_sample-invalid :
    (w : BundleWriter) (t : ℕ) (s : List ℕ) → w.valid ≡ false → add_sample w t s ≡ none
unfolding add_sample
add_sample-invalid w t s h = ground (arith, h)

add_all-valid :
    (w w' : BundleWriter) (samples : List Sample)
    → 0 < length samples
    → add_all w samples ≡ some w'
    → w.valid ≡ true
unfolding add_all
add_all-valid w w' [] h e = absurd (omega (arith, h))
add_all-valid w w' ((t, s) ∷ samples) h e = elim (Bool-cases w.valid) [
  | inl e_valid ↦ e_valid
  | inr e_not ↦
      let stops : add_all w ((t, s) ∷ samples) ≡ none =
        rw (add_sample-invalid w t s e_not, add_all) refl in
      absurd (cc (stops, e))
]

new_bundle-valid :
    (out : List ℕ) (t_base size : ℕ) → (new_bundle out t_base size).valid ≡ true → 6 ≤ length out
unfolding new_bundle
new_bundle-valid out t_base size h = ground (arith, h)

-- Where a caller's samples were all taken into a bundle that was begun in any bytes, the bytes up to the
-- finalized size parse for samples of that size: the view has the time base and the number of samples, and at
-- the place of each sample its time, on 32 bits, and its bytes.
pub parse-add_all :
    (out : List ℕ) (t_base size : ℕ) (before : List Sample) (t : ℕ) (s : List ℕ)
    (after : List Sample) (w : BundleWriter)
    → t_base < 2 ^ 32
    → add_all (new_bundle out t_base size) (before ++ ((t, s) ∷ after)) ≡ some w
    → (v : BundleView) × (parse (take (finalize w) w.out) size ≡ ok v)
      × (v.t_base ≡ t_base)
      × (v.n ≡ length (before ++ ((t, s) ∷ after)))
      × (sample_time_us v (length before) ≡ (t_base + t) % u32_mod)
      × (sample v (length before) ≡ s)
unfolding Laid
parse-add_all out t_base size before t s after w small h =
    let all = before ++ ((t, s) ∷ after) in
    let some_there : 0 < length all = omega (arith, length-append before ((t, s) ∷ after)) in
    let room =
      new_bundle-valid out t_base size
        (add_all-valid (new_bundle out t_base size) w all some_there h) in
    let (even, count, rest, last, v) =
      add_all-Laid t_base size all [] (new_bundle out t_base size) w
        (new_bundle-Laid out t_base size room) h in
    (
      record { input = image t_base all; t_base = t_base; n = length all; sample_size = size },
      ap (λ b. parse b size) (Lays-image t_base size all count rest last w v even some_there)
          ∙ parse-image t_base size last all small v.few even v.ascends v.span,
      refl,
      refl,
      time_lem t_base last size before t s after v.ascends (omega (arith, v.span)),
      sample_lem t_base size before t s after even,
    )
