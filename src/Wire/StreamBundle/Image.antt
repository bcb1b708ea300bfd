-- ===== src/Wire/StreamBundle/Image.antt =====
-- The bytes of a whole bundle of wire/stream_bundle.hpp, and the view on them.
use slop_sync.Base.{
  ℕ, ◌+◌, ◌*◌, ◌/◌, ◌%◌, ◌^◌, ◌≤◌, ◌<◌, ◌≡◌, refl, sym, ap, ◌∙◌, some, List, [], ◌∷◌, ◌++◌,
  append_assoc, arith, length, take, drop, All, length-append, drop_all-append, take_front-append,
}
use slop_sync.Wire.Bytes.{get_u8, get_u16, get_u32, u32_bytes}
use slop_sync.Result.{ok}
use slop_sync.Util.Serial.{u32_mod}
use slop_sync.Wire.StreamBundle.{
  walk_from, parse, sample_time_us, sample, bundle_max_samples, bundle_max_span_ms,
}
use slop_sync.Wire.StreamBundle.Layout.{
  Sample, offsets, contents, front, walk, length-offsets, length-contents, front_size,
}
use slop_sync.Wire.StreamBundle.Parses.{
  walk_from-walk, walk-inside, offsets-both, contents-both, offset_at,
}

unfoldable pub image : ℕ → List Sample → List ℕ
image t_base samples = front t_base (length samples) ++ (offsets samples ++ contents samples)

pub length-image :
    (t_base size : ℕ) (samples : List Sample)
    → All (λ (s : Sample). length s.1 ≡ size) samples
    → length (image t_base samples) ≡ 6 + 2 * length samples + length samples * size
unfolding image front
length-image t_base size samples even = omega (
  arith,
  length-append (offsets samples) (contents samples),
  length-offsets samples,
  length-contents size samples even,
)

pub image-t_base :
    (t_base : ℕ) (samples : List Sample) → t_base < 2 ^ 32 → get_u32 (image t_base samples) ≡ t_base
unfolding image front get_u32
image-t_base t_base samples h = u32_bytes t_base h

pub image-n :
    (t_base : ℕ) (samples : List Sample) → get_u8 (drop 4 (image t_base samples)) ≡ length samples
unfolding image front get_u8
image-n t_base samples = refl

pub image-walk :
    (t_base last : ℕ) (samples : List Sample)
    → last < 2 ^ 16
    → walk 0 samples 0 ≡ some last
    → walk_from (image t_base samples) 0 (length samples) 0 ≡ some last
unfolding image front
image-walk t_base last samples h ascends =
    walk_from-walk samples (front t_base (length samples)) (contents samples) 0 0 last refl h
      ascends

pub parse-image :
    (t_base size last : ℕ) (samples : List Sample)
    → t_base < 2 ^ 32
    → length samples ≤ bundle_max_samples
    → All (λ (s : Sample). length s.1 ≡ size) samples
    → walk 0 samples 0 ≡ some last
    → last ≤ bundle_max_span_ms * 1000
    → parse (image t_base samples) size
      ≡ ok (record {
        input = image t_base samples;
        t_base = t_base;
        n = length samples;
        sample_size = size;
      })
unfolding parse
parse-image t_base size last samples small few even ascends span =
    let whole = length-image t_base size samples even in
    let base = image-t_base t_base samples small in
    let number = image-n t_base samples in
    let walked = image-walk t_base last samples (omega (arith, span)) ascends in
    ground (arith, whole, base, number, walked, few, span)

pub All-left : (P : Sample → Type 0) (xs ys : List Sample) → All P (xs ++ ys) → All P xs
All-left P [] ys h = tt
All-left P (x ∷ xs) ys h = (h.0, All-left P xs ys h.1)

pub All-right : (P : Sample → Type 0) (xs ys : List Sample) → All P (xs ++ ys) → All P ys
All-right P [] ys h = h
All-right P (x ∷ xs) ys h = All-right P xs ys h.1

pub time_lem :
    (t_base last size : ℕ) (before : List Sample) (t : ℕ) (s : List ℕ) (after : List Sample)
    → walk 0 (before ++ ((t, s) ∷ after)) 0 ≡ some last
    → last < 2 ^ 16
    → sample_time_us
        (record {
          input = image t_base (before ++ ((t, s) ∷ after));
          t_base = t_base;
          n = length (before ++ ((t, s) ∷ after));
          sample_size = size;
        })
        (length before)
      ≡ (t_base + t) % u32_mod
unfolding sample_time_us image offsets
time_lem t_base last size before t s after ascends small =
    let all = before ++ ((t, s) ∷ after) in
    let head = front t_base (length all) in
    let X = offsets after ++ contents all in
    let shape : head ++ (offsets all ++ contents all)
        ≡ (head ++ offsets before) ++ (t % 2 ^ 8 ∷ (t / 2 ^ 8 % 2 ^ 8 ∷ X)) =
      ap (λ l. head ++ (l ++ contents all)) (offsets-both before ((t, s) ∷ after))
      ∙ (ap (◌++◌ head) (append_assoc (offsets before) (offsets ((t, s) ∷ after)) (contents all))
          ∙ sym (append_assoc head (offsets before) (t % 2 ^ 8 ∷ (t / 2 ^ 8 % 2 ^ 8 ∷ X)))) in
    let place : length (head ++ offsets before) ≡ 6 + 2 * length before =
      length-append head (offsets before)
      ∙ omega (arith, front_size t_base (length all) 0, length-offsets before) in
    let bound = walk-inside before t s after 0 0 last ascends in
    ap (λ b. (t_base + get_u16 (drop (6 + 2 * length before) b)) % u32_mod) shape
    ∙ ap (λ o. (t_base + o) % u32_mod)
        (offset_at (head ++ offsets before) X t (length before) (omega (arith, bound, small)) place)

pub sample_lem :
    (t_base size : ℕ) (before : List Sample) (t : ℕ) (s : List ℕ) (after : List Sample)
    → All (λ (s : Sample). length s.1 ≡ size) (before ++ ((t, s) ∷ after))
    → sample
        (record {
          input = image t_base (before ++ ((t, s) ∷ after));
          t_base = t_base;
          n = length (before ++ ((t, s) ∷ after));
          sample_size = size;
        })
        (length before)
      ≡ s
unfolding sample image contents
sample_lem t_base size before t s after even =
    let all = before ++ ((t, s) ∷ after) in
    let P = λ (s : Sample). length s.1 ≡ size in
    let head = front t_base (length all) in
    let fits : length s ≡ size = (All-right P before ((t, s) ∷ after) even).0 in
    let block = length-contents size before (All-left P before ((t, s) ∷ after) even) in
    let Q = (head ++ offsets all) ++ contents before in
    let shape : head ++ (offsets all ++ contents all) ≡ Q ++ (s ++ contents after) =
      ap (λ l. head ++ (offsets all ++ l)) (contents-both before ((t, s) ∷ after))
      ∙ sym (
          append_assoc (head ++ offsets all) (contents before) (s ++ contents after)
          ∙ append_assoc head (offsets all) (contents before ++ (s ++ contents after))) in
    let place : 6 + 2 * length all + length before * size ≡ length Q = omega (
      arith,
      length-append (head ++ offsets all) (contents before),
      length-append head (offsets all),
      front_size t_base (length all) 0,
      length-offsets all,
      block,
    ) in
    (λ i. take (sym fits i) (drop (place i) (shape i)))
    ∙ (ap (take (length s)) (drop_all-append Q (s ++ contents after))
        ∙ take_front-append s (contents after))
