-- ===== src/Wire/StreamBundle/Accepts.antt =====
-- wire/stream_bundle.hpp: what holds of every bundle that the view accepts, whoever wrote it.
use slop_sync.Base.{
  ℕ, zero, suc, ◌+◌, ◌-◌, ◌*◌, ◌≤◌, ◌<◌, ◌≡◌, refl, sym, ap, ◌∙◌, subst, inl, inr, false, not, ◌&&◌,
  none, some, List, arith, ltb, leb, ◌==◌, if◌then◌else◌, Bool-cases, Option-cases, length, take,
  drop, length-take, length-drop,
}
use native.Mathlib.Decide.{ℕ_discrete}
use native.Mathlib.Nat.{suc-mul, add-mul}
use slop_sync.Result.{ok}
use slop_sync.Wire.Bytes.{get_u8, get_u16, get_u32}
use slop_sync.Wire.StreamBundle.{
  BundleView, walk_from, parse, sample, bundle_max_samples, bundle_max_span_ms,
}

-- The offset of a sample as the bytes have it.
unfoldable pub offset_of : List ℕ → ℕ → ℕ
offset_of input i = get_u16 (drop (6 + 2 * i) input)

walk_from-step :
    (input : List ℕ) (i left last l : ℕ)
    → walk_from input i (suc left) last ≡ some l
    → ((if i == 0 then not (offset_of input i == 0) else leb (offset_of input i) last) ≡ false)
      × (walk_from input (i + 1) left (offset_of input i) ≡ some l)
unfolding walk_from offset_of
walk_from-step input i left last l h =
    let t = get_u16 (drop (6 + 2 * i) input) in
    elim (Bool-cases (if i == 0 then not (t == 0) else leb t last)) [
      | inl e ↦
          let stops : walk_from input i (suc left) last ≡ none = rw (e, walk_from) refl in
          absurd (cc (stops, h))
      | inr e ↦
          let goes : walk_from input i (suc left) last ≡ walk_from input (i + 1) left t =
            rw (e, walk_from) refl in
          (e, sym goes ∙ h)
    ]

walk_from-last :
    (input : List ℕ) (left i last l : ℕ) → 0 < i → walk_from input i left last ≡ some l → last ≤ l
unfolding walk_from
walk_from-last input zero i last l h e = let same : last ≡ l = cc e in omega (arith, same)
walk_from-last input (suc left) i last l h e =
    let (test, goes) = walk_from-step input i left last l e in
    let later = walk_from-last input left (i + 1) (offset_of input i) l (omega arith) goes in
    ground (arith, test, later, h)

walk_from-after :
    (input : List ℕ) (left i last l j : ℕ)
    → 0 < i
    → walk_from input i left last ≡ some l
    → i ≤ j
    → j < i + left
    → (last < offset_of input j) × (offset_of input j ≤ l)
walk_from-after input zero i last l j h e low high = absurd (omega (arith, low, high))
walk_from-after input (suc left) i last l j h e low high =
    let (test, goes) = walk_from-step input i left last l e in
    let first : last < offset_of input i = ground (arith, test, h) in
    elim (ℕ_discrete i j) [
      | yes same ↦
          let bound = walk_from-last input left (i + 1) (offset_of input i) l (omega arith) goes in
          (
            subst (λ k. last < offset_of input k) same first,
            subst (λ k. offset_of input k ≤ l) same bound,
          )
      | no other ↦
          let (more, bound) =
            walk_from-after input left (i + 1) (offset_of input i) l j (omega arith) goes
              (omega (arith, low, other)) (omega (arith, high)) in
          (omega (arith, first, more), bound)
    ]

walk_from-pair :
    (input : List ℕ) (left i last l a b : ℕ)
    → walk_from input i left last ≡ some l
    → i ≤ a
    → a < b
    → b < i + left
    → (offset_of input a < offset_of input b) × (offset_of input b ≤ l)
walk_from-pair input zero i last l a b e low mid high = absurd (omega (arith, low, mid, high))
walk_from-pair input (suc left) i last l a b e low mid high =
    let (test, goes) = walk_from-step input i left last l e in
    elim (ℕ_discrete i a) [
      | yes same ↦
          subst (λ k. (offset_of input k < offset_of input b) × (offset_of input b ≤ l)) same
            (walk_from-after input left (i + 1) (offset_of input i) l b (omega arith) goes
              (omega (arith, same, mid)) (omega (arith, high)))
      | no other ↦
          walk_from-pair input left (i + 1) (offset_of input i) l a b goes
            (omega (arith, low, other)) mid (omega (arith, high))
    ]

walk_from-first :
    (input : List ℕ) (n l : ℕ) → 0 < n → walk_from input 0 n 0 ≡ some l → offset_of input 0 ≡ 0
walk_from-first input zero l h e = absurd (omega (arith, h))
walk_from-first input (suc n) l h e =
    let (test, goes) = walk_from-step input 0 n 0 l e in ground (arith, test)

-- What the parser has checked when it answers a view.
pub record Checked (input : List ℕ) (size : ℕ) (v : BundleView) : Type 0 where
  pub bytes : v.input ≡ input
  pub sized : v.sample_size ≡ size
  pub few : v.n ≤ bundle_max_samples
  pub room : 6 + 2 * v.n + v.n * size ≤ length input
  pub last : ℕ
  pub walked : walk_from input 0 v.n 0 ≡ some last
  pub span : 0 < v.n → last ≤ bundle_max_span_ms * 1000

parse-Checked :
    (input : List ℕ) (size : ℕ) (v : BundleView) → parse input size ≡ ok v → Checked input size v
unfolding parse
parse-Checked input size v h =
    let n = get_u8 (drop 4 input) in
    elim (Option-cases (walk_from input 0 n 0)) [
      | inl e ↦ absurd (ground (arith, h, e))
      | inr (last, e) ↦
          let view : BundleView = record {
            input = input;
            t_base = get_u32 input;
            n = n;
            sample_size = size;
          } in
          let answers : view ≡ v = ground (arith, h, e) in
          let few : n ≤ bundle_max_samples = ground (arith, h, e) in
          let room : 6 + 2 * n + n * size ≤ length input = ground (arith, h, e) in
          let span : (ltb 0 n && ltb (bundle_max_span_ms * 1000) last) ≡ false =
            ground (arith, h, e) in
          subst (Checked input size) answers (record {
            bytes = refl;
            sized = refl;
            few = few;
            room = room;
            last = last;
            walked = e;
            span = λ some_there. ground (arith, span, some_there);
          })
    ]

block_within : (i n size : ℕ) → i < n → i * size + size ≤ n * size
block_within i n size h =
    let whole : n ≡ suc i + (n - suc i) = omega (arith, h) in
    let grown : n * size ≡ suc i * size + (n - suc i) * size =
      ap (λ k. k * size) whole ∙ add-mul (suc i) (n - suc i) size in
    omega (arith, grown, suc-mul i size)

length-sample :
    (input : List ℕ) (size : ℕ) (v : BundleView) (i : ℕ)
    → Checked input size v
    → i < v.n
    → length (sample v i) ≡ size
unfolding sample
length-sample input size v i c h =
    let place : 6 + 2 * v.n + i * v.sample_size ≡ 6 + 2 * v.n + i * size =
      ap (λ k. 6 + 2 * v.n + i * k) c.sized in
    (λ k. length (take (c.sized k) (drop (place k) (c.bytes k))))
    ∙ omega (
      arith,
      length-take size (drop (6 + 2 * v.n + i * size) input),
      length-drop (6 + 2 * v.n + i * size) input,
      c.room,
      block_within i v.n size h,
    )

-- Where the parser answers a view of any bytes, and two samples `i` before `j` are among its number, then that
-- number is at most the cap, the first offset is 0, the offset of `i` is less than that of `j`, which is within
-- the longest span, and the bytes of each of the two are all there.
pub parse-ascends :
    (input : List ℕ) (size : ℕ) (v : BundleView) (i j : ℕ)
    → parse input size ≡ ok v
    → i < j
    → j < v.n
    → (v.n ≤ bundle_max_samples)
      × (offset_of input 0 ≡ 0)
      × (offset_of input i < offset_of input j)
      × (offset_of input j ≤ bundle_max_span_ms * 1000)
      × (length (sample v i) ≡ size)
      × (length (sample v j) ≡ size)
parse-ascends input size v i j h order within =
    let c = parse-Checked input size v h in
    let (ascends, bound) =
      walk_from-pair input v.n 0 0 c.last i j c.walked (omega arith) order
        (omega (arith, within)) in
    let span = c.span (omega (arith, within)) in
    (
      c.few,
      walk_from-first input v.n c.last (omega (arith, within)) c.walked,
      ascends,
      omega (arith, bound, span),
      length-sample input size v i c (omega (arith, order, within)),
      length-sample input size v j c within,
    )
