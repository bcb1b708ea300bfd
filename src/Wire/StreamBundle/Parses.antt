-- ===== src/Wire/StreamBundle/Parses.antt =====
-- The view of wire/stream_bundle.hpp on what its writer laid out.
use slop_sync.Base.{
  ℕ, ◌+◌, ◌*◌, ◌/◌, ◌%◌, ◌^◌, ◌≤◌, ◌<◌, ◌≡◌, refl, sym, ap, ◌∙◌, inl, inr, false, not, none, some,
  List, [], ◌∷◌, ◌++◌, append_assoc, arith, leb, ◌==◌, if◌then◌else◌, Bool-cases, length, drop,
  length-append, drop_all-append,
}
use slop_sync.Wire.Bytes.{get_u16, u16_bytes}
use slop_sync.Wire.StreamBundle.{walk_from}
use slop_sync.Wire.StreamBundle.Layout.{Sample, offsets, contents, walk}

-- A walk does not go back.
walk-last : (samples : List Sample) (i last l : ℕ) → 0 < i → walk i samples last ≡ some l → last ≤ l
unfolding walk
walk-last [] i last l h e = let same : last ≡ l = cc e in omega (arith, same)
walk-last ((t, s) ∷ samples) i last l h e =
    let later = walk-last samples (i + 1) t l (omega arith) in ground (arith, e, later)

-- One step of a walk that ends.
walk-step :
    (t : ℕ) (s : List ℕ) (samples : List Sample) (i last l : ℕ)
    → walk i ((t, s) ∷ samples) last ≡ some l
    → ((if i == 0 then not (t == 0) else leb t last) ≡ false) × (walk (i + 1) samples t ≡ some l)
unfolding walk
walk-step t s samples i last l h = elim (Bool-cases (if i == 0 then not (t == 0) else leb t last)) [
  | inl e ↦
      let stops : walk i ((t, s) ∷ samples) last ≡ none = rw (e, walk) refl in
      absurd (cc (stops, h))
  | inr e ↦
      let goes : walk i ((t, s) ∷ samples) last ≡ walk (i + 1) samples t = rw (e, walk) refl in
      (e, sym goes ∙ h)
]

pub walk-inside :
    (before : List Sample) (t : ℕ) (s : List ℕ) (after : List Sample) (i last l : ℕ)
    → walk i (before ++ ((t, s) ∷ after)) last ≡ some l
    → t ≤ l
walk-inside [] t s after i last l h =
    walk-last after (i + 1) t l (omega arith) (walk-step t s after i last l h).1
walk-inside ((u, r) ∷ before) t s after i last l h =
    walk-inside before t s after (i + 1) u l
      (walk-step u r (before ++ ((t, s) ∷ after)) i last l h).1

pub offsets-both : (xs ys : List Sample) → offsets (xs ++ ys) ≡ offsets xs ++ offsets ys
unfolding offsets
offsets-both [] ys = refl
offsets-both ((t, s) ∷ xs) ys = λ i. t % 2 ^ 8 ∷ (t / 2 ^ 8 % 2 ^ 8 ∷ offsets-both xs ys i)

pub contents-both : (xs ys : List Sample) → contents (xs ++ ys) ≡ contents xs ++ contents ys
unfolding contents
contents-both [] ys = refl
contents-both ((t, s) ∷ xs) ys =
    ap (◌++◌ s) (contents-both xs ys) ∙ sym (append_assoc s (contents xs) (contents ys))

-- The number behind `Q`.
pub offset_at :
    (Q X : List ℕ) (t i : ℕ)
    → t < 2 ^ 16
    → length Q ≡ 6 + 2 * i
    → get_u16 (drop (6 + 2 * i) (Q ++ (t % 2 ^ 8 ∷ (t / 2 ^ 8 % 2 ^ 8 ∷ X)))) ≡ t
unfolding get_u16
offset_at Q X t i small h =
    (λ j. get_u16 (drop (sym h j) (Q ++ (t % 2 ^ 8 ∷ (t / 2 ^ 8 % 2 ^ 8 ∷ X)))))
    ∙ (ap get_u16 (drop_all-append Q (t % 2 ^ 8 ∷ (t / 2 ^ 8 % 2 ^ 8 ∷ X))) ∙ u16_bytes t small)

-- The code's walk over the bytes is the walk over the samples.
pub walk_from-walk :
    (samples : List Sample) (Q X : List ℕ) (i last l : ℕ)
    → length Q ≡ 6 + 2 * i
    → l < 2 ^ 16
    → walk i samples last ≡ some l
    → walk_from (Q ++ (offsets samples ++ X)) i (length samples) last ≡ some l
unfolding walk_from offsets walk
walk_from-walk [] Q X i last l size small h = h
walk_from-walk ((t, s) ∷ samples) Q X i last l size small h =
    let (e, goes) = walk-step t s samples i last l h in
    let bound = walk-inside [] t s samples i last l h in
    let found = offset_at Q (offsets samples ++ X) t i (omega (arith, small, bound)) size in
    let Q' = Q ++ (t % 2 ^ 8 ∷ (t / 2 ^ 8 % 2 ^ 8 ∷ [])) in
    let shape : Q ++ (t % 2 ^ 8 ∷ (t / 2 ^ 8 % 2 ^ 8 ∷ (offsets samples ++ X)))
        ≡ Q' ++ (offsets samples ++ X) =
      sym (append_assoc Q (t % 2 ^ 8 ∷ (t / 2 ^ 8 % 2 ^ 8 ∷ [])) (offsets samples ++ X)) in
    let size' : length Q' ≡ 6 + 2 * (i + 1) =
      omega (arith, size, length-append Q (t % 2 ^ 8 ∷ (t / 2 ^ 8 % 2 ^ 8 ∷ []))) in
    let later = walk_from-walk samples Q' X (i + 1) t l size' small goes in
    rw (found, e) (ap (λ b. walk_from b (i + 1) (length samples) t) shape ∙ later)
