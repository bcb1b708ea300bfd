-- ===== src/Wire/StreamBundle/Layout.antt =====
-- The layout of wire/stream_bundle.hpp, and how it grows by a sample.
use slop_sync.Base.{
  ℕ, suc, ◌+◌, ◌*◌, ◌/◌, ◌%◌, ◌^◌, ◌≤◌, ◌≡◌, refl, sym, ap, ◌∙◌, inl, inr, false, not, Option, none,
  some, List, [], ◌∷◌, ◌++◌, append-nil, append_assoc, arith, leb, ◌==◌, if◌then◌else◌, Bool-cases,
  length, drop, All, length-append, take-append-drop, length-drop, write_at, take-write_at,
  drop-write_at, write_at-append, write_at_more-append,
}
use native.Mathlib.Nat.{suc-mul}
use slop_sync.Wire.Bytes.{at_offset, at_offset-append, put_u16, Split, split}

-- A sample is its offset and its bytes.
abbrev pub Sample : Type 0
Sample = ℕ × List ℕ

unfoldable pub offsets : List Sample → List ℕ
offsets [] = []
offsets ((t, s) ∷ samples) = t % 2 ^ 8 ∷ (t / 2 ^ 8 % 2 ^ 8 ∷ offsets samples)

unfoldable pub contents : List Sample → List ℕ
contents [] = []
contents ((t, s) ∷ samples) = s ++ contents samples

unfoldable pub front : ℕ → ℕ → List ℕ
front t_base count =
    t_base % 2 ^ 8
    ∷ (t_base / 2 ^ 8 % 2 ^ 8
        ∷ (t_base / 2 ^ 16 % 2 ^ 8 ∷ (t_base / 2 ^ 24 % 2 ^ 8 ∷ (count ∷ (0 ∷ [])))))

-- The offsets ascend from 0, and `last` is the last one.
unfoldable pub walk : ℕ → List Sample → ℕ → Option ℕ
walk i [] last = some last
walk i ((t, s) ∷ samples) last =
    let rest = walk (i + 1) samples t in
    if (if i == 0 then not (t == 0) else leb t last) then none else rest

pub length-offsets : (samples : List Sample) → length (offsets samples) ≡ 2 * length samples
unfolding offsets
length-offsets [] = refl
length-offsets ((t, s) ∷ samples) = omega (arith, length-offsets samples)

pub offsets-append :
    (samples : List Sample) (t : ℕ) (s : List ℕ)
    → offsets (samples ++ ((t, s) ∷ [])) ≡ offsets samples ++ (t % 2 ^ 8 ∷ (t / 2 ^ 8 % 2 ^ 8 ∷ []))
unfolding offsets
offsets-append [] t s = refl
offsets-append ((u, r) ∷ samples) t s =
    λ i. u % 2 ^ 8 ∷ (u / 2 ^ 8 % 2 ^ 8 ∷ offsets-append samples t s i)

pub contents-append :
    (samples : List Sample) (t : ℕ) (s : List ℕ)
    → contents (samples ++ ((t, s) ∷ [])) ≡ contents samples ++ s
unfolding contents
contents-append [] t s = append-nil s
contents-append ((u, r) ∷ samples) t s =
    ap (◌++◌ r) (contents-append samples t s) ∙ sym (append_assoc r (contents samples) s)

pub length-contents :
    (size : ℕ) (samples : List Sample)
    → All (λ (s : Sample). length s.1 ≡ size) samples
    → length (contents samples) ≡ length samples * size
unfolding contents
length-contents size [] h = omega arith
length-contents size ((t, s) ∷ samples) h = omega (
  arith,
  h.0,
  length-append s (contents samples),
  length-contents size samples h.1,
  suc-mul (length samples) size,
)

pub walk-append :
    (i last l t : ℕ) (s : List ℕ) (samples : List Sample)
    → walk i samples last ≡ some l
    → (if i + length samples == 0 then not (t == 0) else leb t l) ≡ false
    → walk i (samples ++ ((t, s) ∷ [])) last ≡ some t
unfolding walk
walk-append i last l t s [] h f =
    let same : last ≡ l = cc h in
    let test : (if i == 0 then not (t == 0) else leb t last) ≡ false =
      (λ j. if none_left i j == 0 then not (t == 0) else leb t (same j)) ∙ f in
    rw test refl
  where
    none_left : (i : ℕ) → i ≡ i + 0
    none_left i = omega arith
walk-append i last l t s ((u, r) ∷ samples) h f =
    elim (Bool-cases (if i == 0 then not (u == 0) else leb u last)) [
      | inl e ↦
          let stops : walk i ((u, r) ∷ samples) last ≡ none = rw (e, walk) refl in
          absurd (cc (stops, h))
      | inr e ↦
          let goes : walk i ((u, r) ∷ samples) last ≡ walk (i + 1) samples u = rw (e, walk) refl in
          let later =
            walk-append (i + 1) u l t s samples (sym goes ∙ h)
              ((λ j. if one_on i (length samples) j == 0 then not (t == 0) else leb t l) ∙ f) in
          rw (e, walk) later
    ]
  where
    one_on : (i n : ℕ) → i + 1 + n ≡ i + suc n
    one_on i n = omega arith

pub write_front :
    (bs xs : List ℕ) → length bs ≤ length xs → write_at 0 bs xs ≡ bs ++ drop (length bs) xs
write_front bs xs h =
    sym (take-append-drop (length bs) (write_at 0 bs xs))
    ∙ (λ i. take-write_at bs xs h i ++ drop-write_at bs xs h i)

pub empty : (samples : List Sample) → length samples ≡ 0 → contents samples ≡ []
unfolding contents
empty [] h = refl
empty (s ∷ samples) h = absurd (omega arith)

-- One sample more: the old samples move by two bytes, and the new offset and sample find their places.
pub layout_lem :
    (head offs datas rest s : List ℕ) (t : ℕ)
    → 2 + length s ≤ length rest
    → (rest' : List ℕ) × (write_at (length head + length offs + 2 + length datas) s (
          at_offset
            (length head + length offs)
            (put_u16 t)
            (write_at (length head + length offs + 2) datas (head ++ (offs ++ (datas ++ rest)))))
        ≡ head ++ ((offs ++ (t % 2 ^ 8 ∷ (t / 2 ^ 8 % 2 ^ 8 ∷ []))) ++ ((datas ++ s) ++ rest')))
unfolding put_u16 Split write_at
layout_lem head offs datas rest s t room =
    let P = head ++ offs in
    let low = t % 2 ^ 8 in
    let high = t / 2 ^ 8 % 2 ^ 8 in
    split 2
      (λ l.
        2 + length datas + length s ≤ length l
        → (rest' : List ℕ) × (write_at (length head + length offs + 2 + length datas) s (
              at_offset (length head + length offs) (put_u16 t)
                (write_at (length head + length offs + 2) datas (head ++ (offs ++ l))))
            ≡ head ++ ((offs ++ (low ∷ (high ∷ []))) ++ ((datas ++ s) ++ rest'))))
      (λ x y Z fits.
        let p : length head + length offs ≡ length P = sym (length-append head offs) in
        let V = drop (length datas) Z in
        let moved : write_at (length head + length offs + 2) datas (head ++ (offs ++ (x ∷ (y ∷ Z))))
            ≡ P ++ (x ∷ (y ∷ (datas ++ V))) =
          (λ i. write_at (p i + 2) datas (sym (append_assoc head offs (x ∷ (y ∷ Z))) i))
          ∙ (write_at_more-append 2 P datas (x ∷ (y ∷ Z))
              ∙ ap (λ l. P ++ (x ∷ (y ∷ l))) (write_front datas Z (omega (arith, fits)))) in
        let timed : at_offset (length head + length offs) (put_u16 t)
              (P ++ (x ∷ (y ∷ (datas ++ V))))
            ≡ P ++ (low ∷ (high ∷ (datas ++ V))) =
          (λ i. at_offset (p i) (put_u16 t) (P ++ (x ∷ (y ∷ (datas ++ V)))))
          ∙ at_offset-append (put_u16 t) P (x ∷ (y ∷ (datas ++ V))) in
        let Q = (P ++ (low ∷ (high ∷ []))) ++ datas in
        let q : length head + length offs + 2 + length datas ≡ length Q = omega (
          arith,
          p,
          length-append P (low ∷ (high ∷ [])),
          length-append (P ++ (low ∷ (high ∷ []))) datas,
        ) in
        let regrouped : P ++ (low ∷ (high ∷ (datas ++ V))) ≡ Q ++ V = sym (
          append_assoc (P ++ (low ∷ (high ∷ []))) datas V
          ∙ append_assoc P (low ∷ (high ∷ [])) (datas ++ V)) in
        let filled : write_at (length head + length offs + 2 + length datas) s (Q ++ V)
            ≡ Q ++ (s ++ drop (length s) V) =
          (λ i. write_at (q i) s (Q ++ V))
          ∙ (write_at-append Q s V
              ∙ ap (◌++◌ Q)
                  (write_front s V (omega (arith, fits, length-drop (length datas) Z)))) in
        let shaped : Q ++ (s ++ drop (length s) V)
            ≡ head ++ ((offs ++ (low ∷ (high ∷ []))) ++ ((datas ++ s) ++ drop (length s) V)) =
          append_assoc (P ++ (low ∷ (high ∷ []))) datas (s ++ drop (length s) V)
          ∙ ((λ i.
                append_assoc head offs (low ∷ (high ∷ [])) i
                ++ sym (append_assoc datas s (drop (length s) V)) i)
              ∙ append_assoc head (offs ++ (low ∷ (high ∷ [])))
                  ((datas ++ s) ++ drop (length s) V)) in
        (drop (length s) V, rw (moved, timed, regrouped) (filled ∙ shaped)))
      (datas ++ rest) (omega (arith, room, length-append datas rest))
      (omega (arith, room, length-append datas rest))

pub front_size : (t_base count k : ℕ) → 6 + k ≡ length (front t_base count) + k
unfolding front
front_size t_base count k = refl
