-- ===== src/Wire/Cbor/Skip.antt =====
-- `skipValue` of wire/cbor/cbor_reader.hpp: a value of any shape is read and dropped.
use slop_sync.Base.{
  ℕ, zero, suc, ◌+◌, ◌-◌, ◌*◌, ◌≤◌, ◌≡◌, refl, sym, ap, ◌∙◌, subst, inl, inr, Bool, true, false,
  Option, none, some, arith, length,
}
use slop_sync.Result.{
  Result, DecodeError, ok, err, profile_violation, Result-cases, ◌>>=◌, DecodeError,
}
use slop_sync.Wire.Cbor.{max_depth}
use slop_sync.Wire.Cbor.Reader.{
  read_string, enter_container, CborReader, MajorType, uint, neg_int, byte_string, text_string,
  array, map_of, tag, simple, peek_type, ahead, advanced, parse_simple, read_map_header,
  read_array_header, read_key, read_uint, read_int, read_tstr, read_bstr, read_string,
}
use slop_sync.Wire.Cbor.Advance.{
  Advances, uint-Advances, signed-Advances, string-Advances, container-Advances, key-Advances,
  advanced-Advances, parse_simple-bound,
}

abbrev value_dropped : {A : Type 0} → Result (A × CborReader) → Result CborReader
value_dropped (ok (a, r)) = ok r
value_dropped (err e) = err e

-- A reader after a whole value, or after the head of a container: with its kind, a map or not, and its count.
abbrev pub Start : Type 0
Start = Option (Bool × ℕ) × CborReader

abbrev whole : {A : Type 0} → Result (A × CborReader) → Result Start
whole (ok (a, r)) = ok (none, r)
whole (err e) = err e

abbrev head_of : Bool → Result (ℕ × CborReader) → Result Start
head_of is_map (ok (n, r)) = ok (some (is_map, n), r)
head_of is_map (err e) = err e

unfoldable pub skip_typed : MajorType → CborReader → Result Start
skip_typed uint r = whole (read_uint r)
skip_typed neg_int r = whole (read_int r)
skip_typed byte_string r = whole (read_bstr r)
skip_typed text_string r = whole (read_tstr r)
skip_typed array r = head_of false (read_array_header r)
skip_typed map_of r = head_of true (read_map_header r)
skip_typed tag r = err profile_violation
skip_typed simple r = do s ← parse_simple (ahead r); ok (none, advanced r s.total_bytes)

unfoldable pub skip_start : CborReader → Result Start
skip_start r = peek_type r >>= λ t. skip_typed t r

-- The key of a map's entry; an array has none.
unfoldable pub skip_key : Bool → CborReader → Result CborReader
skip_key true r = value_dropped (read_key r)
skip_key false r = ok r

-- On fuel, which is spent by the nested calls and by the rounds of the loops; `none` where it ran out.
unfoldable mutual
  pub skip_value : ℕ → CborReader → Option (Result CborReader)
  skip_value zero r = none
  skip_value (suc fuel) r = elim (skip_start r) [
    | err e ↦ some (err e)
    | ok (none, after) ↦ some (ok after)
    | ok (some (is_map, n), inner) ↦ skip_items fuel is_map n inner
  ]

  -- The values that are left of a container.
  pub skip_items : ℕ → Bool → ℕ → CborReader → Option (Result CborReader)
  skip_items zero is_map n r = none
  skip_items (suc fuel) is_map zero r = some (ok r)
  skip_items (suc fuel) is_map (suc n) r = elim (skip_key is_map r) [
    | err e ↦ some (err e)
    | ok keyed ↦ elim (skip_value fuel keyed) [
      | none ↦ none
      | some (err e) ↦ some (err e)
      | some (ok after) ↦ skip_items fuel is_map n after
    ]
  ]

whole-Advances :
    {A : Type 0} (x : Result (A × CborReader)) (r : CborReader) (st : Start)
    → ((a : A) (u : CborReader) → x ≡ ok (a, u) → Advances r u)
    → whole x ≡ ok st
    → Advances r st.1
whole-Advances (ok (a, u)) r st f h =
    let same : u ≡ st.1 = cc h in subst (Advances r) same (f a u refl)
whole-Advances (err e) r st f h = absurd (cc h)

head_of-Advances :
    (is_map : Bool) (x : Result (ℕ × CborReader)) (r : CborReader) (st : Start)
    → ((n : ℕ) (u : CborReader) → x ≡ ok (n, u) → Advances r u)
    → head_of is_map x ≡ ok st
    → Advances r st.1
head_of-Advances is_map (ok (n, u)) r st f h =
    let same : u ≡ st.1 = cc h in subst (Advances r) same (f n u refl)
head_of-Advances is_map (err e) r st f h = absurd (cc h)

skip_typed-Advances :
    (t : MajorType) (r : CborReader) (st : Start) → skip_typed t r ≡ ok st → Advances r st.1
unfolding skip_typed read_bstr read_tstr read_map_header read_array_header
skip_typed-Advances uint r st h =
    whole-Advances (read_uint r) r st (λ v u q. uint-Advances r u v q) h
skip_typed-Advances neg_int r st h =
    whole-Advances (read_int r) r st (λ v u q. signed-Advances r u v q) h
skip_typed-Advances byte_string r st h =
    whole-Advances (read_string 2 r) r st (λ v u q. string-Advances 2 r u v q) h
skip_typed-Advances text_string r st h =
    whole-Advances (read_string 3 r) r st (λ v u q. string-Advances 3 r u v q) h
skip_typed-Advances array r st h =
    head_of-Advances false (enter_container 4 false r) r st
      (λ n u q. container-Advances 4 false r u n q) h
skip_typed-Advances map_of r st h =
    head_of-Advances true (enter_container 5 true r) r st
      (λ n u q. container-Advances 5 true r u n q) h
skip_typed-Advances tag r st h = absurd (cc h)
skip_typed-Advances simple r st h = elim (Result-cases (parse_simple (ahead r))) [
  | inl (e, q) ↦ absurd (ground (arith, h, q))
  | inr (s, q) ↦
      let (low, high) = parse_simple-bound (ahead r) s q in
      let same : advanced r s.total_bytes ≡ st.1 = ground (arith, h, q) in
      subst (Advances r) same (advanced-Advances r s.total_bytes low high)
]

skip_start-Advances : (r : CborReader) (st : Start) → skip_start r ≡ ok st → Advances r st.1
unfolding skip_start
skip_start-Advances r st h = elim (Result-cases (peek_type r)) [
  | inl (e, q) ↦ absurd (ground (arith, h, q))
  | inr (t, q) ↦ skip_typed-Advances t r st (sym (rw (q, skip_start) refl) ∙ h)
]

-- Where a loop ends: not before it started.
record Stays (r r' : CborReader) : Type 0 where
  input : r'.input ≡ r.input
  moved : r.position ≤ r'.position
  inside : r.position ≤ length r.input → r'.position ≤ length r'.input
  shallow : length r.stack ≤ max_depth → length r'.stack ≤ max_depth

Advances-Stays : (r u r' : CborReader) → Advances r u → Stays u r' → Advances r r'
Advances-Stays r u r' a s = record {
  input = s.input ∙ a.input;
  moved = omega (arith, a.moved, s.moved);
  inside = s.inside (omega (arith, a.inside));
  shallow = λ d. s.shallow (a.shallow d);
}

Stays-Advances-Stays : (r u v w : CborReader) → Stays r u → Advances u v → Stays v w → Stays r w
Stays-Advances-Stays r u v w s a t = record {
  input = t.input ∙ (a.input ∙ s.input);
  moved = omega (arith, s.moved, a.moved, t.moved);
  inside = λ h. t.inside (omega (arith, a.inside));
  shallow = λ d. t.shallow (a.shallow (s.shallow d));
}

-- How many bytes are left.
left : CborReader → ℕ
left r = length r.input - r.position

Advances-left : (r u : CborReader) → Advances r u → left u + 1 ≤ left r
unfolding left
Advances-left r u a = omega (arith, a.moved, a.inside, ap length a.input)

Stays-left : (r u : CborReader) → Stays r u → left u ≤ left r
unfolding left
Stays-left r u s = omega (arith, s.moved, ap length s.input)

skip_key-Stays : (is_map : Bool) (r u : CborReader) → skip_key is_map r ≡ ok u → Stays r u
unfolding skip_key
skip_key-Stays false r u h =
    let same : r ≡ u = cc h in
    subst (Stays r) same
      (record { input = refl; moved = omega arith; inside = λ h. h; shallow = λ d. d })
skip_key-Stays true r u h = elim (Result-cases (read_key r)) [
  | inl (e, q) ↦ absurd (ground (arith, h, q))
  | inr ((k, v), q) ↦
      let a = key-Advances r v k q in
      let same : v ≡ u = ground (arith, h, q) in
      subst (Stays r) same (record {
        input = a.input;
        moved = omega (arith, a.moved);
        inside = λ _. a.inside;
        shallow = a.shallow;
      })
]

abbrev Ends : Option (Result CborReader) → (CborReader → Type 0) → Type 0
Ends o P = (res : Result CborReader) × (o ≡ some res) × ((r' : CborReader) → res ≡ ok r' → P r')

failing :
    (o : Option (Result CborReader)) (P : CborReader → Type 0) (e : DecodeError)
    → o ≡ some (err e)
    → Ends o P
failing o P e h = (err e, h, λ r' q. absurd (cc q))

mutual
  unfolding skip_value

  skip_value-Ends :
      (fuel : ℕ) (r : CborReader) → 2 * left r + 1 ≤ fuel → Ends (skip_value fuel r) (Advances r)
  skip_value-Ends zero r h = absurd (omega arith)
  skip_value-Ends (suc fuel) r h = elim (Result-cases (skip_start r)) [
    | inl (e, q) ↦ failing (skip_value (suc fuel) r) (Advances r) e (rw (q, skip_value) refl)
    | inr ((none, after), q) ↦ (
      ok after,
      rw (q, skip_value) refl,
      λ r' p. subst (Advances r) (cc p) (skip_start-Advances r (none, after) q),
    )
    | inr ((some (is_map, n), inner), q) ↦
        let a = skip_start-Advances r (some (is_map, n), inner) q in
        let (res, e, f) =
          skip_items-Ends fuel is_map n inner (omega (arith, h, Advances-left r inner a)) in
        (res, rw (q, skip_value) e, λ r' p. Advances-Stays r inner r' a (f r' p))
  ]

  skip_items-Ends :
      (fuel : ℕ) (is_map : Bool) (n : ℕ) (r : CborReader)
      → 2 * left r + 2 ≤ fuel
      → Ends (skip_items fuel is_map n r) (Stays r)
  skip_items-Ends zero is_map n r h = absurd (omega arith)
  skip_items-Ends (suc fuel) is_map zero r h = (
    ok r,
    refl,
    λ r' p.
        subst (Stays r) (cc p)
          (record { input = refl; moved = omega arith; inside = λ h. h; shallow = λ d. d }),
  )
  skip_items-Ends (suc fuel) is_map (suc n) r h = elim (Result-cases (skip_key is_map r)) [
    | inl (e, q) ↦
        failing (skip_items (suc fuel) is_map (suc n) r) (Stays r) e (rw (q, skip_items) refl)
    | inr (keyed, q) ↦
        let s = skip_key-Stays is_map r keyed q in
        let (res, e, f) = skip_value-Ends fuel keyed (omega (arith, h, Stays-left r keyed s)) in
        elim (Result-cases res) [
          | inl (x, p) ↦
              failing (skip_items (suc fuel) is_map (suc n) r) (Stays r) x
                (rw (q, e, p, skip_items) refl)
          | inr (after, p) ↦
              let a = f after p in
              let (res', e', f') =
                skip_items-Ends fuel is_map n after
                  (omega (arith, h, Stays-left r keyed s, Advances-left keyed after a)) in
              (
                res',
                rw (q, e, p, skip_items) e',
                λ r' p'. Stays-Advances-Stays r keyed after r' s a (f' r' p'),
              )
        ]
  ]

-- Skipping a value always comes to an end: with two units of fuel for each byte that is left, and one more,
-- `skipValue` answers. Where it answers a reader, that has moved on, has not passed the end of the input, and
-- has at most four frames open if there were at most four before.
pub skip_value_ends :
    (fuel : ℕ) (r : CborReader)
    → 2 * (length r.input - r.position) + 1 ≤ fuel
    → (res : Result CborReader) × (skip_value fuel r ≡ some res)
      × ((r' : CborReader) → res ≡ ok r' → Advances r r')
unfolding left
skip_value_ends fuel r h = skip_value-Ends fuel r h
