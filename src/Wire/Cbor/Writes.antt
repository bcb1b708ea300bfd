-- ===== src/Wire/Cbor/Writes.antt =====
-- What a call of wire/cbor/cbor_writer.hpp appends where it does not fail.
use slop_sync.Base.{
  ℕ, ◌+◌, ◌*◌, ◌≤◌, ◌≡◌, refl, sym, ap, ◌∙◌, subst, inl, inr, Bool, true, false, ◌&&◌, some, List,
  [], ◌∷◌, ◌++◌, append_assoc, arith, ltb, leb, Bool-cases, length, take, drop, length-append,
  take-append-drop, length-take, length-drop, write_at, length-write_at, take-write_at,
  write_at-append, take_more-append,
}
use slop_sync.Int.{pos, negsuc}
use slop_sync.Wire.Cbor.{Frame, Stack, max_depth, consume_one, after_consume}
use slop_sync.Wire.Cbor.Writer.{
  CborWriter, put_bytes, write_head, write_simple, open_container, map_header, array_header,
  key_raw, key_in, uint_val, int_val, bool_val, null_val, f32_val, put_string, tstr_val, bstr_val,
  head_bytes, float_bytes, consumed,
}
use slop_sync.Wire.Cbor.Token.{
  Token, map_token, array_token, key_token, uint_token, float_token, int_token, bool_token,
  null_token, text_token, bytes_token, write_token, token_bytes, token_stack, opened, keyed,
}

take-write_at_off :
    (off : ℕ) (bs out : List ℕ)
    → off + length bs ≤ length out
    → take (off + length bs) (write_at off bs out) ≡ take off out ++ bs
take-write_at_off off bs out h =
    let xs = take off out in
    let ys = drop off out in
    let size : off ≡ length xs = omega (arith, h, length-take off out) in
    let whole : out ≡ xs ++ ys = sym (take-append-drop off out) in
    (λ i. take (size i + length bs) (write_at (size i) bs (whole i)))
    ∙ (ap (take (length xs + length bs)) (write_at-append xs bs ys)
        ∙ (take_more-append (length bs) xs (write_at 0 bs ys)
            ∙ ap (◌++◌ xs) (take-write_at bs ys (omega (arith, h, length-drop off out)))))

-- `w'` is `w` with the bytes behind what was written, without an error.
pub record Appends (bs : List ℕ) (w w' : CborWriter) : Type 0 where
  pub sound : w'.failed ≡ false
  pub moved : w'.position ≡ w.position + length bs
  pub written : take w'.position w'.out ≡ take w.position w.out ++ bs
  pub sized : length w'.out ≡ length w.out
  pub room : w'.position ≤ length w'.out

put_bytes-Appends :
    (bs : List ℕ) (w : CborWriter)
    → (put_bytes bs w).failed ≡ false
    → Appends bs w (put_bytes bs w) × ((put_bytes bs w).stack ≡ w.stack) × (w.failed ≡ false)
unfolding put_bytes
put_bytes-Appends bs w h = elim (Bool-cases w.failed) [
  | inl e ↦ absurd (ground (arith, h, e))
  | inr e ↦ elim (Bool-cases (ltb (length w.out) (w.position + length bs))) [
    | inl f ↦ absurd (ground (arith, h, e, f))
    | inr f ↦
        let fits : w.position + length bs ≤ length w.out = ground (arith, f) in
        let done : put_bytes bs w
            ≡ record w { out = write_at w.position bs w.out; position = w.position + length bs } =
          simp (e, f, put_bytes) refl in
        rw done (
          record {
            sound = e;
            moved = refl;
            written = take-write_at_off w.position bs w.out fits;
            sized = length-write_at w.position bs w.out;
            room = omega (arith, fits, length-write_at w.position bs w.out);
          },
          refl,
          e,
        )
  ]
]

pub Appends-trans :
    (cs bs : List ℕ) (u v w : CborWriter) → Appends cs u v → Appends bs v w → Appends (cs ++ bs) u w
Appends-trans cs bs u v w p q = record {
  sound = q.sound;
  moved = omega (arith, p.moved, q.moved, length-append cs bs);
  written = q.written ∙ (ap (λ l. l ++ bs) p.written ∙ append_assoc (take u.position u.out) cs bs);
  sized = q.sized ∙ p.sized;
  room = q.room;
}

-- The stack plays no part in what is appended.
same_bytes :
    (bs : List ℕ) (u v u' v' : CborWriter)
    → u'.out ≡ u.out
    → u'.position ≡ u.position
    → v'.out ≡ v.out
    → v'.position ≡ v.position
    → v'.failed ≡ v.failed
    → Appends bs u v
    → Appends bs u' v'
same_bytes bs u v u' v' a b c d e p = record {
  sound = e ∙ p.sound;
  moved = d ∙ (p.moved ∙ ap (λ n. n + length bs) (sym b));
  written = (λ i. take (d i) (c i)) ∙ (p.written ∙ (λ i. take (sym b i) (sym a i) ++ bs));
  sized = ap length c ∙ (p.sized ∙ ap length (sym a));
  room = omega (arith, ap length c, d, p.room);
}

abbrev pub Writes : Token → CborWriter → Type 0
Writes t w =
    Appends (token_bytes t) w (write_token t w)
    × (token_stack t w.stack ≡ some (write_token t w).stack)
    × (w.failed ≡ false)

-- A value of one head.
scalar-Writes :
    (bs : List ℕ) (w : CborWriter)
    → (consumed (put_bytes bs w)).failed ≡ false
    → Appends bs w (consumed (put_bytes bs w))
      × (some (consume_one w.stack) ≡ some (consumed (put_bytes bs w)).stack)
      × (w.failed ≡ false)
scalar-Writes bs w h =
    let (p, q, e) = put_bytes-Appends bs w h in
    (
      same_bytes bs w (put_bytes bs w) w (consumed (put_bytes bs w)) refl refl refl refl refl p,
      ap (λ s. some (consume_one s)) (sym q),
      e,
    )

container-Writes :
    (is_map : Bool) (remaining major n : ℕ) (w : CborWriter)
    → (write_head major n (open_container is_map remaining w)).failed ≡ false
    → Appends (head_bytes major n) w (write_head major n (open_container is_map remaining w))
      × (opened is_map remaining w.stack
          ≡ some (write_head major n (open_container is_map remaining w)).stack)
      × (w.failed ≡ false)
unfolding write_head open_container opened
container-Writes is_map remaining major n w h =
    let v = open_container is_map remaining w in
    let (p, q, e) = put_bytes-Appends (head_bytes major n) v h in
    elim (Bool-cases w.failed) [
      | inl f ↦ absurd (ground (arith, e, f))
      | inr f ↦ elim (Bool-cases (ltb max_depth (length w.stack + 1))) [
        | inl g ↦ absurd (ground (arith, e, f, g))
        | inr g ↦
            let frame : Frame = record {
              is_map = is_map;
              remaining = remaining;
              has_last_key = false;
              last_key = 0;
            } in
            let is_open : v ≡ record w { stack = after_consume (frame ∷ w.stack) } =
              simp (f, g, open_container) refl in
            let opens : opened is_map remaining w.stack ≡ some (after_consume (frame ∷ w.stack)) =
              rw (g, opened) refl in
            (
              same_bytes (head_bytes major n) v (put_bytes (head_bytes major n) v) w
                  (put_bytes (head_bytes major n) v) (ap (λ (x : CborWriter). x.out) (sym is_open))
                  (ap (λ (x : CborWriter). x.position) (sym is_open)) refl refl refl p,
              opens ∙ ap some (ap (λ (x : CborWriter). x.stack) (sym is_open) ∙ sym q),
              f,
            )
      ]
    ]

key_in-Writes :
    (k : ℕ) (stack : Stack) (w : CborWriter)
    → (key_in k stack w).failed ≡ false
    → Appends (head_bytes 0 k) w (key_in k stack w)
      × (keyed k stack ≡ some (key_in k stack w).stack)
      × (w.failed ≡ false)
unfolding key_in write_head keyed
key_in-Writes k [] w h = absurd (cc h)
key_in-Writes k (f ∷ stack) w h = elim (Bool-cases f.is_map) [
  | inr a ↦ absurd (ground (arith, h, a))
  | inl a ↦ elim (Bool-cases (f.has_last_key && leb k f.last_key)) [
    | inl b ↦ absurd (ground (arith, h, a, b))
    | inr b ↦
        let top : Frame = record f { has_last_key = true; last_key = k } in
        let v = record w { stack = top ∷ stack } in
        let done : key_in k (f ∷ stack) w ≡ consumed (put_bytes (head_bytes 0 k) v) =
          simp (a, b, key_in) refl in
        let (p, q, e) =
          scalar-Writes (head_bytes 0 k) v (ap (λ (x : CborWriter). x.failed) (sym done) ∙ h) in
        let opens : keyed k (f ∷ stack) ≡ some (consume_one (top ∷ stack)) =
          simp (a, b, keyed) refl in
        (
          same_bytes (head_bytes 0 k) v (consumed (put_bytes (head_bytes 0 k) v)) w
              (key_in k (f ∷ stack) w) refl refl (ap (λ (x : CborWriter). x.out) done)
              (ap (λ (x : CborWriter). x.position) done) (ap (λ (x : CborWriter). x.failed) done) p,
          opens ∙ (q ∙ ap (λ (x : CborWriter). some x.stack) (sym done)),
          e,
        )
  ]
]

key-Writes :
    (k : ℕ) (w : CborWriter)
    → (key_raw k w).failed ≡ false
    → Appends (head_bytes 0 k) w (key_raw k w)
      × (keyed k w.stack ≡ some (key_raw k w).stack)
      × (w.failed ≡ false)
unfolding key_raw
key-Writes k w h = elim (Bool-cases w.failed) [
  | inl e ↦ absurd (ground (arith, h, e))
  | inr e ↦
      let done : key_raw k w ≡ key_in k w.stack w = simp (e, key_raw) refl in
      subst
        (λ x. Appends (head_bytes 0 k) w x × (keyed k w.stack ≡ some x.stack) × (w.failed ≡ false))
        (sym done) (key_in-Writes k w.stack w (ap (λ (x : CborWriter). x.failed) (sym done) ∙ h))
]

-- A value behind its head.
string-Writes :
    (major : ℕ) (s : List ℕ) (w : CborWriter)
    → (put_string major s w).failed ≡ false
    → Appends (head_bytes major (length s) ++ s) w (put_string major s w)
      × (some (consume_one w.stack) ≡ some (put_string major s w).stack)
      × (w.failed ≡ false)
unfolding put_string write_head
string-Writes major s w h =
    let v = put_bytes (head_bytes major (length s)) w in
    let u = put_bytes s v in
    elim (Bool-cases u.failed) [
      | inl e ↦
          let done : put_string major s w ≡ u = rw (e, put_string) refl in
          absurd (cc (sym (ap (λ (x : CborWriter). x.failed) done) ∙ h, e))
      | inr e ↦
          let done : put_string major s w ≡ consumed u = rw (e, put_string) refl in
          let (p, q, a) = put_bytes-Appends s v e in
          let (p', q', a') = put_bytes-Appends (head_bytes major (length s)) w a in
          subst
            (λ x.
              Appends (head_bytes major (length s) ++ s) w x
              × (some (consume_one w.stack) ≡ some x.stack)
              × (w.failed ≡ false))
            (sym done)
            (
              same_bytes (head_bytes major (length s) ++ s) w u w (consumed u) refl refl refl refl
                  refl (Appends-trans (head_bytes major (length s)) s w v u p' p),
              ap (λ t. some (consume_one t)) (sym q' ∙ sym q),
              a',
            )
    ]

float-Writes :
    (bits : ℕ) (w : CborWriter)
    → (f32_val bits w).failed ≡ false
    → Appends (float_bytes bits) w (f32_val bits w)
      × (some (consume_one w.stack) ≡ some (f32_val bits w).stack)
      × (w.failed ≡ false)
unfolding f32_val
float-Writes bits w h =
    let u = put_bytes (float_bytes bits) w in
    elim (Bool-cases u.failed) [
      | inl e ↦
          let done : f32_val bits w ≡ u = rw (e, f32_val) refl in
          absurd (cc (sym (ap (λ (x : CborWriter). x.failed) done) ∙ h, e))
      | inr e ↦
          let done : f32_val bits w ≡ consumed u = rw (e, f32_val) refl in
          subst
            (λ x.
              Appends (float_bytes bits) w x
              × (some (consume_one w.stack) ≡ some x.stack)
              × (w.failed ≡ false))
            (sym done) (scalar-Writes (float_bytes bits) w e)
    ]

-- A call that does not fail appends the bytes of its token, and is one that the profile allows.
pub write_token-Writes :
    (t : Token) (w : CborWriter) → (write_token t w).failed ≡ false → Writes t w
unfolding write_token token_bytes token_stack map_header array_header uint_val int_val bool_val
    null_val tstr_val bstr_val write_head write_simple
write_token-Writes (map_token n) w h = container-Writes true (n * 2) 5 n w h
write_token-Writes (array_token n) w h = container-Writes false n 4 n w h
write_token-Writes (key_token k) w h = key-Writes k w h
write_token-Writes (uint_token v) w h = scalar-Writes (head_bytes 0 v) w h
write_token-Writes (float_token bits) w h = float-Writes bits w h
write_token-Writes (int_token (pos n)) w h = scalar-Writes (head_bytes 0 n) w h
write_token-Writes (int_token (negsuc n)) w h = scalar-Writes (head_bytes 1 n) w h
write_token-Writes (bool_token true) w h = scalar-Writes (0xF5 ∷ []) w h
write_token-Writes (bool_token false) w h = scalar-Writes (0xF4 ∷ []) w h
write_token-Writes null_token w h = scalar-Writes (0xF6 ∷ []) w h
write_token-Writes (text_token s) w h = string-Writes 3 s w h
write_token-Writes (bytes_token b) w h = string-Writes 2 b w h
