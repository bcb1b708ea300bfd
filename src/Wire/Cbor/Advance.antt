-- ===== src/Wire/Cbor/Advance.antt =====
-- A reader of wire/cbor/ moves on within its input, and keeps the limit on nesting.
use slop_sync.Base.{
  ℕ, ◌+◌, ◌-◌, ◌*◌, ◌≤◌, ◌<◌, ◌≡◌, refl, ap, subst, inl, inr, Bool, true, false, List, [], ◌∷◌,
  arith, ltb, ◌==◌, if◌then◌else◌, Bool-cases, length, length-drop,
}
use slop_sync.Int.{ℤ}
use slop_sync.Result.{ok, Result-cases}
use slop_sync.Wire.Cbor.{Frame, Stack, max_depth, settle, consume_one, after_consume, spent}
use slop_sync.Wire.Cbor.Reader.{
  CborReader, Head, SimpleHead, ahead, advanced, parse_head, parse_simple, enter_container, key_in,
  read_key, read_uint, read_int, read_bool, read_null, read_f32, read_string,
}

-- An answer leaves at least one byte behind it, none beyond the end, and at most four open frames.
pub record Advances (r r' : CborReader) : Type 0 where
  pub input : r'.input ≡ r.input
  pub moved : r.position < r'.position
  pub inside : r'.position ≤ length r'.input
  pub shallow : length r.stack ≤ max_depth → length r'.stack ≤ max_depth

pub settle-length : (owed : Bool) (stack : Stack) → length (settle owed stack) ≤ length stack
unfolding settle
settle-length owed [] = omega arith
settle-length owed (f ∷ stack) = elim (Bool-cases ((if owed then spent f else f).remaining == 0)) [
  | inl e ↦ rw (e, settle) (omega (arith, settle-length true stack))
  | inr e ↦ rw (e, settle) (omega arith)
]

pub parse_head-bound :
    (bytes : List ℕ) (h : Head)
    → parse_head bytes ≡ ok h
    → (1 ≤ h.total_bytes) × (h.total_bytes ≤ length bytes)
unfolding parse_head
parse_head-bound [] h e = absurd (cc e)
parse_head-bound (ib ∷ rest) h e = ground (arith, e)

pub parse_simple-bound :
    (bytes : List ℕ) (h : SimpleHead)
    → parse_simple bytes ≡ ok h
    → (1 ≤ h.total_bytes) × (h.total_bytes ≤ length bytes)
unfolding parse_simple
parse_simple-bound [] h e = absurd (cc e)
parse_simple-bound (ib ∷ rest) h e = ground (arith, e)

pub advanced-Advances :
    (r : CborReader) (n : ℕ) → 1 ≤ n → n ≤ length (ahead r) → Advances r (advanced r n)
advanced-Advances r n h k = record {
  input = refl;
  moved = omega (arith, h);
  inside = omega (arith, h, k, length-drop r.position r.input);
  shallow = λ d. omega (arith, d, settle-length true r.stack);
}

pub uint-Advances : (r r' : CborReader) (v : ℕ) → read_uint r ≡ ok (v, r') → Advances r r'
unfolding read_uint
uint-Advances r r' v h = elim (Result-cases (parse_head (ahead r))) [
  | inl (e, q) ↦ absurd (ground (arith, h, q))
  | inr (a, q) ↦
      let (low, high) = parse_head-bound (ahead r) a q in
      let moved : advanced r a.total_bytes ≡ r' = ground (arith, h, q) in
      subst (Advances r) moved (advanced-Advances r a.total_bytes low high)
]

pub signed-Advances : (r r' : CborReader) (v : ℤ) → read_int r ≡ ok (v, r') → Advances r r'
unfolding read_int
signed-Advances r r' v h = elim (Result-cases (parse_head (ahead r))) [
  | inl (e, q) ↦ absurd (ground (arith, h, q))
  | inr (a, q) ↦
      let (low, high) = parse_head-bound (ahead r) a q in
      let moved : advanced r a.total_bytes ≡ r' = ground (arith, h, q) in
      subst (Advances r) moved (advanced-Advances r a.total_bytes low high)
]

pub bool-Advances : (r r' : CborReader) (v : Bool) → read_bool r ≡ ok (v, r') → Advances r r'
unfolding read_bool
bool-Advances r r' v h = elim (Result-cases (parse_simple (ahead r))) [
  | inl (e, q) ↦ absurd (ground (arith, h, q))
  | inr (a, q) ↦
      let (low, high) = parse_simple-bound (ahead r) a q in
      let moved : advanced r a.total_bytes ≡ r' = ground (arith, h, q) in
      subst (Advances r) moved (advanced-Advances r a.total_bytes low high)
]

pub null-Advances : (r r' : CborReader) (v : Bool) → read_null r ≡ ok (v, r') → Advances r r'
unfolding read_null
null-Advances r r' v h = elim (Result-cases (parse_simple (ahead r))) [
  | inl (e, q) ↦ absurd (ground (arith, h, q))
  | inr (a, q) ↦
      let (low, high) = parse_simple-bound (ahead r) a q in
      let moved : advanced r a.total_bytes ≡ r' = ground (arith, h, q) in
      subst (Advances r) moved (advanced-Advances r a.total_bytes low high)
]

pub float-Advances : (r r' : CborReader) (v : ℕ) → read_f32 r ≡ ok (v, r') → Advances r r'
unfolding read_f32
float-Advances r r' v h = elim (Result-cases (parse_simple (ahead r))) [
  | inl (e, q) ↦ absurd (ground (arith, h, q))
  | inr (a, q) ↦
      let (low, high) = parse_simple-bound (ahead r) a q in
      let moved : advanced r a.total_bytes ≡ r' = ground (arith, h, q) in
      subst (Advances r) moved (advanced-Advances r a.total_bytes low high)
]

pub string-Advances :
    (major : ℕ) (r r' : CborReader) (v : List ℕ) → read_string major r ≡ ok (v, r') → Advances r r'
unfolding read_string
string-Advances major r r' v h = elim (Result-cases (parse_head (ahead r))) [
  | inl (e, q) ↦ absurd (ground (arith, h, q))
  | inr (a, q) ↦
      let (low, high) = parse_head-bound (ahead r) a q in
      let there = record r {
        position = r.position + a.total_bytes + a.arg;
        stack = consume_one r.stack;
      } in
      elim (Bool-cases (ltb (length r.input - (r.position + a.total_bytes)) a.arg)) [
        | inl f ↦ absurd (ground (arith, h, q, f))
        | inr f ↦
            let moved : there ≡ r' = ground (arith, h, q, f) in
            let room : a.arg ≤ length r.input - (r.position + a.total_bytes) = ground (arith, f) in
            let start = length-drop r.position r.input in
            subst (Advances r) moved (record {
              input = refl;
              moved = omega (arith, low);
              inside = omega (arith, low, high, room, start);
              shallow = λ d. omega (arith, d, settle-length true r.stack);
            })
      ]
]

pub container-Advances :
    (major : ℕ) (is_map : Bool) (r r' : CborReader) (n : ℕ)
    → enter_container major is_map r ≡ ok (n, r')
    → Advances r r'
unfolding enter_container
container-Advances major is_map r r' n h = elim (Result-cases (parse_head (ahead r))) [
  | inl (e, q) ↦ absurd (ground (arith, h, q))
  | inr (a, q) ↦
      let (low, high) = parse_head-bound (ahead r) a q in
      let frame : Frame = record {
        is_map = is_map;
        remaining = if is_map then a.arg * 2 else a.arg;
        has_last_key = false;
        last_key = 0;
      } in
      let there = record r {
        position = r.position + a.total_bytes;
        stack = after_consume (frame ∷ r.stack);
      } in
      elim (Bool-cases (ltb max_depth (length r.stack + 1))) [
        | inl f ↦ absurd (ground (arith, h, q, f))
        | inr f ↦
            let moved : there ≡ r' = ground (arith, h, q, f) in
            let start = length-drop r.position r.input in
            let depth : length r.stack + 1 ≤ max_depth = ground (arith, f) in
            subst (Advances r) moved (record {
              input = refl;
              moved = omega (arith, low);
              inside = omega (arith, low, high, start);
              shallow = λ d. omega (arith, depth, settle-length false (frame ∷ r.stack));
            })
      ]
]

key_in-Advances :
    (a : Head) (stack : Stack) (r r' : CborReader) (k : ℕ)
    → 1 ≤ a.total_bytes
    → a.total_bytes ≤ length (ahead r)
    → stack ≡ r.stack
    → key_in a stack r ≡ ok (k, r')
    → Advances r r'
unfolding key_in
key_in-Advances a [] r r' k low high same h = absurd (cc h)
key_in-Advances a (f ∷ stack) r r' k low high same h =
    let top : Frame = record f { has_last_key = true; last_key = a.arg } in
    let there = advanced (record r { stack = top ∷ stack }) a.total_bytes in
    let start = length-drop r.position r.input in
    let moved : there ≡ r' = ground (arith, h) in
    subst (Advances r) moved (record {
      input = refl;
      moved = omega (arith, low);
      inside = omega (arith, low, high, start);
      shallow = λ d. omega (arith, d, ap length same, settle-length true (top ∷ stack));
    })

pub key-Advances : (r r' : CborReader) (k : ℕ) → read_key r ≡ ok (k, r') → Advances r r'
unfolding read_key
key-Advances r r' k h = elim (Result-cases (parse_head (ahead r))) [
  | inl (e, q) ↦ absurd (ground (arith, h, q))
  | inr (a, q) ↦
      let (low, high) = parse_head-bound (ahead r) a q in
      key_in-Advances a r.stack r r' k low high refl (ground (arith, h, q))
]
