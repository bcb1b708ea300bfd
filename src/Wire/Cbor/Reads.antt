-- ===== src/Wire/Cbor/Reads.antt =====
-- What a call of wire/cbor/cbor_reader.hpp answers on the bytes of a token.
use slop_sync.Base.{
  ℕ, ◌+◌, ◌-◌, ◌*◌, ◌^◌, ◌≤◌, ◌<◌, ◌≡◌, refl, ap, ◌∙◌, inl, inr, Bool, true, false, ◌&&◌, some,
  List, [], ◌∷◌, ◌++◌, append_assoc, arith, ltb, leb, if◌then◌else◌, ltb-true, ltb-false, ==_true,
  Bool-cases, length, take, drop, length-append, length-drop, drop_all-append, take_front-append,
  drop-drop,
}
use slop_sync.Int.{ℤ, pos, negsuc}
use slop_sync.Result.{ok}
use slop_sync.Wire.Cbor.{Frame, Stack, max_depth, consume_one, after_consume}
use slop_sync.Wire.Cbor.Writer.{head_bytes, float_bytes}
use slop_sync.Wire.Cbor.Reader.{
  CborReader, ahead, parse_head, parse_simple, enter_container, key_in, read_map_header,
  read_array_header, read_key, read_uint, read_int, read_bool, read_null, read_f32, read_string,
  read_tstr, read_bstr,
}
use slop_sync.Wire.Cbor.Head.{parse_head-head_bytes, parse_simple-float_bytes}
use slop_sync.Wire.Cbor.Token.{
  Token, map_token, array_token, key_token, uint_token, float_token, int_token, bool_token,
  null_token, text_token, bytes_token, as_token, read_token, token_bytes, token_stack, opened,
  keyed, IsWord,
}

-- The reader behind the bytes of a token, with the frames of `stack`.
abbrev pub behind : CborReader → List ℕ → Stack → CborReader
behind r bytes stack = record r { position = r.position + length bytes; stack = stack }

-- The head at the position of a reader.
head_ahead :
    (r : CborReader) (major v : ℕ) (rest : List ℕ)
    → major < 6
    → v < 2 ^ 64
    → ahead r ≡ head_bytes major v ++ rest
    → parse_head (ahead r)
      ≡ ok (record { major = major; arg = v; total_bytes = length (head_bytes major v) })
head_ahead r major v rest hm hv e = ap parse_head e ∙ parse_head-head_bytes major v rest hm hv

uint-Reads :
    (v : ℕ) (r : CborReader) (rest : List ℕ)
    → v < 2 ^ 64
    → ahead r ≡ head_bytes 0 v ++ rest
    → read_uint r ≡ ok (v, behind r (head_bytes 0 v) (consume_one r.stack))
unfolding read_uint
uint-Reads v r rest h e = rw (head_ahead r 0 v rest (omega arith) h e, read_uint) refl

container-Reads :
    (major : ℕ) (is_map : Bool) (n : ℕ) (r : CborReader) (st : Stack) (rest : List ℕ)
    → major < 6
    → n < 2 ^ 32
    → ahead r ≡ head_bytes major n ++ rest
    → opened is_map (if is_map then n * 2 else n) r.stack ≡ some st
    → enter_container major is_map r ≡ ok (n, behind r (head_bytes major n) st)
unfolding enter_container opened
container-Reads major is_map n r st rest hm hn e o =
    elim (Bool-cases (ltb max_depth (length r.stack + 1))) [
      | inl f ↦ absurd (ground (arith, o, f))
      | inr f ↦
          let frame : Frame = record {
            is_map = is_map;
            remaining = if is_map then n * 2 else n;
            has_last_key = false;
            last_key = 0;
          } in
          let opens : opened is_map (if is_map then n * 2 else n) r.stack
              ≡ some (after_consume (frame ∷ r.stack)) =
            rw (f, opened) refl in
          let known : after_consume (frame ∷ r.stack) ≡ st = cc (opens, o) in
          let read : enter_container major is_map r
              ≡ ok (n, behind r (head_bytes major n) (after_consume (frame ∷ r.stack))) =
            rw
              (
                head_ahead r major n rest hm (omega (arith, hn)) e,
                ==_true major major refl,
                f,
                ltb-false 0xFFFF_FFFF n (omega (arith, hn)),
                enter_container,
              )
              refl in
          read ∙ ap (λ s. ok (n, behind r (head_bytes major n) s)) known
    ]

key_in-Reads :
    (k n : ℕ) (stack : Stack) (r : CborReader) (st : Stack)
    → keyed k stack ≡ some st
    → key_in (record { major = 0; arg = k; total_bytes = n }) stack r
      ≡ ok (k, record r { position = r.position + n; stack = st })
unfolding key_in keyed
key_in-Reads k n [] r st o = absurd (cc o)
key_in-Reads k n (f ∷ stack) r st o = elim (Bool-cases f.is_map) [
  | inr a ↦ absurd (ground (arith, o, a))
  | inl a ↦ elim (Bool-cases (f.has_last_key && leb k f.last_key)) [
    | inl b ↦ absurd (ground (arith, o, a, b))
    | inr b ↦
        let top : Frame = record f { has_last_key = true; last_key = k } in
        let opens : keyed k (f ∷ stack) ≡ some (consume_one (top ∷ stack)) =
          simp (a, b, keyed) refl in
        let known : consume_one (top ∷ stack) ≡ st = cc (opens, o) in
        let read : key_in (record { major = 0; arg = k; total_bytes = n }) (f ∷ stack) r
            ≡ ok (k, record r { position = r.position + n; stack = consume_one (top ∷ stack) }) =
          simp (a, b, key_in) refl in
        read ∙ ap (λ s. ok (k, record r { position = r.position + n; stack = s })) known
  ]
]

key-Reads :
    (k : ℕ) (r : CborReader) (st : Stack) (rest : List ℕ)
    → k < 2 ^ 64
    → ahead r ≡ head_bytes 0 k ++ rest
    → keyed k r.stack ≡ some st
    → read_key r ≡ ok (k, behind r (head_bytes 0 k) st)
unfolding read_key
key-Reads k r st rest h e o =
    rw (head_ahead r 0 k rest (omega arith) h e, read_key)
      (key_in-Reads k (length (head_bytes 0 k)) r.stack r st o)

float-Reads :
    (bits : ℕ) (r : CborReader) (rest : List ℕ)
    → bits < 2 ^ 32
    → ahead r ≡ float_bytes bits ++ rest
    → read_f32 r ≡ ok (bits, behind r (float_bytes bits) (consume_one r.stack))
unfolding read_f32 float_bytes
float-Reads bits r rest h e =
    rw (ap parse_simple e ∙ parse_simple-float_bytes bits rest h, read_f32) refl

string-Reads :
    (major : ℕ) (s : List ℕ) (r : CborReader) (rest : List ℕ)
    → major < 6
    → length s < 2 ^ 64
    → ahead r ≡ (head_bytes major (length s) ++ s) ++ rest
    → read_string major r
      ≡ ok (s, behind r (head_bytes major (length s) ++ s) (consume_one r.stack))
unfolding read_string
string-Reads major s r rest hm hs e =
    let hb = head_bytes major (length s) in
    let apart : ahead r ≡ hb ++ (s ++ rest) = e ∙ append_assoc hb s rest in
    let after : drop (r.position + length hb) r.input ≡ s ++ rest =
      drop-drop r.position (length hb) r.input
      ∙ (ap (drop (length hb)) apart ∙ drop_all-append hb (s ++ rest)) in
    let room : length s ≤ length r.input - (r.position + length hb) = omega (
      arith,
      ap length after,
      length-drop (r.position + length hb) r.input,
      length-append s rest,
    ) in
    let taken : take (length s) (drop (r.position + length hb) r.input) ≡ s =
      ap (take (length s)) after ∙ take_front-append s rest in
    let size : r.position + length hb + length s ≡ r.position + length (hb ++ s) =
      omega (arith, length-append hb s) in
    let read : read_string major r
        ≡ ok (
          take (length s) (drop (r.position + length hb) r.input),
          record r { position = r.position + length hb + length s; stack = consume_one r.stack },
        ) =
      rw
        (
          head_ahead r major (length s) (s ++ rest) hm hs apart,
          ==_true major major refl,
          ltb-false (length r.input - (r.position + length hb)) (length s) room,
          read_string,
        )
        refl in
    read ∙ (λ i. ok (taken i, record r { position = size i; stack = consume_one r.stack }))

signed-Reads :
    (v : ℤ) (r : CborReader) (rest : List ℕ)
    → IsWord (int_token v)
    → ahead r ≡ token_bytes (int_token v) ++ rest
    → read_int r ≡ ok (v, behind r (token_bytes (int_token v)) (consume_one r.stack))
unfolding read_int token_bytes
signed-Reads (pos n) r rest h e =
    rw (head_ahead r 0 n rest (omega arith) (omega (arith, h)) e, ltb-true n (2 ^ 63) h, read_int)
      refl
signed-Reads (negsuc n) r rest h e =
    rw (head_ahead r 1 n rest (omega arith) (omega (arith, h)) e, ltb-true n (2 ^ 63) h, read_int)
      refl

bool-Reads :
    (v : Bool) (r : CborReader) (rest : List ℕ)
    → ahead r ≡ token_bytes (bool_token v) ++ rest
    → read_bool r ≡ ok (v, behind r (token_bytes (bool_token v)) (consume_one r.stack))
unfolding read_bool parse_simple token_bytes
bool-Reads true r rest e = rw (ap parse_simple e, read_bool) refl
bool-Reads false r rest e = rw (ap parse_simple e, read_bool) refl

null-Reads :
    (r : CborReader) (rest : List ℕ)
    → ahead r ≡ 0xF6 ∷ rest
    → read_null r ≡ ok (true, behind r (0xF6 ∷ []) (consume_one r.stack))
unfolding read_null parse_simple
null-Reads r rest e = rw (ap parse_simple e, read_null) refl

closed :
    {A : Type 0} (f : A → Token) (a : A) (r : CborReader) (bytes : List ℕ) (st : Stack)
    → some (consume_one r.stack) ≡ some st
    → as_token f (ok (a, behind r bytes (consume_one r.stack))) ≡ ok (f a, behind r bytes st)
closed f a r bytes st o =
    let known : consume_one r.stack ≡ st = cc o in ap (λ s. ok (f a, behind r bytes s)) known

-- On the bytes of a token that the profile allows here, the reader answers the token.
pub read_token-Reads :
    (t : Token) (r : CborReader) (st : Stack) (rest : List ℕ)
    → IsWord t
    → ahead r ≡ token_bytes t ++ rest
    → token_stack t r.stack ≡ some st
    → read_token t r ≡ ok (t, behind r (token_bytes t) st)
unfolding read_token token_stack token_bytes read_map_header read_array_header read_tstr read_bstr
read_token-Reads (map_token n) r st rest w e o =
    ap (as_token map_token) (container-Reads 5 true n r st rest (omega arith) w e o)
read_token-Reads (array_token n) r st rest w e o =
    ap (as_token array_token) (container-Reads 4 false n r st rest (omega arith) w e o)
read_token-Reads (key_token k) r st rest w e o =
    ap (as_token key_token) (key-Reads k r st rest w e o)
read_token-Reads (uint_token v) r st rest w e o =
    ap (as_token uint_token) (uint-Reads v r rest w e) ∙ closed uint_token v r (head_bytes 0 v) st o
read_token-Reads (float_token bits) r st rest w e o =
    ap (as_token float_token) (float-Reads bits r rest w e)
    ∙ closed float_token bits r (float_bytes bits) st o
read_token-Reads (int_token (pos n)) r st rest w e o =
    ap (as_token int_token) (signed-Reads (pos n) r rest w e)
    ∙ closed int_token (pos n) r (head_bytes 0 n) st o
read_token-Reads (int_token (negsuc n)) r st rest w e o =
    ap (as_token int_token) (signed-Reads (negsuc n) r rest w e)
    ∙ closed int_token (negsuc n) r (head_bytes 1 n) st o
read_token-Reads (bool_token v) r st rest w e o =
    ap (as_token bool_token) (bool-Reads v r rest e)
    ∙ closed bool_token v r (token_bytes (bool_token v)) st o
read_token-Reads null_token r st rest w e o =
    ap (as_token (λ _. null_token)) (null-Reads r rest e)
    ∙ closed (λ _. null_token) true r (0xF6 ∷ []) st o
read_token-Reads (text_token s) r st rest w e o =
    ap (as_token text_token) (string-Reads 3 s r rest (omega arith) w e)
    ∙ closed text_token s r (head_bytes 3 (length s) ++ s) st o
read_token-Reads (bytes_token b) r st rest w e o =
    ap (as_token bytes_token) (string-Reads 2 b r rest (omega arith) w e)
    ∙ closed bytes_token b r (head_bytes 2 (length b) ++ b) st o
