-- ===== src/Wire/Cbor/Writer.antt =====
-- wire/cbor/cbor_writer.hpp: the encoder of the deterministic CBOR profile.
use slop_sync.Base.{
  ℕ, ◌+◌, ◌*◌, ◌/◌, ◌%◌, ◌^◌, bit_or, Bool, true, false, not, ◌&&◌, List, [], ◌∷◌, ltb, leb,
  if◌then◌else◌, length, write_at,
}
use slop_sync.Int.{ℤ, pos, negsuc}
use slop_sync.Wire.Cbor.{Frame, Stack, max_depth, consume_one, after_consume}

pub record CborWriter : Type 0 where
  pub out : List ℕ
  pub position : ℕ
  pub failed : Bool
  pub stack : Stack

unfoldable pub new_writer : List ℕ → CborWriter
new_writer out = record { out = out; position = 0; failed = false; stack = [] }

unfoldable pub size : CborWriter → ℕ
size w = if w.failed then 0 else w.position

abbrev pub fail : CborWriter → CborWriter
fail w = record w { failed = true }

-- `ensure` and the writes that follow it.
unfoldable pub put_bytes : List ℕ → CborWriter → CborWriter
put_bytes bytes w =
    if w.failed
    then w
    else if ltb (length w.out) (w.position + length bytes)
    then fail w
    else record w { out = write_at w.position bytes w.out; position = w.position + length bytes }

-- The bytes of a head in shortest form.
unfoldable pub head_bytes : ℕ → ℕ → List ℕ
head_bytes major v =
    let ib0 = major * 2 ^ 5 % 2 ^ 8 in
    if leb v 23
    then bit_or ib0 v ∷ []
    else if leb v 0xFF
    then bit_or ib0 24 ∷ (v % 2 ^ 8 ∷ [])
    else if leb v 0xFFFF
    then bit_or ib0 25 ∷ (v / 2 ^ 8 % 2 ^ 8 ∷ (v % 2 ^ 8 ∷ []))
    else if leb v 0xFFFF_FFFF
    then bit_or ib0 26
      ∷ (v / 2 ^ 24 % 2 ^ 8 ∷ (v / 2 ^ 16 % 2 ^ 8 ∷ (v / 2 ^ 8 % 2 ^ 8 ∷ (v % 2 ^ 8 ∷ []))))
    else bit_or ib0 27
      ∷ (v / 2 ^ 56 % 2 ^ 8
          ∷ (v / 2 ^ 48 % 2 ^ 8
              ∷ (v / 2 ^ 40 % 2 ^ 8
                  ∷ (v / 2 ^ 32 % 2 ^ 8
                      ∷ (v / 2 ^ 24 % 2 ^ 8
                          ∷ (v / 2 ^ 16 % 2 ^ 8 ∷ (v / 2 ^ 8 % 2 ^ 8 ∷ (v % 2 ^ 8 ∷ []))))))))

unfoldable pub write_head : ℕ → ℕ → CborWriter → CborWriter
write_head major v w = put_bytes (head_bytes major v) w

unfoldable pub write_simple : ℕ → CborWriter → CborWriter
write_simple additional w = put_bytes (bit_or (7 * 2 ^ 5 % 2 ^ 8) additional ∷ []) w

abbrev pub consumed : CborWriter → CborWriter
consumed w = record w { stack = consume_one w.stack }

unfoldable pub open_container : Bool → ℕ → CborWriter → CborWriter
open_container is_map remaining w =
    if w.failed
    then w
    else if ltb max_depth (length w.stack + 1)
    then fail w
    else (let frame : Frame = record {
      is_map = is_map;
      remaining = remaining;
      has_last_key = false;
      last_key = 0;
    } in
        record w { stack = after_consume (frame ∷ w.stack) })

unfoldable pub map_header : ℕ → CborWriter → CborWriter
map_header n w = write_head 5 n (open_container true (n * 2) w)

unfoldable pub array_header : ℕ → CborWriter → CborWriter
array_header n w = write_head 4 n (open_container false n w)

-- A key in the innermost frame, `f`.
unfoldable pub key_in : ℕ → Stack → CborWriter → CborWriter
key_in kv [] w = fail w
key_in kv (f ∷ stack) w =
    if not f.is_map
    then fail w
    else if f.has_last_key && leb kv f.last_key
    then fail w
    else (let keyed = record f { has_last_key = true; last_key = kv } in
        consumed (write_head 0 kv (record w { stack = keyed ∷ stack })))

unfoldable pub key_raw : ℕ → CborWriter → CborWriter
key_raw kv w = if w.failed then w else key_in kv w.stack w

unfoldable pub uint_val : ℕ → CborWriter → CborWriter
uint_val v w = consumed (write_head 0 v w)

unfoldable pub int_val : ℤ → CborWriter → CborWriter
int_val (pos n) w = consumed (write_head 0 n w)
int_val (negsuc n) w = consumed (write_head 1 n w)

unfoldable pub bool_val : Bool → CborWriter → CborWriter
bool_val v w = consumed (write_simple (if v then 21 else 20) w)

unfoldable pub null_val : CborWriter → CborWriter
null_val w = consumed (write_simple 22 w)

-- A float is its bit pattern, which is copied.
unfoldable pub float_bytes : ℕ → List ℕ
float_bytes bits =
    0xFA
    ∷ (bits / 2 ^ 24 % 2 ^ 8
        ∷ (bits / 2 ^ 16 % 2 ^ 8 ∷ (bits / 2 ^ 8 % 2 ^ 8 ∷ (bits % 2 ^ 8 ∷ []))))

unfoldable pub f32_val : ℕ → CborWriter → CborWriter
f32_val bits w =
    let put = put_bytes (float_bytes bits) w in if put.failed then put else consumed put

-- The head with the length, and the bytes behind it.
unfoldable pub put_string : ℕ → List ℕ → CborWriter → CborWriter
put_string major s w =
    let put = put_bytes s (write_head major (length s) w) in
    if put.failed then put else consumed put

unfoldable pub tstr_val : List ℕ → CborWriter → CborWriter
tstr_val s w = put_string 3 s w

unfoldable pub bstr_val : List ℕ → CborWriter → CborWriter
bstr_val b w = put_string 2 b w
