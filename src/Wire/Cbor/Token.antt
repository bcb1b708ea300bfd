-- ===== src/Wire/Cbor/Token.antt =====
-- A call of the writer of wire/cbor/ and the call of the reader that answers it.
use slop_sync.Base.{
  ℕ, ◌+◌, ◌*◌, ◌^◌, ◌<◌, Bool, true, false, not, ◌&&◌, Option, none, some, List, [], ◌∷◌, ◌++◌, ltb,
  leb, if◌then◌else◌, length,
}
use slop_sync.Int.{ℤ, pos, negsuc}
use slop_sync.Result.{Result, ok, err}
use slop_sync.Wire.Cbor.{Stack, max_depth, consume_one, after_consume}
use slop_sync.Wire.Cbor.Writer.{
  CborWriter, map_header, array_header, key_raw, uint_val, int_val, bool_val, null_val, f32_val,
  tstr_val, bstr_val, head_bytes, float_bytes,
}
use slop_sync.Wire.Cbor.Reader.{
  CborReader, read_map_header, read_array_header, read_key, read_uint, read_int, read_bool,
  read_null, read_f32, read_tstr, read_bstr,
}

pub data Token : Type 0 where
  map_token array_token key_token uint_token float_token : ℕ → Token
  int_token : ℤ → Token
  bool_token : Bool → Token
  null_token : Token
  text_token bytes_token : List ℕ → Token

unfoldable pub write_token : Token → CborWriter → CborWriter
write_token (map_token n) = map_header n
write_token (array_token n) = array_header n
write_token (key_token k) = key_raw k
write_token (uint_token v) = uint_val v
write_token (float_token bits) = f32_val bits
write_token (int_token v) = int_val v
write_token (bool_token v) = bool_val v
write_token null_token = null_val
write_token (text_token s) = tstr_val s
write_token (bytes_token b) = bstr_val b

-- An answer of the reader as a call of the writer.
abbrev pub as_token :
    {A : Type 0} → (A → Token) → Result (A × CborReader) → Result (Token × CborReader)
as_token f (ok (a, r)) = ok (f a, r)
as_token f (err e) = err e

-- Reads what the writer wrote for a token of the same kind; the token's content is not looked at.
unfoldable pub read_token : Token → CborReader → Result (Token × CborReader)
read_token (map_token n) r = as_token map_token (read_map_header r)
read_token (array_token n) r = as_token array_token (read_array_header r)
read_token (key_token k) r = as_token key_token (read_key r)
read_token (uint_token v) r = as_token uint_token (read_uint r)
read_token (float_token bits) r = as_token float_token (read_f32 r)
read_token (int_token v) r = as_token int_token (read_int r)
read_token (bool_token v) r = as_token bool_token (read_bool r)
read_token null_token r = as_token (λ _. null_token) (read_null r)
read_token (text_token s) r = as_token text_token (read_tstr r)
read_token (bytes_token b) r = as_token bytes_token (read_bstr r)

-- The arguments fit their machine types.
abbrev pub IsWord : Token → Type 0
IsWord (map_token n) = n < 2 ^ 32
IsWord (array_token n) = n < 2 ^ 32
IsWord (key_token k) = k < 2 ^ 64
IsWord (uint_token v) = v < 2 ^ 64
IsWord (float_token bits) = bits < 2 ^ 32
IsWord (int_token (pos n)) = n < 2 ^ 63
IsWord (int_token (negsuc n)) = n < 2 ^ 63
IsWord (bool_token v) = Unit
IsWord null_token = Unit
IsWord (text_token s) = length s < 2 ^ 64
IsWord (bytes_token b) = length b < 2 ^ 64

unfoldable pub token_bytes : Token → List ℕ
token_bytes (map_token n) = head_bytes 5 n
token_bytes (array_token n) = head_bytes 4 n
token_bytes (key_token k) = head_bytes 0 k
token_bytes (uint_token v) = head_bytes 0 v
token_bytes (float_token bits) = float_bytes bits
token_bytes (int_token (pos n)) = head_bytes 0 n
token_bytes (int_token (negsuc n)) = head_bytes 1 n
token_bytes (bool_token v) = (if v then 0xF5 else 0xF4) ∷ []
token_bytes null_token = 0xF6 ∷ []
token_bytes (text_token s) = head_bytes 3 (length s) ++ s
token_bytes (bytes_token b) = head_bytes 2 (length b) ++ b

unfoldable pub opened : Bool → ℕ → Stack → Option Stack
opened is_map remaining stack =
    if ltb max_depth (length stack + 1)
    then none
    else some (
        after_consume (
          record { is_map = is_map; remaining = remaining; has_last_key = false; last_key = 0 }
          ∷ stack))

unfoldable pub keyed : ℕ → Stack → Option Stack
keyed k [] = none
keyed k (f ∷ stack) =
    if not f.is_map
    then none
    else if f.has_last_key && leb k f.last_key
    then none
    else some (consume_one (record f { has_last_key = true; last_key = k } ∷ stack))

-- The frames after a token; `none` where the profile forbids it.
unfoldable pub token_stack : Token → Stack → Option Stack
token_stack (map_token n) stack = opened true (n * 2) stack
token_stack (array_token n) stack = opened false n stack
token_stack (key_token k) stack = keyed k stack
token_stack (uint_token v) stack = some (consume_one stack)
token_stack (float_token bits) stack = some (consume_one stack)
token_stack (int_token v) stack = some (consume_one stack)
token_stack (bool_token v) stack = some (consume_one stack)
token_stack null_token stack = some (consume_one stack)
token_stack (text_token s) stack = some (consume_one stack)
token_stack (bytes_token b) stack = some (consume_one stack)
