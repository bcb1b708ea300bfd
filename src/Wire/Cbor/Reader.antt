-- ===== src/Wire/Cbor/Reader.antt =====
-- wire/cbor/cbor_reader.hpp: the strict decoder of the deterministic CBOR profile.
use slop_sync.Base.{
  ℕ, ◌+◌, ◌-◌, ◌*◌, ◌/◌, ◌%◌, ◌^◌, bit_and, bit_or, Bool, true, false, not, ◌&&◌, ◌||◌, List, [],
  ◌∷◌, ltb, leb, ◌==◌, if◌then◌else◌, length, take, drop,
}
use slop_sync.Int.{ℤ, pos, negsuc}
use slop_sync.Result.{
  Result, ok, err, truncated, malformed, profile_violation, depth_exceeded, ◌>>=◌,
}
use slop_sync.Wire.Cbor.{Frame, Stack, max_depth, consume_one, after_consume}

-- After an error a reader is not used again, so an operation answers the new reader only with a value.
pub record CborReader : Type 0 where
  pub input : List ℕ
  pub position : ℕ
  pub stack : Stack

unfoldable pub new_reader : List ℕ → CborReader
new_reader input = record { input = input; position = 0; stack = [] }

abbrev pub bytes_consumed : CborReader → ℕ
bytes_consumed r = r.position

-- The bytes from the position on.
abbrev pub ahead : CborReader → List ℕ
ahead r = drop r.position r.input

pub data MajorType : Type 0 where
  uint neg_int byte_string text_string array map_of tag simple : MajorType

abbrev pub major_type : ℕ → MajorType
major_type major =
    if major == 0
    then uint
    else if major == 1
    then neg_int
    else if major == 2
    then byte_string
    else if major == 3
    then text_string
    else if major == 4
    then array
    else if major == 5
    then map_of
    else if major == 6
    then tag
    else simple

unfoldable pub peek_type : CborReader → Result MajorType
peek_type r = elim (ahead r) [ [] ↦ err truncated | ib ∷ rest ↦ ok (major_type (ib / 2 ^ 5)) ]

pub record Head : Type 0 where
  pub major : ℕ
  pub arg : ℕ
  pub total_bytes : ℕ

-- `v = (v << 8) | byte` in a uint64_t.
unfoldable pub big_endian : ℕ → List ℕ → ℕ
big_endian v [] = v
big_endian v (b ∷ bytes) = big_endian (bit_or (v * 2 ^ 8 % 2 ^ 64) b) bytes

-- How many bytes of argument the additional information announces.
abbrev pub arg_bytes : ℕ → ℕ
arg_bytes ai =
    if ai == 24
    then 1
    else if ai == 25
    then 2
    else if ai == 26
    then 4
    else if ai == 27
    then 8
    else 0

-- The least argument that needs so many bytes.
abbrev pub min_for_size : ℕ → ℕ
min_for_size n = if n == 1 then 24 else if n == 2 then 256 else if n == 4 then 65536 else 4294967296

unfoldable pub parse_head : List ℕ → Result Head
parse_head [] = err truncated
parse_head (ib ∷ rest) =
    let major = ib / 2 ^ 5 in
    let ai = bit_and ib 0x1F in
    if major == 6
    then err profile_violation
    else if major == 7
    then err malformed
    else if leb ai 23
    then ok (record { major = major; arg = ai; total_bytes = 1 })
    else (let nbytes = arg_bytes ai in
        if nbytes == 0
        then err (if ai == 31 then profile_violation else malformed)
        else if ltb (length rest) nbytes
        then err truncated
        else (let v = big_endian 0 (take nbytes rest) in
            if ltb v (min_for_size nbytes)
            then err profile_violation
            else ok (record { major = major; arg = v; total_bytes = 1 + nbytes })))

pub data SimpleKind : Type 0 where
  false_kind true_kind null_kind float32_kind : SimpleKind

pub record SimpleHead : Type 0 where
  pub kind : SimpleKind
  pub float_bits : ℕ
  pub total_bytes : ℕ

-- `bits = (bits << 8) | byte` in a uint32_t.
unfoldable pub big_endian32 : ℕ → List ℕ → ℕ
big_endian32 v [] = v
big_endian32 v (b ∷ bytes) = big_endian32 (bit_or (v * 2 ^ 8 % 2 ^ 32) b) bytes

unfoldable pub parse_simple : List ℕ → Result SimpleHead
parse_simple [] = err truncated
parse_simple (ib ∷ rest) =
    let ai = bit_and ib 0x1F in
    if not (ib / 2 ^ 5 == 7)
    then err malformed
    else if ai == 20
    then ok (record { kind = false_kind; float_bits = 0; total_bytes = 1 })
    else if ai == 21
    then ok (record { kind = true_kind; float_bits = 0; total_bytes = 1 })
    else if ai == 22
    then ok (record { kind = null_kind; float_bits = 0; total_bytes = 1 })
    else if ai == 26
    then (if ltb (length rest) 4
        then err truncated
        else ok (record {
          kind = float32_kind;
          float_bits = big_endian32 0 (take 4 rest);
          total_bytes = 5;
        }))
    else if ai == 28 || (ai == 29) || (ai == 30)
    then err malformed
    else err profile_violation

-- `_pos += n; consumeOne()`.
abbrev pub advanced : CborReader → ℕ → CborReader
advanced r n = record r { position = r.position + n; stack = consume_one r.stack }

-- A head of one of the majors 0 to 5, with the reader where it was.
unfoldable pub enter_container : ℕ → Bool → CborReader → Result (ℕ × CborReader)
enter_container major is_map r = do
  h ← parse_head (ahead r)
  if not (h.major == major)
      then err malformed
      else if ltb max_depth (length r.stack + 1)
      then err depth_exceeded
      else if ltb 0xFFFF_FFFF h.arg
      then err malformed
      else (let frame : Frame = record {
        is_map = is_map;
        remaining = if is_map then h.arg * 2 else h.arg;
        has_last_key = false;
        last_key = 0;
      } in
          ok (
            h.arg,
            record r {
              position = r.position + h.total_bytes;
              stack = after_consume (frame ∷ r.stack);
            },
          ))

unfoldable pub read_map_header : CborReader → Result (ℕ × CborReader)
read_map_header r = enter_container 5 true r

unfoldable pub read_array_header : CborReader → Result (ℕ × CborReader)
read_array_header r = enter_container 4 false r

-- A key in the innermost frame, `f`.
unfoldable pub key_in : Head → Stack → CborReader → Result (ℕ × CborReader)
key_in h [] r = err malformed
key_in h (f ∷ stack) r =
    if not f.is_map
    then err malformed
    else if f.has_last_key && leb h.arg f.last_key
    then err profile_violation
    else (let keyed = record f { has_last_key = true; last_key = h.arg } in
        ok (h.arg, advanced (record r { stack = keyed ∷ stack }) h.total_bytes))

unfoldable pub read_key : CborReader → Result (ℕ × CborReader)
read_key r = do
  h ← parse_head (ahead r)
  if not (h.major == 0) then err malformed else key_in h r.stack r

unfoldable pub read_uint : CborReader → Result (ℕ × CborReader)
read_uint r = do
  h ← parse_head (ahead r)
  if not (h.major == 0) then err malformed else ok (h.arg, advanced r h.total_bytes)

-- `int64_t(v)` and `-1 - int64_t(v)` of a 64-bit pattern.
abbrev pub signed64 : ℕ → ℤ
signed64 v = if ltb v (2 ^ 63) then pos v else negsuc (2 ^ 64 - v - 1)

abbrev pub minus_one_less : ℕ → ℤ
minus_one_less v = if ltb v (2 ^ 63) then negsuc v else pos (2 ^ 64 - v - 1)

unfoldable pub read_int : CborReader → Result (ℤ × CborReader)
read_int r = do
  h ← parse_head (ahead r)
  if h.major == 0
      then ok (signed64 h.arg, advanced r h.total_bytes)
      else if h.major == 1
      then ok (minus_one_less h.arg, advanced r h.total_bytes)
      else err malformed

unfoldable pub read_bool : CborReader → Result (Bool × CborReader)
read_bool r = do
  s ← parse_simple (ahead r)
  elim s.kind [
    | false_kind ↦ ok (false, advanced r s.total_bytes)
    | true_kind ↦ ok (true, advanced r s.total_bytes)
    | null_kind ↦ err malformed
    | float32_kind ↦ err malformed
  ]

unfoldable pub read_null : CborReader → Result (Bool × CborReader)
read_null r = do
  s ← parse_simple (ahead r)
  elim s.kind [ null_kind ↦ ok (true, advanced r s.total_bytes) | _ ↦ err malformed ]

unfoldable pub read_f32 : CborReader → Result (ℕ × CborReader)
read_f32 r = do
  s ← parse_simple (ahead r)
  elim s.kind [ float32_kind ↦ ok (s.float_bits, advanced r s.total_bytes) | _ ↦ err malformed ]

-- The length is compared with what is left, so that no sum can wrap.
unfoldable pub read_string : ℕ → CborReader → Result (List ℕ × CborReader)
read_string major r = do
  h ← parse_head (ahead r)
  if not (h.major == major)
      then err malformed
      else (let start = r.position + h.total_bytes in
          if ltb (length r.input - start) h.arg
          then err truncated
          else ok (
            take h.arg (drop start r.input),
            record r { position = start + h.arg; stack = consume_one r.stack },
          ))

unfoldable pub read_tstr : CborReader → Result (List ℕ × CborReader)
read_tstr r = read_string 3 r

unfoldable pub read_bstr : CborReader → Result (List ℕ × CborReader)
read_bstr r = read_string 2 r
