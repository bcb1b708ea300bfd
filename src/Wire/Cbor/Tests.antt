-- ===== src/Wire/Cbor/Tests.antt =====
-- The theorems of this part at concrete inputs.
use slop_sync.Base.{
  ℕ, ◌-◌, ◌<◌, ◌≡◌, refl, true, false, some, List, [], ◌∷◌, ◌++◌, arith, take, drop, replicate,
  write_at,
}
use slop_sync.Int.{negsuc}
use slop_sync.Result.{Result, ok, err, truncated}
use slop_sync.Wire.Cbor.{settle}
use slop_sync.Wire.Cbor.Writer.{
  new_writer, size, put_bytes, head_bytes, write_head, write_simple, open_container, map_header,
  array_header, key_in, key_raw, uint_val, int_val, bool_val, null_val, float_bytes, f32_val,
  put_string, tstr_val, bstr_val,
}
use slop_sync.Wire.Cbor.Reader.{
  CborReader, Head, new_reader, peek_type, parse_head, big_endian, enter_container, read_map_header,
  read_array_header, read_key, read_uint, read_string, read_tstr, key_in as key_in_frame,
}
use slop_sync.Wire.Cbor.Advance.{Advances}
use slop_sync.Wire.Cbor.Skip.{skip_value, skip_start, skip_typed, skip_key, skip_value_ends}
use slop_sync.Wire.Cbor.Bounds.{read_token-Advances}
use slop_sync.Wire.Cbor.Canonical.{parse_head-head_bytes_only}
use slop_sync.Wire.Cbor.Token.{
  Token, map_token, array_token, key_token, float_token, int_token, bool_token, null_token,
  text_token, write_token, read_token,
}
use slop_sync.Wire.Cbor.RoundTrip.{write_all, read_all, read_all-write_all}

-- {1: -300, 2: [true, null], 500: "hi", 501: 1.0}
abbrev calls : List Token
calls =
    map_token 4
    ∷ (key_token 1
        ∷ (int_token (negsuc 299)
            ∷ (key_token 2
                ∷ (array_token 2
                    ∷ (bool_token true
                        ∷ (null_token
                            ∷ (key_token 500
                                ∷ (text_token (104 ∷ (105 ∷ []))
                                    ∷ (key_token 501 ∷ (float_token 0x3F80_0000 ∷ []))))))))))

calls_sound : (write_all calls (new_writer (replicate 64 0))).failed ≡ false
unfolding write_all write_token new_writer put_bytes head_bytes write_head write_simple
    open_container map_header array_header key_in key_raw uint_val int_val bool_val null_val
    float_bytes f32_val put_string tstr_val bstr_val settle write_at
calls_sound = refl

calls_size : size (write_all calls (new_writer (replicate 64 0))) ≡ 23
unfolding write_all write_token new_writer put_bytes head_bytes write_head write_simple
    open_container map_header array_header key_in key_raw uint_val int_val bool_val null_val
    float_bytes f32_val put_string tstr_val bstr_val settle write_at size
calls_size = refl

read_all-write_all_example :
    (r : CborReader) × (read_all calls (
        new_reader (
          take
            (size (write_all calls (new_writer (replicate 64 0))))
            (write_all calls (new_writer (replicate 64 0))).out))
      ≡ ok (calls, r))
    × (r.position ≡ size (write_all calls (new_writer (replicate 64 0))))
    × (r.stack ≡ (write_all calls (new_writer (replicate 64 0))).stack)
read_all-write_all_example =
    read_all-write_all calls (replicate 64 0)
      (
        omega arith,
        (
          omega arith,
          (
            omega arith,
            (
              omega arith,
              (
                omega arith,
                (tt, (tt, (omega arith, (omega arith, (omega arith, (omega arith, tt)))))),
              ),
            ),
          ),
        ),
      )
      calls_sound

-- [1, {2: 3}], then one byte more.
abbrev nested : List ℕ
nested = 0x82 ∷ (0x01 ∷ (0xA1 ∷ (0x02 ∷ (0x03 ∷ (0xF6 ∷ [])))))

skip_nested :
    skip_value 13 (new_reader nested)
    ≡ some (ok (record { input = nested; position = 5; stack = [] }))
unfolding skip_value skip_start skip_typed skip_key peek_type read_map_header read_array_header
    enter_container parse_head big_endian read_uint read_key key_in_frame settle new_reader
skip_nested = refl

skip_value_ends_example :
    (res : Result CborReader) × (skip_value 13 (new_reader nested) ≡ some res)
    × ((r' : CborReader) → res ≡ ok r' → Advances (new_reader nested) r')
unfolding new_reader
skip_value_ends_example = skip_value_ends 13 (new_reader nested) (omega arith)

-- A text string that announces more than there is, and one that does not.
abbrev greedy : List ℕ
greedy = 0x63 ∷ (104 ∷ (105 ∷ []))

abbrev modest : List ℕ
modest = 0x62 ∷ (104 ∷ (105 ∷ []))

read_greedy : read_token (text_token []) (new_reader greedy) ≡ err truncated
unfolding read_token read_tstr read_string parse_head new_reader
read_greedy = refl

read_modest :
    read_token (text_token []) (new_reader modest)
    ≡ ok (text_token (104 ∷ (105 ∷ [])), record { input = modest; position = 3; stack = [] })
unfolding read_token read_tstr read_string parse_head new_reader settle
read_modest = refl

read_token-Advances_example :
    Advances (new_reader modest) (record { input = modest; position = 3; stack = [] })
read_token-Advances_example =
    read_token-Advances (text_token []) (text_token (104 ∷ (105 ∷ []))) (new_reader modest)
      (record { input = modest; position = 3; stack = [] }) read_modest

-- 500 in two bytes of argument.
abbrev head_500 : Head
head_500 = record { major = 0; arg = 500; total_bytes = 3 }

parse_500 : parse_head (0x19 ∷ (0x01 ∷ (0xF4 ∷ (0xF6 ∷ [])))) ≡ ok head_500
unfolding parse_head big_endian
parse_500 = refl

parse_head-head_bytes_only_example :
    (head_500.major < 6)
    × (head_bytes head_500.major head_500.arg
          ++ drop (head_500.total_bytes - 1) (0x01 ∷ (0xF4 ∷ (0xF6 ∷ [])))
        ≡ 0x19 ∷ (0x01 ∷ (0xF4 ∷ (0xF6 ∷ []))))
parse_head-head_bytes_only_example =
    parse_head-head_bytes_only 0x19 (0x01 ∷ (0xF4 ∷ (0xF6 ∷ []))) head_500 (omega arith)
      (omega arith, (omega arith, (omega arith, tt))) parse_500
