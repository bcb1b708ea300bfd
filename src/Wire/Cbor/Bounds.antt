-- ===== src/Wire/Cbor/Bounds.antt =====
-- No call of wire/cbor/cbor_reader.hpp leaves its input.
use slop_sync.Base.{◌≡◌, refl, subst, true, false}
use slop_sync.Result.{Result, ok, err}
use slop_sync.Wire.Cbor.Reader.{
  CborReader, read_map_header, read_array_header, read_key, read_uint, read_int, read_bool,
  read_null, read_f32, read_string, read_tstr, read_bstr, enter_container,
}
use slop_sync.Wire.Cbor.Token.{
  Token, map_token, array_token, key_token, uint_token, float_token, int_token, bool_token,
  null_token, text_token, bytes_token, as_token, read_token,
}
use slop_sync.Wire.Cbor.Advance.{
  Advances, uint-Advances, signed-Advances, bool-Advances, null-Advances, float-Advances,
  string-Advances, container-Advances, key-Advances,
}

as_token-Advances :
    {A : Type 0} (f : A → Token) (x : Result (A × CborReader)) (r r' : CborReader) (u : Token)
    → ((a : A) (v : CborReader) → x ≡ ok (a, v) → Advances r v)
    → as_token f x ≡ ok (u, r')
    → Advances r r'
as_token-Advances f (ok (a, v)) r r' u g h =
    let same : v ≡ r' = cc h in subst (Advances r) same (g a v refl)
as_token-Advances f (err e) r r' u g h = absurd (cc h)

-- Whatever the input is and whichever call is made, an answer leaves at least one byte more behind the
-- position, never passes the end of the input (a length that the input announces is no exception), and keeps
-- the number of open containers within four.
pub read_token-Advances :
    (t u : Token) (r r' : CborReader) → read_token t r ≡ ok (u, r') → Advances r r'
unfolding read_token read_map_header read_array_header read_tstr read_bstr
read_token-Advances (map_token n) u r r' h =
    as_token-Advances map_token (enter_container 5 true r) r r' u
      (λ n v q. container-Advances 5 true r v n q) h
read_token-Advances (array_token n) u r r' h =
    as_token-Advances array_token (enter_container 4 false r) r r' u
      (λ n v q. container-Advances 4 false r v n q) h
read_token-Advances (key_token k) u r r' h =
    as_token-Advances key_token (read_key r) r r' u (λ k v q. key-Advances r v k q) h
read_token-Advances (uint_token n) u r r' h =
    as_token-Advances uint_token (read_uint r) r r' u (λ n v q. uint-Advances r v n q) h
read_token-Advances (float_token bits) u r r' h =
    as_token-Advances float_token (read_f32 r) r r' u (λ n v q. float-Advances r v n q) h
read_token-Advances (int_token n) u r r' h =
    as_token-Advances int_token (read_int r) r r' u (λ n v q. signed-Advances r v n q) h
read_token-Advances (bool_token b) u r r' h =
    as_token-Advances bool_token (read_bool r) r r' u (λ b v q. bool-Advances r v b q) h
read_token-Advances null_token u r r' h =
    as_token-Advances (λ _. null_token) (read_null r) r r' u (λ b v q. null-Advances r v b q) h
read_token-Advances (text_token s) u r r' h =
    as_token-Advances text_token (read_string 3 r) r r' u (λ s v q. string-Advances 3 r v s q) h
read_token-Advances (bytes_token s) u r r' h =
    as_token-Advances bytes_token (read_string 2 r) r r' u (λ s v q. string-Advances 2 r v s q) h
