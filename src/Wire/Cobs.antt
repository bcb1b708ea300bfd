-- ===== src/Wire/Cobs.antt =====
-- wire/serial_cobs.hpp: the byte stuffing of the serial binding. A span is the list of its bytes;
-- `dst` is passed on as the functions write to it.
pub mod Blocks
pub mod Encode
pub mod Decode
pub mod Bounds
pub mod RoundTrip
mod Tests
use slop_sync.Base.{
  ℕ, zero, suc, ◌+◌, ◌-◌, ◌*◌, ◌/◌, ◌%◌, ◌^◌, ◌≤◌, ◌<◌, min, bit_and, bit_or, bit_xor, ◌≡◌, refl,
  sym, ap, ◌∙◌, subst, ◌≢◌, ◌↔◌, ◌⊎◌, inl, inr, Bool, true, false, not, ◌&&◌, ◌||◌, Option, none,
  some, List, [], ◌∷◌, ◌++◌, map, append-nil, append_assoc, arith, ltb, leb, ◌==◌, if◌then◌else◌,
  ==_iff, ltb-true, ltb-false, leb-true, leb-false, ==_true, ==_false, Bool-cases, Option-cases,
  length, get_elem?, get_or, set, take, drop, replicate, All, length-append, length-replicate,
  length-set, get_or-set_self, get_or-set_ne, take-append-drop, length-take, length-drop,
  drop-append, list_ext, write_at, length-write_at, get_or-write_at, take-write_at, drop-write_at,
  wrap-ne, wrap_round, wrap_add, wrap_next,
}
use slop_sync.Result.{Result, ok, err, truncated, malformed, capacity_exceeded, ◌>>=◌}

-- The variables of the loop of `cobsEncode`.
pub record Encoder : Type 0 where
  pub dst : List ℕ
  pub write_index : ℕ
  pub code_index : ℕ
  pub code : ℕ
  pub final_zero : Bool

-- One round of the loop. `none` is the `return 0` of a `dst` that is too small.
unfoldable pub encode_byte : Encoder → ℕ → Option Encoder
encode_byte e b =
    if b == 0
    then (if leb (length e.dst) e.write_index
        then none
        else some (record {
          dst = set e.dst e.code_index e.code;
          write_index = e.write_index + 1;
          code_index = e.write_index;
          code = 1;
          final_zero = true;
        }))
    else if leb (length e.dst) e.write_index
    then none
    else if e.code + 1 == 0xff
    then (if leb (length e.dst) (e.write_index + 1)
        then none
        else some (record {
          dst = set (set e.dst e.write_index b) e.code_index (e.code + 1);
          write_index = e.write_index + 2;
          code_index = e.write_index + 1;
          code = 1;
          final_zero = false;
        }))
    else some (record e {
      dst = set e.dst e.write_index b;
      write_index = e.write_index + 1;
      code = e.code + 1;
    })

-- The lines after the loop: the bytes written, and the buffer.
unfoldable pub encode_end : Encoder → ℕ × List ℕ
encode_end e =
    if e.final_zero || not (e.code == 1)
    then (e.write_index, set e.dst e.code_index e.code)
    else (e.write_index - 1, e.dst)

unfoldable pub encode_loop : List ℕ → Encoder → Option (ℕ × List ℕ)
unfolding encode_byte encode_end
encode_loop [] e = some (encode_end e)
encode_loop (b ∷ src) e = elim (encode_byte e b) [ none ↦ none | some e' ↦ encode_loop src e' ]

-- `none` is the answer 0.
unfoldable pub cobs_encode : List ℕ → List ℕ → Option (ℕ × List ℕ)
unfolding encode_loop
cobs_encode src dst =
    if length dst == 0
    then none
    else encode_loop src
        (record { dst = dst; write_index = 1; code_index = 0; code = 1; final_zero = true })

-- The inner loop of `cobsDecode`, with the rounds left: the bytes that it has not read, the buffer and
-- the bytes written.
unfoldable pub copy_run : ℕ → List ℕ → List ℕ → ℕ → Result (List ℕ × List ℕ × ℕ)
copy_run zero src dst w = ok (src, dst, w)
copy_run (suc n) [] dst w = err truncated
copy_run (suc n) (b ∷ src) dst w =
    if leb (length dst) w then err capacity_exceeded else copy_run n src (set dst w b) (w + 1)

-- The zero that a run stands for, unless it is a full one or the last.
unfoldable pub put_zero : ℕ → List ℕ → List ℕ → ℕ → Result (List ℕ × List ℕ × ℕ)
put_zero code [] dst w = ok ([], dst, w)
put_zero code (b ∷ src) dst w =
    if code == 0xff
    then ok (b ∷ src, dst, w)
    else if leb (length dst) w
    then err capacity_exceeded
    else ok (b ∷ src, set dst w 0, w + 1)

-- The outer loop, on fuel; `none` means that the fuel ran out.
unfoldable pub decode_loop : ℕ → List ℕ → List ℕ → ℕ → Option (Result (ℕ × List ℕ))
unfolding copy_run put_zero
decode_loop fuel [] dst w = some (ok (w, dst))
decode_loop zero (code ∷ src) dst w = none
decode_loop (suc fuel) (code ∷ src) dst w =
    if code == 0
    then some (err malformed)
    else elim (copy_run (code - 1) src dst w >>= λ (src', dst', w'). put_zero code src' dst' w') [
      | err e ↦ some (err e)
      | ok (src', dst', w') ↦ decode_loop fuel src' dst' w'
    ]

-- Each round reads one byte at least.
unfoldable pub cobs_decode : List ℕ → List ℕ → Option (Result (ℕ × List ℕ))
unfolding decode_loop
cobs_decode src dst = decode_loop (length src) src dst 0
