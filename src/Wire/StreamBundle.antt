-- ===== src/Wire/StreamBundle.antt =====
-- wire/stream_bundle.hpp: samples with their time offsets in one frame.
use slop_sync.Base.{
  ℕ, zero, suc, ◌+◌, ◌-◌, ◌*◌, ◌/◌, ◌%◌, ◌^◌, ◌≤◌, ◌<◌, min, bit_and, bit_or, bit_xor, ◌≡◌, refl,
  sym, ap, ◌∙◌, subst, ◌≢◌, ◌↔◌, ◌⊎◌, inl, inr, Bool, true, false, not, ◌&&◌, ◌||◌, Option, none,
  some, List, [], ◌∷◌, ◌++◌, map, append-nil, append_assoc, arith, ltb, leb, ◌==◌, if◌then◌else◌,
  ==_iff, ltb-true, ltb-false, leb-true, leb-false, ==_true, ==_false, Bool-cases, Option-cases,
  length, get_elem?, get_or, set, take, drop, replicate, All, length-append, length-replicate,
  length-set, get_or-set_self, get_or-set_ne, take-append-drop, length-take, length-drop,
  drop-append, set-append, list_ext, write_at, length-write_at, get_or-write_at, take-write_at,
  drop-write_at, write_at-append, take_more-append, drop_all-append, get_or-take, get_or-drop,
  bit_or_fields, bit_xor-bound, bit_and-le, wrap-ne, wrap_round, wrap_add, wrap_next, test_bit,
  test_bit-bit_or_pow, test_bit-zero, take_all, bit_or_comm, bit_and_31, take_front-append,
  drop-drop,
}
use slop_sync.Result.{Result, ok, err, truncated, malformed}
use slop_sync.Util.Serial.{u8_mod, u32_mod}
use slop_sync.Wire.Bytes.{at_offset, put_u8, put_u16, put_u32, get_u8, get_u16, get_u32}
pub mod Layout
pub mod Adds
pub mod Parses
pub mod Image
pub mod RoundTrip
pub mod Accepts
mod Tests

abbrev pub stream_bundle_header_bytes : ℕ
stream_bundle_header_bytes = 6

abbrev pub t_off_bytes : ℕ
t_off_bytes = 2

abbrev pub bundle_max_samples : ℕ
bundle_max_samples = 32

abbrev pub bundle_max_span_ms : ℕ
bundle_max_span_ms = 20

pub record BundleWriter : Type 0 where
  pub out : List ℕ
  pub t_base : ℕ
  pub sample_size : ℕ
  pub valid : Bool
  pub n : ℕ
  pub t_offs : List ℕ

unfoldable pub new_bundle : List ℕ → ℕ → ℕ → BundleWriter
new_bundle out t_base sample_size =
    let has_header = leb stream_bundle_header_bytes (length out) in
    record {
      out = if has_header then at_offset 5 (put_u8 0) (put_u32 t_base out) else out;
      t_base = t_base;
      sample_size = sample_size;
      valid = has_header;
      n = 0;
      t_offs = replicate bundle_max_samples 0;
    }

-- The samples move to make room for one more offset in front of them.
unfoldable pub make_room : BundleWriter → ℕ → ℕ → List ℕ
make_room w old_header new_header =
    if ltb 0 w.n
    then write_at new_header (take (w.n * w.sample_size) (drop old_header w.out)) w.out
    else w.out

-- `none` is the answer false, which leaves the writer as it is.
unfoldable pub add_sample : BundleWriter → ℕ → List ℕ → Option BundleWriter
add_sample w t_off sample =
    let old_header = stream_bundle_header_bytes + t_off_bytes * w.n in
    let new_header = old_header + t_off_bytes in
    let new_total = new_header + (w.n + 1) * w.sample_size in
    if not w.valid
    then none
    else if not (length sample == w.sample_size)
    then none
    else if leb bundle_max_samples w.n
    then none
    else if (if w.n == 0 then not (t_off == 0) else leb t_off (get_or w.t_offs (w.n - 1) 0))
    then none
    else if ltb (bundle_max_span_ms * 1000) t_off
    then none
    else if ltb (length w.out) new_total
    then none
    else (let moved = make_room w old_header new_header in
        let timed = at_offset old_header (put_u16 t_off) moved in
        let filled = write_at (new_header + w.n * w.sample_size) sample timed in
        some (record w {
          out = at_offset 4 (put_u8 ((w.n + 1) % u8_mod)) filled;
          n = (w.n + 1) % u8_mod;
          t_offs = set w.t_offs w.n t_off;
        }))

unfoldable pub finalize : BundleWriter → ℕ
finalize w =
    if not w.valid then 0 else stream_bundle_header_bytes + t_off_bytes * w.n + w.n * w.sample_size

pub record BundleView : Type 0 where
  pub input : List ℕ
  pub t_base : ℕ
  pub n : ℕ
  pub sample_size : ℕ

-- The offsets from index `i` on, `left` of them, behind the offset `last`; the answer is the last offset, or
-- `none` where they do not start at 0 or do not ascend.
unfoldable pub walk_from : List ℕ → ℕ → ℕ → ℕ → Option ℕ
walk_from input i zero last = some last
walk_from input i (suc left) last =
    let t_off = get_u16 (drop (stream_bundle_header_bytes + t_off_bytes * i) input) in
    let rest = walk_from input (i + 1) left t_off in
    if (if i == 0 then not (t_off == 0) else leb t_off last) then none else rest

unfoldable pub parse : List ℕ → ℕ → Result BundleView
parse input sample_size =
    if ltb (length input) stream_bundle_header_bytes
    then err truncated
    else (let t_base = get_u32 input in
        let n = get_u8 (drop 4 input) in
        if ltb bundle_max_samples n
        then err malformed
        else (let t_off_end = stream_bundle_header_bytes + t_off_bytes * n in
            if ltb (length input) t_off_end then err truncated else elim (walk_from input 0 n 0) [
              | none ↦ err malformed
              | some last ↦
                  if ltb 0 n && ltb (bundle_max_span_ms * 1000) last
                  then err malformed
                  else if ltb (length input) (t_off_end + n * sample_size)
                  then err truncated
                  else ok
                      (record { input = input; t_base = t_base; n = n; sample_size = sample_size })
            ]))

unfoldable pub sample_time_us : BundleView → ℕ → ℕ
sample_time_us v i =
    (v.t_base + get_u16 (drop (stream_bundle_header_bytes + t_off_bytes * i) v.input)) % u32_mod

unfoldable pub sample : BundleView → ℕ → List ℕ
sample v i =
    let samples_start = stream_bundle_header_bytes + t_off_bytes * v.n in
    take v.sample_size (drop (samples_start + i * v.sample_size) v.input)
