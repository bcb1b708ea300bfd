-- ===== src/Wire/Estop.antt =====
-- wire/estop_frame.hpp: the emergency-stop frame, and the scan of a raw byte stream for it.
use slop_sync.Base.{
  ℕ, zero, suc, ◌+◌, ◌-◌, ◌*◌, ◌/◌, ◌%◌, ◌^◌, ◌≤◌, ◌<◌, min, bit_and, bit_or, bit_xor, ◌≡◌, refl,
  sym, ap, ◌∙◌, subst, ◌≢◌, ◌↔◌, ◌⊎◌, inl, inr, Bool, true, false, not, ◌&&◌, ◌||◌, Option, none,
  some, List, [], ◌∷◌, ◌++◌, map, append-nil, append_assoc, arith, ltb, leb, ◌==◌, if◌then◌else◌,
  ==_iff, ltb-true, ltb-false, leb-true, leb-false, ==_true, ==_false, Bool-cases, Option-cases,
  length, get_elem?, get_or, set, take, drop, replicate, All, length-append, length-replicate,
  length-set, get_or-set_self, get_or-set_ne, take-append-drop, length-take, length-drop,
  drop-append, set-append, list_ext, write_at, length-write_at, get_or-write_at, take-write_at,
  drop-write_at, wrap-ne, wrap_round, wrap_add, wrap_next,
}
use slop_sync.Result.{Result, ok, err, truncated, malformed, bad_crc}
use slop_sync.Wire.Bytes.{at_offset, put_u8, put_u16, put_u32, get_u8, get_u16, get_u32}
use slop_sync.Wire.Crc32.{crc32}
pub mod Encode
pub mod Scan
mod Tests

abbrev pub estop_frame_bytes : ℕ
estop_frame_bytes = 12

abbrev pub estop_crc_offset : ℕ
estop_crc_offset = 8

abbrev pub estop_magic_byte : ℕ
estop_magic_byte = 0xE5

pub record EstopFrame : Type 0 where
  pub cause : ℕ
  pub origin : ℕ
  pub seq : ℕ

unfoldable pub put_magic : List ℕ → List ℕ
put_magic (a ∷ (b ∷ (c ∷ (d ∷ out)))) =
    estop_magic_byte ∷ (estop_magic_byte ∷ (estop_magic_byte ∷ (estop_magic_byte ∷ out)))
put_magic out = out

-- `none` is the answer 0.
unfoldable pub encode_estop : EstopFrame → List ℕ → Option (ℕ × List ℕ)
unfolding at_offset put_u8 put_u16 put_u32 put_magic
encode_estop frame out =
    if ltb (length out) estop_frame_bytes
    then none
    else (let a = put_magic out in
        let b = at_offset 4 (put_u8 frame.cause) a in
        let c = at_offset 5 (put_u8 frame.origin) b in
        let d = at_offset 6 (put_u16 frame.seq) c in
        let crc = crc32 (take estop_crc_offset d) in
        some (estop_frame_bytes, at_offset estop_crc_offset (put_u32 crc) d))

unfoldable pub has_magic : List ℕ → Bool
has_magic bytes =
    get_or bytes 0 0 == estop_magic_byte
    && (get_or bytes 1 0 == estop_magic_byte)
    && (get_or bytes 2 0 == estop_magic_byte)
    && (get_or bytes 3 0 == estop_magic_byte)

unfoldable pub decode_estop : List ℕ → Result EstopFrame
unfolding has_magic get_u8 get_u16 get_u32
decode_estop bytes =
    if ltb (length bytes) estop_frame_bytes
    then err truncated
    else if not (has_magic bytes)
    then err malformed
    else if not (crc32 (take estop_crc_offset bytes) == get_u32 (drop estop_crc_offset bytes))
    then err bad_crc
    else ok (record {
      cause = get_u8 (drop 4 bytes);
      origin = get_u8 (drop 5 bytes);
      seq = get_u16 (drop 6 bytes);
    })

-- The loop from the offset `i` on, by the bytes from there; `none` is `found = false`.
unfoldable pub scan_from : ℕ → List ℕ → Option (ℕ × EstopFrame)
unfolding has_magic decode_estop
scan_from i [] = none
scan_from i (b ∷ stream) =
    let rest = scan_from (i + 1) stream in
    if ltb (length (b ∷ stream)) 4
    then none
    else if not (has_magic (b ∷ stream))
    then rest
    else if ltb (length (b ∷ stream)) estop_frame_bytes
    then none
    else elim (decode_estop (take estop_frame_bytes (b ∷ stream))) [
      | ok frame ↦ some (i, frame)
      | err e ↦ rest
    ]

unfoldable pub scan_for_estop : List ℕ → Option (ℕ × EstopFrame)
unfolding scan_from
scan_for_estop stream = scan_from 0 stream
