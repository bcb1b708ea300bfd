-- ===== src/Wire/Raw.antt =====
-- wire/raw/: the payloads of fixed layout. `none` is the answer 0 of an encoder.
pub mod RoundTrip
pub mod AckTracker
pub mod ClockSync
mod Tests
use slop_sync.Base.{
  ℕ, zero, suc, ◌+◌, ◌-◌, ◌*◌, ◌/◌, ◌%◌, ◌^◌, ◌≤◌, ◌<◌, min, bit_and, bit_or, bit_xor, ◌≡◌, refl,
  sym, ap, ◌∙◌, subst, ◌≢◌, ◌↔◌, ◌⊎◌, inl, inr, Bool, true, false, not, ◌&&◌, ◌||◌, Option, none,
  some, List, [], ◌∷◌, ◌++◌, map, append-nil, append_assoc, arith, ltb, leb, ◌==◌, if◌then◌else◌,
  ==_iff, ltb-true, ltb-false, leb-true, leb-false, ==_true, ==_false, Bool-cases, Option-cases,
  length, get_elem?, get_or, set, take, drop, replicate, All, length-append, length-replicate,
  length-set, get_or-set_self, get_or-set_ne, take-append-drop, length-take, length-drop,
  drop-append, set-append, list_ext, write_at, length-write_at, get_or-write_at, take-write_at,
  drop-write_at, write_at-append, take_more-append, drop_all-append, get_or-take, get_or-drop,
  bit_or_fields, bit_xor-bound, bit_and-le, wrap-ne, wrap_round, wrap_add, wrap_next,
}
use slop_sync.Result.{Result, ok, err, truncated}
use slop_sync.Wire.Bytes.{at_offset, put_u8, put_u16, put_u32, get_u8, get_u16, get_u32}

abbrev pub ack_mask_bytes : ℕ
ack_mask_bytes = 6

pub record AckMask : Type 0 where
  pub base_seq : ℕ
  pub mask : ℕ

unfoldable pub encode_ack_mask : AckMask → List ℕ → Option (ℕ × List ℕ)
unfolding at_offset put_u16 put_u32
encode_ack_mask m out =
    if ltb (length out) ack_mask_bytes
    then none
    else some (ack_mask_bytes, at_offset 2 (put_u32 m.mask) (put_u16 m.base_seq out))

unfoldable pub decode_ack_mask : List ℕ → Result AckMask
unfolding get_u16 get_u32
decode_ack_mask bytes =
    if ltb (length bytes) ack_mask_bytes
    then err truncated
    else ok (record { base_seq = get_u16 bytes; mask = get_u32 (drop 2 bytes) })

abbrev pub clock_request_bytes : ℕ
clock_request_bytes = 4

abbrev pub clock_reply_bytes : ℕ
clock_reply_bytes = 12

pub record ClockReply : Type 0 where
  pub t0 : ℕ
  pub t1 : ℕ
  pub t2 : ℕ

unfoldable pub encode_clock_request : ℕ → List ℕ → Option (ℕ × List ℕ)
unfolding put_u32
encode_clock_request t0 out =
    if ltb (length out) clock_request_bytes then none else some (4, put_u32 t0 out)

unfoldable pub decode_clock_request : List ℕ → Result ℕ
unfolding get_u32
decode_clock_request bytes =
    if ltb (length bytes) clock_request_bytes then err truncated else ok (get_u32 bytes)

unfoldable pub encode_clock_reply : ClockReply → List ℕ → Option (ℕ × List ℕ)
unfolding at_offset put_u32
encode_clock_reply r out =
    if ltb (length out) clock_reply_bytes
    then none
    else (let a = put_u32 r.t0 out in
        let b = at_offset 4 (put_u32 r.t1) a in
        some (clock_reply_bytes, at_offset 8 (put_u32 r.t2) b))

unfoldable pub decode_clock_reply : List ℕ → Result ClockReply
unfolding get_u32
decode_clock_reply bytes =
    if ltb (length bytes) clock_reply_bytes
    then err truncated
    else ok
        (record { t0 = get_u32 bytes; t1 = get_u32 (drop 4 bytes); t2 = get_u32 (drop 8 bytes) })

abbrev pub probe_index_bytes : ℕ
probe_index_bytes = 2

-- One frame of a probe: the index, and zeros up to the end of the span.
unfoldable pub encode_probe_frame : ℕ → List ℕ → Option (ℕ × List ℕ)
unfolding put_u16
encode_probe_frame index out =
    if ltb (length out) probe_index_bytes
    then none
    else some (length out, take 2 (put_u16 index out) ++ replicate (length out - 2) 0)

unfoldable pub decode_probe_frame : List ℕ → Result ℕ
unfolding get_u16
decode_probe_frame bytes =
    if ltb (length bytes) probe_index_bytes then err truncated else ok (get_u16 bytes)

abbrev pub catalog_ready_bytes : ℕ
catalog_ready_bytes = 8

unfoldable pub encode_catalog_ready : List ℕ → List ℕ → Option (ℕ × List ℕ)
encode_catalog_ready etag out =
    if not (length etag == catalog_ready_bytes)
    then none
    else if ltb (length out) catalog_ready_bytes
    then none
    else some (catalog_ready_bytes, write_at 0 etag out)

unfoldable pub decode_catalog_ready : List ℕ → Option (List ℕ)
decode_catalog_ready payload =
    if not (length payload == catalog_ready_bytes)
    then none
    else some (take catalog_ready_bytes payload)

-- PING and PONG carry any bytes.
unfoldable pub encode_ping : List ℕ → List ℕ → ℕ × List ℕ
encode_ping payload out =
    if ltb (length out) (length payload) then (0, out) else (length payload, write_at 0 payload out)

unfoldable pub encode_pong : List ℕ → List ℕ → ℕ × List ℕ
unfolding encode_ping
encode_pong payload out = encode_ping payload out

abbrev pub beacon_frame_bytes : ℕ
beacon_frame_bytes = 13

pub record BeaconFrame : Type 0 where
  pub boot_id : ℕ
  pub etag : List ℕ
  pub pairing_open : Bool

unfoldable pub encode_beacon : BeaconFrame → List ℕ → Option (ℕ × List ℕ)
unfolding at_offset put_u8 put_u32
encode_beacon b out =
    if ltb (length out) beacon_frame_bytes
    then none
    else (let c = write_at 4 b.etag (put_u32 b.boot_id out) in
        some (beacon_frame_bytes, at_offset 12 (put_u8 (if b.pairing_open then 1 else 0)) c))

unfoldable pub decode_beacon : List ℕ → Result BeaconFrame
unfolding get_u8 get_u32
decode_beacon bytes =
    if ltb (length bytes) beacon_frame_bytes
    then err truncated
    else ok (record {
      boot_id = get_u32 bytes;
      etag = take 8 (drop 4 bytes);
      pairing_open = not (get_u8 (drop 12 bytes) == 0);
    })
