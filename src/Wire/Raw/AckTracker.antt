-- ===== src/Wire/Raw/AckTracker.antt =====
-- `AckTracker` and `unpackAckMask` of wire/raw/ackmask.hpp. A shift is a product or a quotient by a
-- power of two.
pub mod Laws
use slop_sync.Base.{
  ℕ, zero, suc, ◌+◌, ◌-◌, ◌/◌, ◌%◌, ◌^◌, bit_and, bit_or, not, ◌&&◌, List, [], ◌∷◌, leb, ◌==◌,
  if◌then◌else◌,
}
use slop_sync.Util.Serial.{u16_mod, sub16, seq_is_newer}
use slop_sync.Wire.Raw.{AckMask}

abbrev pub ack_mask_window : ℕ
ack_mask_window = 32

-- The bits from `i` on, with the rounds left: the numbers for which the callback is called.
unfoldable pub unpack_from : ℕ → ℕ → ℕ → ℕ → List ℕ
unpack_from zero i base mask = []
unpack_from (suc rounds) i base mask =
    let rest = unpack_from rounds (i + 1) base mask in
    if bit_and mask (2 ^ i) == 0 then rest else (base + i) % u16_mod ∷ rest

unfoldable pub unpack_ack_mask : ℕ → ℕ → List ℕ
unfolding unpack_from
unpack_ack_mask base mask = unpack_from ack_mask_window 0 base mask

-- `record`, on the tracker's two fields. A number that is not stale is less than 2 ^ 15 ahead of the
-- base, so that `int16_t` of the difference is the difference.
unfoldable pub record_seq : AckMask → ℕ → AckMask
record_seq t seq =
    let offset : ℕ = sub16 seq t.base_seq in
    let shift : ℕ = offset - ack_mask_window + 1 in
    if not (seq == t.base_seq) && not (seq_is_newer seq t.base_seq)
    then t
    else if leb ack_mask_window offset
    then record {
      base_seq = (t.base_seq + shift) % u16_mod;
      mask =
          bit_or (if leb ack_mask_window shift then 0 else t.mask / 2 ^ shift)
            (2 ^ (ack_mask_window - 1));
    }
    else record t { mask = bit_or t.mask (2 ^ offset) }

unfoldable pub reset : ℕ → AckMask
reset base = record { base_seq = base; mask = 0 }
