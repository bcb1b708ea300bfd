-- ===== src/Wire/Raw/Tests.antt =====
-- The round trips of the fixed layouts at concrete inputs, and runs of the tracker.
use slop_sync.Base.{refl, [], ◌∷◌}
use slop_sync.Wire.Raw.{AckMask, ClockReply}
use slop_sync.Util.Serial.{seq_is_newer}
use slop_sync.Base.{◌≤◌, ◌≡◌, ◌+◌, ◌*◌, arith}
use slop_sync.Int.{pos_part, neg_part, negsuc, ◌-ℤ◌}
use slop_sync.Wire.Raw.ClockSync.{compute_clock_sync, compute_clock_sync_lem}
use slop_sync.Base.{◌<◌, false}
use slop_sync.Util.Serial.{sub16}
use slop_sync.Wire.Raw.AckTracker.Laws.{acked, stale, next_base, acked-record_seq}
use slop_sync.Wire.Raw.AckTracker.{record_seq, reset, unpack_ack_mask}

abbrev some_mask : AckMask
some_mask = record { base_seq = 0xFFFE; mask = 5 }

abbrev some_reply : ClockReply
some_reply = record { t0 = 10; t1 = 0xFFFFFFFF; t2 = 300 }

-- Three numbers in the window; the last one slides it by one.
tracked :
    record_seq (record_seq (record_seq (reset 0xFFFF) 0xFFFF) 1) 31
    ≡ record { base_seq = 0; mask = 0x80000002 }
unfolding record_seq reset seq_is_newer
tracked = refl

unpacked : unpack_ack_mask 0xFFFF 0x80000005 ≡ 0xFFFF ∷ (1 ∷ (30 ∷ []))
unfolding unpack_ack_mask
unpacked = refl

-- A hub 1000 us behind the client, across the wrap of the client's clock.
compute_clock_sync_lem_example :
    ((compute_clock_sync 0xFFFFFFF0 0xFFFFFC6C 0xFFFFFC9E 178).rtt_us ≡ 144)
    × (2
          * (pos_part
                ((compute_clock_sync 0xFFFFFFF0 0xFFFFFC6C 0xFFFFFC9E 178).offset_us -ℤ negsuc 999)
              + neg_part (
                  (compute_clock_sync 0xFFFFFFF0 0xFFFFFC6C 0xFFFFFC9E 178).offset_us
                  -ℤ negsuc 999))
        ≤ 57)
compute_clock_sync_lem_example =
    compute_clock_sync_lem 0xFFFFFFF0 0xFFFFFC18 100 50 44 (omega arith) (omega arith) (omega arith)
      (omega arith) (omega arith)

-- Number 31 slides the window by one, past the base 0xFFFF.
acked-record_seq_example :
    (acked (record_seq (record { base_seq = 0xFFFF; mask = 5 }) 31) 0xFFFF ≡ false)
    × (sub16 31 (next_base (record { base_seq = 0xFFFF; mask = 5 }) 31) < 32)
unfolding next_base stale seq_is_newer
acked-record_seq_example =
    acked-record_seq (record { base_seq = 0xFFFF; mask = 5 }) 31 0xFFFF (omega arith) (omega arith)
      (omega arith) (omega arith)
