-- ===== src/Wire/Estop/Tests.antt =====
-- The emergency stop's theorems at concrete inputs.
use slop_sync.Base.{ℕ, ◌≤◌, ◌≡◌, some, List, [], ◌∷◌, ◌++◌, arith, take, drop, replicate}
use slop_sync.Result.{ok}
use slop_sync.Wire.Estop.{EstopFrame, estop_frame_bytes, encode_estop, decode_estop, scan_for_estop}
use slop_sync.Wire.Estop.Encode.{IsWord, decode_estop-encode_estop}
use slop_sync.Wire.Estop.Scan.{FindsFirst, scan_for_estop-FindsFirst, scan_for_estop-encode_estop}

abbrev user_stop : EstopFrame
user_stop = record { cause = 0; origin = 2; seq = 0x1234 }

user_stop-IsWord : IsWord user_stop
user_stop-IsWord = record { cause = omega arith; origin = omega arith; seq = omega arith }

decode_estop-encode_estop_example :
    (buf : List ℕ) × (encode_estop user_stop (replicate 14 7) ≡ some (estop_frame_bytes, buf))
    × (drop estop_frame_bytes buf ≡ 7 ∷ (7 ∷ []))
    × (decode_estop buf ≡ ok user_stop)
decode_estop-encode_estop_example =
    decode_estop-encode_estop user_stop (replicate 14 7) user_stop-IsWord (omega arith)

scan_for_estop-FindsFirst_example :
    FindsFirst 0 (replicate 5 0xE5) (scan_for_estop (replicate 5 0xE5))
scan_for_estop-FindsFirst_example = scan_for_estop-FindsFirst (replicate 5 0xE5)

scan_for_estop-encode_estop_example :
    (buf : List ℕ) × (offset : ℕ) × (found : EstopFrame) × (encode_estop user_stop (replicate 12 0)
      ≡ some (estop_frame_bytes, buf))
    × (scan_for_estop (0xE5 ∷ (take estop_frame_bytes buf ++ (1 ∷ []))) ≡ some (offset, found))
    × (offset ≤ 1)
scan_for_estop-encode_estop_example =
    scan_for_estop-encode_estop user_stop (replicate 12 0) (0xE5 ∷ []) (1 ∷ []) user_stop-IsWord
      (omega arith)
