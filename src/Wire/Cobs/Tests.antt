-- ===== src/Wire/Cobs/Tests.antt =====
-- Runs of the byte stuffing, and its theorems at concrete inputs.
use slop_sync.Base.{ℕ, ◌≤◌, ◌≡◌, refl, some, List, [], ◌∷◌, arith, take, replicate, All}
use slop_sync.Result.{ok}
use slop_sync.Wire.Cobs.{cobs_encode, cobs_decode}
use slop_sync.Wire.Cobs.Blocks.{NonZero}
use slop_sync.Wire.Cobs.Bounds.{Sound, cobs_decode-Sound}
use slop_sync.Wire.Cobs.RoundTrip.{cobs_decode-cobs_encode}

encoded :
    cobs_encode (0 ∷ (5 ∷ (0 ∷ []))) (9 ∷ (9 ∷ (9 ∷ (9 ∷ [])))) ≡ some (4, 1 ∷ (2 ∷ (5 ∷ (1 ∷ []))))
unfolding cobs_encode
encoded = refl

abbrev source : List ℕ
source = 0 ∷ (5 ∷ (0 ∷ []))

cobs_decode-cobs_encode_example :
    (n : ℕ) × (buf : List ℕ) × (m : ℕ) × (back : List ℕ) × (cobs_encode source (replicate 4 9)
      ≡ some (n, buf))
    × (n ≤ 4)
    × All NonZero (take n buf)
    × (cobs_decode (take n buf) (replicate 3 9) ≡ some (ok (m, back)))
    × (m ≡ 3)
    × (take m back ≡ source)
cobs_decode-cobs_encode_example =
    cobs_decode-cobs_encode source (replicate 4 9) (replicate 3 9) (omega arith) (omega arith)

cobs_decode-Sound_example : Sound 2 (cobs_decode (3 ∷ (7 ∷ [])) (replicate 2 9))
cobs_decode-Sound_example = cobs_decode-Sound (3 ∷ (7 ∷ [])) (replicate 2 9)
