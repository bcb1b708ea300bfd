-- ===== src/Wire/Estop/Scan.antt =====
-- `scanForEstop` of wire/estop_frame.hpp.
use slop_sync.Base.{
  ℕ, zero, suc, ◌+◌, ◌≤◌, ◌<◌, ◌≡◌, refl, ap, ◌∙◌, ◌⊎◌, inl, inr, true, Option, none, some, List,
  [], ◌∷◌, ◌++◌, arith, ltb, Bool-cases, length, get_or, take, drop, length-take, length-drop,
}
use slop_sync.Result.{Result, DecodeError, ok, err}
use native.Mathlib.Decide.{dec_lt}
use slop_sync.Wire.Estop.Encode.{IsWord, estop_bytes, encode_estop-bytes, decode_estop-bytes}
use slop_sync.Wire.Estop.{
  EstopFrame, encode_estop, estop_frame_bytes, has_magic, decode_estop, scan_from, scan_for_estop,
}

-- The stream's bytes from the offset `k` are a frame.
abbrev pub FrameAt : List ℕ → ℕ → EstopFrame → Type 0
FrameAt stream k frame = decode_estop (take estop_frame_bytes (drop k stream)) ≡ ok frame

abbrev pub NoFrameAt : List ℕ → ℕ → Type 0
NoFrameAt stream k = (frame : EstopFrame) → FrameAt stream k frame → ⊥

-- What a scan from the offset `i` on should answer: the first frame, or that there is none.
unfoldable pub FindsFirst : ℕ → List ℕ → Option (ℕ × EstopFrame) → Type 0
FindsFirst i stream none = (k : ℕ) → NoFrameAt stream k
FindsFirst i stream (some (offset, frame)) =
    (k : ℕ) × (offset ≡ i + k) × FrameAt stream k frame × ((j : ℕ) → j < k → NoFrameAt stream j)

decode_estop_long :
    (bytes : List ℕ) (frame : EstopFrame) → decode_estop bytes ≡ ok frame → 12 ≤ length bytes
unfolding decode_estop
decode_estop_long bytes frame e = ground arith

decode_estop-magic :
    (bytes : List ℕ) (frame : EstopFrame) → decode_estop bytes ≡ ok frame → has_magic bytes ≡ true
unfolding decode_estop
decode_estop-magic bytes frame e = ground arith

get_or-take : (n i : ℕ) (xs : List ℕ) → i < n → get_or (take n xs) i 0 ≡ get_or xs i 0
get_or-take zero i xs h = absurd (omega arith)
get_or-take (suc n) i [] h = refl
get_or-take (suc n) zero (x ∷ xs) h = refl
get_or-take (suc n) (suc i) (x ∷ xs) h = get_or-take n i xs (omega arith)

has_magic-take : (xs : List ℕ) → has_magic (take 12 xs) ≡ has_magic xs
unfolding has_magic
has_magic-take xs =
    rw
      (
        get_or-take 12 0 xs (omega arith),
        get_or-take 12 1 xs (omega arith),
        get_or-take 12 2 xs (omega arith),
        get_or-take 12 3 xs (omega arith),
      )
      refl

-- A stream that is too short holds no frame at any offset.
short-NoFrameAt : (stream : List ℕ) (k : ℕ) → length stream < 12 → NoFrameAt stream k
short-NoFrameAt stream k h frame e =
    omega (arith, decode_estop_long _ frame e, length-take 12 (drop k stream), length-drop k stream)

-- The answer for the stream behind the first byte, where no frame starts at that byte.
FindsFirst-shift :
    (i b : ℕ) (stream : List ℕ) (r : Option (ℕ × EstopFrame))
    → NoFrameAt (b ∷ stream) 0
    → FindsFirst (i + 1) stream r
    → FindsFirst i (b ∷ stream) r
unfolding FindsFirst
FindsFirst-shift i b stream none n f = all
  where
    all : (k : ℕ) → NoFrameAt (b ∷ stream) k
    all zero = n
    all (suc k) = f k
FindsFirst-shift i b stream (some (offset, frame)) n (k, e, here, before) =
    (suc k, omega arith, here, λ j h. earlier j h)
  where
    earlier : (j : ℕ) → j < suc k → NoFrameAt (b ∷ stream) j
    earlier zero h = n
    earlier (suc j) h = before j (omega arith)

Result-cases :
    (r : Result EstopFrame)
    → ((frame : EstopFrame) × (r ≡ ok frame)) ⊎ ((e : DecodeError) × (r ≡ err e))
Result-cases (ok frame) = inl (frame, refl)
Result-cases (err e) = inr (e, refl)

scan_from-FindsFirst : (stream : List ℕ) (i : ℕ) → FindsFirst i stream (scan_from i stream)
unfolding scan_from FindsFirst
scan_from-FindsFirst [] i = λ k. short-NoFrameAt [] k (omega arith)
scan_from-FindsFirst (b ∷ stream) i = elim (Bool-cases (ltb (length (b ∷ stream)) 4)) [
  | inl short ↦ rw short (λ k. short-NoFrameAt (b ∷ stream) k (ground arith))
  | inr long ↦ elim (Bool-cases (has_magic (b ∷ stream))) [
    | inr plain ↦
        rw (long, plain)
          (FindsFirst-shift i b stream _
            (λ frame e. ground (
              arith,
              decode_estop-magic (take 12 (b ∷ stream)) frame e,
              has_magic-take (b ∷ stream),
            ))
            (scan_from-FindsFirst stream (i + 1)))
    | inl magic ↦ elim (Bool-cases (ltb (length (b ∷ stream)) 12)) [
      | inl cut ↦ rw (long, magic, cut) (λ k. short-NoFrameAt (b ∷ stream) k (ground arith))
      | inr whole ↦ elim (Result-cases (decode_estop (take 12 (b ∷ stream)))) [
        | inl (frame, e) ↦
            rw (long, magic, whole, e) (0, omega arith, e, λ j h. absurd (omega arith))
        | inr (error, e) ↦
            rw (long, magic, whole, e)
              (FindsFirst-shift i b stream _ (λ frame p. ground (arith, e, p))
                (scan_from-FindsFirst stream (i + 1)))
      ]
    ]
  ]
]

-- The scan of a stream answers the first offset from which its bytes decode to a frame, with that
-- frame; and it answers that there is none only where the bytes decode at no offset.
pub scan_for_estop-FindsFirst : (stream : List ℕ) → FindsFirst 0 stream (scan_for_estop stream)
unfolding scan_for_estop
scan_for_estop-FindsFirst stream = scan_from-FindsFirst stream 0

take-append : (n : ℕ) (xs ys : List ℕ) → n ≤ length xs → take n (xs ++ ys) ≡ take n xs
take-append zero xs ys h = refl
take-append (suc n) [] ys h = absurd (omega arith)
take-append (suc n) (x ∷ xs) ys h = ap (◌∷◌ x) (take-append n xs ys (omega arith))

drop_all-append : (xs ys : List ℕ) → drop (length xs) (xs ++ ys) ≡ ys
drop_all-append [] ys = refl
drop_all-append (x ∷ xs) ys = drop_all-append xs ys

FindsFirst-found :
    (stream : List ℕ) (k : ℕ) (frame : EstopFrame) (r : Option (ℕ × EstopFrame))
    → FrameAt stream k frame
    → FindsFirst 0 stream r
    → (offset : ℕ) × (found : EstopFrame) × (r ≡ some (offset, found)) × (offset ≤ k)
unfolding FindsFirst
FindsFirst-found stream k frame none h f = absurd (f k frame h)
FindsFirst-found stream k frame (some (offset, found)) h (j, e, here, before) = (
  offset,
  found,
  refl,
  elim (dec_lt k j) [ yes lt ↦ absurd (before k lt frame h) | no ge ↦ omega arith ],
)

-- An emergency stop of machine integers that was encoded into a buffer of at least 12 bytes is never
-- missed: with any bytes before it and after it in the stream, the scan finds a frame, no later than
-- where the encoded one starts.
pub scan_for_estop-encode_estop :
    (frame : EstopFrame) (out before after : List ℕ)
    → IsWord frame
    → estop_frame_bytes ≤ length out
    → (buf : List ℕ) × (offset : ℕ) × (found : EstopFrame) × (encode_estop frame out
        ≡ some (estop_frame_bytes, buf))
      × (scan_for_estop (before ++ (take estop_frame_bytes buf ++ after)) ≡ some (offset, found))
      × (offset ≤ length before)
unfolding estop_bytes
scan_for_estop-encode_estop frame out before after w room =
    let buf = estop_bytes frame ++ drop estop_frame_bytes out in
    let stream = before ++ (take estop_frame_bytes buf ++ after) in
    let here : FrameAt stream (length before) frame =
      ap decode_estop
        (ap (take 12) (drop_all-append before (take estop_frame_bytes buf ++ after)) ∙ refl)
      ∙ decode_estop-bytes frame [] w in
    let (offset, found, e, le) =
      FindsFirst-found stream (length before) frame _ here (scan_for_estop-FindsFirst stream) in
    (buf, offset, found, encode_estop-bytes frame out room, e, le)
