-- ===== src/Wire/Cobs/Blocks.antt =====
-- The blocks in which wire/serial_cobs.hpp cuts a source.
use slop_sync.Base.{
  ℕ, ◌+◌, ◌/◌, ◌≤◌, ◌<◌, ◌≡◌, ◌≢◌, inl, inr, Bool, true, false, not, ◌||◌, List, [], ◌∷◌, ◌++◌,
  arith, ◌==◌, if◌then◌else◌, ==_true, ==_false, Bool-cases, length, length-append, All,
}
use native.Mathlib.Decide.{ℕ_discrete}

-- The blocks for a source, where `run` is the part of the current block that was read, and `owed`
-- says that a code byte is due even if nothing more comes.
unfoldable pub blocks : List ℕ → Bool → List ℕ → List ℕ
blocks run owed [] = if owed || not (length run == 0) then (length run + 1) ∷ run else []
blocks run owed (b ∷ src) =
    let zero_next = blocks [] true src in
    let full_next = blocks [] false src in
    let next = blocks (run ++ (b ∷ [])) owed src in
    if b == 0
    then (length run + 1) ∷ (run ++ zero_next)
    else if length run + 2 == 0xff
    then 0xff ∷ (run ++ (b ∷ full_next))
    else next

-- The places of the buffer that the rest of a source takes.
unfoldable pub room : ℕ → List ℕ → ℕ
room k [] = 0
room k (b ∷ src) =
    if b == 0
    then 1 + room 0 src
    else if k + 2 == 0xff
    then 2 + room 0 src
    else 1 + room (k + 1) src

pub room-le : (k : ℕ) (src : List ℕ) → k < 254 → room k src ≤ length src + (k + length src) / 254
unfolding room
room-le k [] h = omega arith
room-le k (b ∷ src) h = ground (arith, room-le 0 src (omega arith), room-le (k + 1) src)

pub room_pos : (k b : ℕ) (src : List ℕ) → room k (b ∷ src) ≤ 0 → ⊥
unfolding room
room_pos k b src h = ground arith

pub blocks_zero :
    (run : List ℕ) (owed : Bool) (b : ℕ) (src : List ℕ)
    → b ≡ 0
    → (blocks run owed (b ∷ src) ≡ (length run + 1) ∷ (run ++ blocks [] true src))
      × (room (length run) (b ∷ src) ≡ 1 + room 0 src)
unfolding blocks room
blocks_zero run owed b src z = ground arith

pub blocks_full :
    (run : List ℕ) (owed : Bool) (b : ℕ) (src : List ℕ)
    → b ≢ 0
    → length run + 2 ≡ 0xff
    → (blocks run owed (b ∷ src) ≡ 0xff ∷ (run ++ (b ∷ blocks [] false src)))
      × (room (length run) (b ∷ src) ≡ 2 + room 0 src)
unfolding blocks room
blocks_full run owed b src nz full = ground arith

pub blocks_plain :
    (run : List ℕ) (owed : Bool) (b : ℕ) (src : List ℕ)
    → b ≢ 0
    → length run + 2 ≢ 0xff
    → (blocks run owed (b ∷ src) ≡ blocks (run ++ (b ∷ [])) owed src)
      × (room (length run) (b ∷ src) ≡ 1 + room (length run + 1) src)
unfolding blocks room
blocks_plain run owed b src nz more = ground arith

-- The blocks of a source of `n` bytes, none of them read yet, take at most n + n / 254 + 1 places.
pub length-blocks :
    (src run : List ℕ) (owed : Bool)
    → length run < 254
    → length (blocks run owed src) ≤ length run + length src + 1 + (length run + length src) / 254
unfolding blocks
length-blocks [] run owed h = ground arith
length-blocks (b ∷ src) run owed h = ground (
  arith,
  length-blocks src [] true,
  length-blocks src [] false,
  length-blocks src (run ++ (b ∷ [])) owed,
  length-append run (blocks [] true src),
  length-append run (b ∷ blocks [] false src),
  length-append run (b ∷ []),
)

abbrev pub NonZero : ℕ → Type 0
NonZero b = b ≢ 0

All-append : (xs ys : List ℕ) → All NonZero xs → All NonZero ys → All NonZero (xs ++ ys)
All-append [] ys h k = k
All-append (x ∷ xs) ys h k = (h.0, All-append xs ys h.1 k)

pub blocks-NonZero :
    (src run : List ℕ) (owed : Bool) → All NonZero run → All NonZero (blocks run owed src)
unfolding blocks
blocks-NonZero [] run owed h = elim (Bool-cases (owed || not (length run == 0))) [
  | inl due ↦ rw due (omega arith, h)
  | inr idle ↦ rw idle tt
]
blocks-NonZero (b ∷ src) run owed h = elim (ℕ_discrete b 0) [
  | yes z ↦
      rw (==_true b 0 z)
        (omega arith, All-append run (blocks [] true src) h (blocks-NonZero src [] true tt))
  | no nz ↦ elim (Bool-cases (length run + 2 == 0xff)) [
    | inl full ↦
        rw (==_false b 0 nz, full)
          (omega arith, All-append run _ h (nz, blocks-NonZero src [] false tt))
    | inr more ↦
        rw (==_false b 0 nz, more)
          (blocks-NonZero src (run ++ (b ∷ [])) owed (All-append run (b ∷ []) h (nz, tt)))
  ]
]
