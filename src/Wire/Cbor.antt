-- ===== src/Wire/Cbor.antt =====
-- What CborWriter and CborReader of wire/cbor/ share: the open containers, and how one is closed.
use slop_sync.Base.{
  ℕ, zero, suc, ◌+◌, ◌-◌, ◌*◌, ◌/◌, ◌%◌, ◌^◌, ◌≤◌, ◌<◌, min, bit_and, bit_or, bit_xor, ◌≡◌, refl,
  sym, ap, ◌∙◌, subst, ◌≢◌, ◌↔◌, ◌⊎◌, inl, inr, Bool, true, false, not, ◌&&◌, ◌||◌, Option, none,
  some, List, [], ◌∷◌, ◌++◌, map, append-nil, append_assoc, arith, ltb, leb, ◌==◌, if◌then◌else◌,
  ==_iff, ltb-true, ltb-false, leb-true, leb-false, ==_true, ==_false, Bool-cases, Option-cases,
  length, get_elem?, get_or, set, take, drop, replicate, All, length-append, length-replicate,
  length-set, get_or-set_self, get_or-set_ne, take-append-drop, length-take, length-drop,
  drop-append, set-append, list_ext, write_at, length-write_at, get_or-write_at, take-write_at,
  drop-write_at, write_at-append, take_more-append, drop_all-append, get_or-take, get_or-drop,
  bit_or_fields, bit_xor-bound, bit_and-le, wrap-ne, wrap_round, wrap_add, wrap_next, test_bit,
  test_bit-bit_or_pow, test_bit-zero, take_all, bit_or_comm, bit_and_31,
}
pub mod Writer
pub mod Reader
pub mod Head
pub mod Token
pub mod Writes
pub mod Reads
pub mod Advance
pub mod Skip
pub mod Bounds
pub mod BigEndian
pub mod Canonical
pub mod RoundTrip
mod Tests

abbrev pub max_depth : ℕ
max_depth = 4

-- An open map or array: `remaining` counts the keys, values and elements that are still to come.
pub record Frame : Type 0 where
  pub is_map : Bool
  pub remaining : ℕ
  pub has_last_key : Bool
  pub last_key : ℕ

-- The frames that are open, the innermost first: `_stack[_depth - 1]` is the head. What lies above
-- `_depth` in the array is written before it is read.
abbrev pub Stack : Type 0
Stack = List Frame

abbrev pub spent : Frame → Frame
spent f = record f { remaining = if ltb 0 f.remaining then f.remaining - 1 else f.remaining }

-- Closes the frames that are full; where one is owed, the innermost frame gives a place first. A frame
-- that closes is itself a place of the frame around it.
unfoldable pub settle : Bool → Stack → Stack
settle owed [] = []
settle owed (f ∷ stack) =
    let rest = settle true stack in
    let f' = if owed then spent f else f in if f'.remaining == 0 then rest else f' ∷ stack

abbrev pub consume_one : Stack → Stack
consume_one stack = settle true stack

abbrev pub after_consume : Stack → Stack
after_consume stack = settle false stack
