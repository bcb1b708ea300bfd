-- ===== src/Session/Pending.antt =====
-- `PendingPairingList` of session/pairing.hpp: the knocks that wait for an answer.
pub mod Laws
mod Tests
use slop_sync.Base.{
  ℕ, zero, suc, ◌+◌, ◌-◌, ◌*◌, ◌/◌, ◌%◌, ◌^◌, ◌≤◌, ◌<◌, min, bit_and, bit_or, bit_xor, ◌≡◌, refl,
  sym, ap, ◌∙◌, subst, ◌≢◌, ◌↔◌, ◌⊎◌, inl, inr, Bool, true, false, not, ◌&&◌, ◌||◌, Option, none,
  some, List, [], ◌∷◌, ◌++◌, map, append-nil, append_assoc, arith, ltb, leb, ◌==◌, if◌then◌else◌,
  ==_iff, ltb-true, ltb-false, leb-true, leb-false, ==_true, ==_false, Bool-cases, Option-cases,
  length, get_elem?, get_or, set, take, drop, replicate, All, length-append, length-replicate,
  length-set, get_or-set_self, get_or-set_ne, take-append-drop, length-take, length-drop,
  drop-append, set-append, list_ext, write_at, length-write_at, get_or-write_at, take-write_at,
  drop-write_at, write_at-append, take_more-append, drop_all-append, get_or-take, get_or-drop,
  bit_or_fields, bit_xor-bound, bit_and-le, wrap-ne, wrap_round, wrap_add, wrap_next,
}
use mathlib.Core.Option
use slop_sync.Util.Serial.{time_reached}
use slop_sync.Util.BoundedString.{same_bytes}
use slop_sync.Session.Pairing.{instance_id_bytes, knock_approve}

abbrev pub pending_max : ℕ
pending_max = 4

pub record PendingKnock : Type 0 where
  pub instance_id : List ℕ
  pub session_id : ℕ
  pub expires_at_ms : ℕ
  pub mode : ℕ
  pub kind : List ℕ
  pub name : List ℕ
  pub version : List ℕ
  pub reapproval : Bool
  pub used : Bool

abbrev pub no_knock : PendingKnock
no_knock = record {
  instance_id = replicate instance_id_bytes 0;
  session_id = 0;
  expires_at_ms = 0;
  mode = knock_approve;
  kind = [];
  name = [];
  version = [];
  reapproval = false;
  used = false;
}

abbrev pub no_knocks : List PendingKnock
no_knocks = replicate pending_max no_knock

unfoldable pub find_slot : List PendingKnock → List ℕ → Option PendingKnock
find_slot [] id = none
find_slot (k ∷ ks) id = if k.used && same_bytes k.instance_id id then some k else find_slot ks id

unfoldable pub find_knock : List PendingKnock → List ℕ → Option PendingKnock
unfolding find_slot
find_knock ks id = if length id == instance_id_bytes then find_slot ks id else none

-- The write through the pointer that `find` returned.
unfoldable pub overwrite_slot : List PendingKnock → List ℕ → PendingKnock → List PendingKnock
overwrite_slot [] id k' = []
overwrite_slot (k ∷ ks) id k' =
    if k.used && same_bytes k.instance_id id then k' ∷ ks else k ∷ overwrite_slot ks id k'

-- The first free slot gets the knock; `none` where there is none.
unfoldable pub claim_slot : List PendingKnock → PendingKnock → Option (List PendingKnock)
claim_slot [] k' = none
claim_slot (k ∷ ks) k' =
    if not k.used then some (k' ∷ ks) else Option.map (◌∷◌ k) (claim_slot ks k')

-- The lines that `add` runs on the slot.
unfoldable pub knocked : PendingKnock → ℕ → ℕ → ℕ → PendingKnock
knocked k session expires mode = record k {
  used = true;
  session_id = session;
  expires_at_ms = expires;
  mode = mode;
}

-- `none` is the null pointer. An instance has 8 bytes; the copy takes as many, whatever is passed.
unfoldable pub add : List PendingKnock → List ℕ → ℕ → ℕ → ℕ → Option (List PendingKnock)
unfolding find_knock overwrite_slot claim_slot knocked
add ks id session expires mode = elim (find_knock ks id) [
  | some k ↦ some (overwrite_slot ks id (knocked k session expires mode))
  | none ↦
      claim_slot ks
        (knocked (record no_knock { instance_id = take instance_id_bytes id }) session expires mode)
]

unfoldable pub remove_knock : List PendingKnock → List ℕ → Bool × List PendingKnock
unfolding find_knock overwrite_slot
remove_knock ks id = elim (find_knock ks id) [
  | none ↦ (false, ks)
  | some k ↦ (true, overwrite_slot ks id no_knock)
]

-- The loop of `expire` and of `dropBySession`, by the test of a knock in use: the knocks for which
-- the callback is called, and the slots. Their number is the answer.
unfoldable pub sweep :
    (PendingKnock → Bool) → List PendingKnock → List PendingKnock × List PendingKnock
sweep goes [] = ([], [])
sweep goes (k ∷ ks) =
    let (gone, left) = sweep goes ks in
    if not k.used || not (goes k) then (gone, k ∷ left) else (k ∷ gone, no_knock ∷ left)

unfoldable pub expire : List PendingKnock → ℕ → List PendingKnock × List PendingKnock
unfolding sweep
expire ks now = sweep (λ k. time_reached now k.expires_at_ms) ks

unfoldable pub drop_by_session : List PendingKnock → ℕ → List PendingKnock × List PendingKnock
unfolding sweep
drop_by_session ks session = sweep (λ k. k.session_id == session) ks

unfoldable pub count_knocks : List PendingKnock → ℕ
count_knocks [] = 0
count_knocks (k ∷ ks) = let rest = count_knocks ks in if k.used then suc rest else rest
