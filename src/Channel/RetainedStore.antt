-- ===== src/Channel/RetainedStore.antt =====
-- channel/retained_store.hpp: the latest value of every STATE channel. The entries in use,
-- `_entries[0 .. _count)`, are the list, so `_count` is its length; a payload array with its size
-- is the list of the bytes that it holds.
pub mod Laws
mod Tests
use slop_sync.Base.{
  ℕ, ◌+◌, ◌%◌, Bool, true, false, Option, none, some, List, [], ◌∷◌, ◌++◌, length, ltb, leb, ◌==◌,
  if◌then◌else◌,
}
use slop_sync.Util.Serial.{u16_mod}

abbrev pub min_transport_payload : ℕ
min_transport_payload = 242

pub record RetainedView : Type 0 where
  pub seq : ℕ
  pub payload : List ℕ

pub record Entry : Type 0 where
  pub channel_id : ℕ
  pub valid : Bool
  pub seq : ℕ
  pub payload : List ℕ

abbrev pub RetainedStore : Type 0
RetainedStore = List Entry

unfoldable pub find : RetainedStore → ℕ → Option Entry
find [] c = none
find (e ∷ es) c = if e.channel_id == c then some e else find es c

-- The write through the pointer that `find` returned.
unfoldable pub overwrite : RetainedStore → ℕ → Entry → RetainedStore
overwrite [] c e' = []
overwrite (e ∷ es) c e' = if e.channel_id == c then e' ∷ es else e ∷ overwrite es c e'

abbrev pub new_entry : ℕ → Entry
new_entry c = record { channel_id = c; valid = false; seq = 0; payload = [] }

-- The end of `publish`, on the entry that was found or added.
abbrev pub written : Entry → List ℕ → Entry
written e payload = record e { seq = (e.seq + 1) % u16_mod; payload = payload; valid = true }

unfoldable pub publish : ℕ → RetainedStore → ℕ → List ℕ → Option ℕ × RetainedStore
unfolding find overwrite
publish capacity s c payload =
    if ltb min_transport_payload (length payload) then (none, s) else elim (find s c) [
      | some e ↦ (some (written e payload).seq, overwrite s c (written e payload))
      | none ↦
          if leb capacity (length s)
          then (none, s)
          else (some (written (new_entry c) payload).seq, s ++ (written (new_entry c) payload ∷ []))
    ]

-- The view of an entry that is there and valid.
abbrev pub view_of : Option Entry → Option RetainedView
view_of none = none
view_of (some e) = if e.valid then some (record { seq = e.seq; payload = e.payload }) else none

unfoldable pub get : RetainedStore → ℕ → Option RetainedView
unfolding find
get s c = view_of (find s c)
