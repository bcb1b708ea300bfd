-- ===== src/Session/Ownership.antt =====
-- `SourceOwnershipTable` of session/safety.hpp: exclusive ownership of the control sources.
pub mod Laws
pub mod Safety
mod Tests
use slop_sync.Base.{
  ℕ, zero, suc, ◌+◌, ◌-◌, ◌*◌, ◌/◌, ◌%◌, ◌^◌, ◌≤◌, ◌<◌, min, bit_and, bit_or, bit_xor, ◌≡◌, refl,
  sym, ap, ◌∙◌, subst, ◌≢◌, ◌↔◌, ◌⊎◌, inl, inr, Bool, true, false, not, ◌&&◌, ◌||◌, Option, none,
  some, List, [], ◌∷◌, ◌++◌, map, append-nil, append_assoc, arith, ltb, leb, ◌==◌, if◌then◌else◌,
  ==_iff, ltb-true, ltb-false, leb-true, leb-false, ==_true, ==_false, Bool-cases, Option-cases,
  length, get_elem?, get_or, set, take, drop, replicate, All, length-append, length-replicate,
  length-set, get_or-set_self, get_or-set_ne, take-append-drop, length-take, length-drop,
  drop-append, list_ext, write_at, length-write_at, get_or-write_at, take-write_at, drop-write_at,
}
use mathlib.Core.Option
use slop_sync.Session.Access.{AccessLevel, watch, rank}

abbrev pub max_sources : ℕ
max_sources = 4

pub data AcquireResult : Type 0 where
  acquired already_owner conflict taken_over : AcquireResult

-- An owner of 0 is no owner.
pub record Entry : Type 0 where
  pub source_id : ℕ
  pub owner : ℕ
  pub role : AccessLevel
  pub used : Bool

abbrev pub unused : Entry
unused = record { source_id = 0; owner = 0; role = watch; used = false }

-- The array of the table has `max_sources` entries.
abbrev pub Table : Type 0
Table = List Entry

abbrev pub new_table : Table
new_table = replicate max_sources unused

unfoldable pub find : Table → ℕ → Option Entry
find [] s = none
find (e ∷ es) s = if e.used && e.source_id == s then some e else find es s

-- The write through the pointer that `find` or `find_or_create` returned.
unfoldable pub overwrite : Table → ℕ → Entry → Table
overwrite [] s e' = []
overwrite (e ∷ es) s e' = if e.used && e.source_id == s then e' ∷ es else e ∷ overwrite es s e'

abbrev pub created : ℕ → Entry
created s = record { source_id = s; owner = 0; role = watch; used = true }

-- The loop of `findOrCreate`: the first unused entry is taken.
unfoldable pub create : Table → ℕ → Option Table
create [] s = none
create (e ∷ es) s =
    if not e.used then some (created s ∷ es) else Option.map (λ es'. e ∷ es') (create es s)

unfoldable pub find_or_create : Table → ℕ → Option (Entry × Table)
unfolding find create
find_or_create t s = elim (find t s) [
  | some e ↦ some (e, t)
  | none ↦ Option.map (λ t'. (created s, t')) (create t s)
]

-- The end of `acquire`, on the entry of the source.
unfoldable pub acquire_entry : Entry → ℕ → AccessLevel → Bool → AcquireResult × Entry
acquire_entry e session role takeover =
    if e.owner == 0
    then (acquired, record e { owner = session; role = role })
    else if e.owner == session
    then (already_owner, e)
    else if takeover && leb (rank e.role) (rank role)
    then (taken_over, record e { owner = session; role = role })
    else (conflict, e)

unfoldable pub acquire : Table → ℕ → ℕ → AccessLevel → Bool → AcquireResult × Table
unfolding find_or_create acquire_entry overwrite
acquire t s session role takeover = elim (find_or_create t s) [
  | none ↦ (conflict, t)
  | some (e, t') ↦ let (r, e') = acquire_entry e session role takeover in (r, overwrite t' s e')
]

unfoldable pub release : Table → ℕ → ℕ → Bool × Table
unfolding find overwrite
release t s session = elim (find t s) [
  | none ↦ (false, t)
  | some e ↦
      if not (e.owner == session)
      then (false, t)
      else (true, overwrite t s (record e { owner = 0; role = watch }))
]

-- The list holds the sources for which the callback is called, in order.
unfoldable pub release_all_of : Table → ℕ → List ℕ × Table
release_all_of [] session = ([], [])
release_all_of (e ∷ es) session =
    let (hits, es') = release_all_of es session in
    if e.used && e.owner == session
    then (e.source_id ∷ hits, record e { owner = 0; role = watch } ∷ es')
    else (hits, e ∷ es')

abbrev pub owner_or_none : Option Entry → ℕ
owner_or_none none = 0
owner_or_none (some e) = e.owner

abbrev pub role_or_watch : Option Entry → AccessLevel
role_or_watch none = watch
role_or_watch (some e) = e.role

unfoldable pub owner_of : Table → ℕ → ℕ
unfolding find
owner_of t s = owner_or_none (find t s)

unfoldable pub owner_role_of : Table → ℕ → AccessLevel
unfolding find
owner_role_of t s = role_or_watch (find t s)
