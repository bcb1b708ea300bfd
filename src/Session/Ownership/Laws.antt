-- ===== src/Session/Ownership/Laws.antt =====
-- What each call on the ownership table of session/safety.hpp does to every source.
use slop_sync.Base.{
  ◌||◌, ℕ, ◌≤◌, ◌<◌, ◌≡◌, refl, ◌≢◌, ◌⊎◌, inl, inr, Bool, true, false, none, some, [], ◌∷◌, arith,
  ◌==◌, if◌then◌else◌, Option-cases, List, Bool-cases, ==_iff, subst,
}
use slop_sync.Session.Ownership.{
  Entry, Table, find, overwrite, created, AcquireResult, acquired, already_owner, conflict,
  taken_over, create, find_or_create, acquire, AccessLevel, owner_of, owner_or_none, owner_role_of,
  role_or_watch, AcquireResult, rank, acquire_entry, release_all_of, release, watch,
}

find_used :
    (t : Table) (s : ℕ) (e : Entry) → find t s ≡ some e → (e.used ≡ true) × (e.source_id ≡ s)
unfolding find
find_used [] s e h = cc
find_used (x ∷ t) s e h = ground (arith, find_used t s e)

find-overwrite :
    (t : Table) (s : ℕ) (e e' : Entry) (j : ℕ)
    → find t s ≡ some e
    → e'.used ≡ true
    → e'.source_id ≡ s
    → find (overwrite t s e') j ≡ (if s == j then some e' else find t j)
unfolding find overwrite
find-overwrite [] s e e' j h u k = cc
find-overwrite (x ∷ t) s e e' j h u k = ground (arith, find-overwrite t s e e' j)

find-create :
    (t t' : Table) (s j : ℕ)
    → find t s ≡ none
    → create t s ≡ some t'
    → find t' j ≡ (if s == j then some (created s) else find t j)
unfolding find create
find-create [] t' s j h k = cc
find-create (x ∷ t) t' s j h k = elim (Option-cases (create t s)) [
  | inl full ↦ ground (arith, full)
  | inr (t'', made) ↦ ground (arith, made, find-create t t'' s j (ground arith) made)
]

-- No source can be given a new entry.
abbrev pub IsFull : Table → Type 0
IsFull t = (j : ℕ) → create t j ≡ none

create_any : (t : Table) (s j : ℕ) → create t s ≡ none → create t j ≡ none
unfolding create
create_any [] s j h = refl
create_any (x ∷ t) s j h = elim (Option-cases (create t s)) [
  | inl full ↦ ground (arith, full, create_any t s j full)
  | inr (t', made) ↦ ground (arith, made)
]

find-find_or_create :
    (t : Table) (s : ℕ) (e : Entry) (t' : Table) (j : ℕ)
    → find_or_create t s ≡ some (e, t')
    → (find t' s ≡ some e)
      × (e.used ≡ true)
      × (e.source_id ≡ s)
      × (owner_or_none (find t s) ≡ e.owner)
      × (role_or_watch (find t s) ≡ e.role)
      × (j ≢ s → find t' j ≡ find t j)
unfolding find_or_create
find-find_or_create t s e t' j h = elim (Option-cases (find t s)) [
  | inr (x, found) ↦ ground (arith, found, find_used t s x found)
  | inl missing ↦ elim (Option-cases (create t s)) [
    | inl full ↦ ground (arith, missing, full)
    | inr (t'', made) ↦ ground (
      arith,
      missing,
      made,
      find-create t t'' s s missing made,
      find-create t t'' s j missing made,
    )
  ]
]

find_or_create-none : (t : Table) (s : ℕ) → find_or_create t s ≡ none → (find t s ≡ none) × IsFull t
unfolding find_or_create
find_or_create-none t s h = elim (Option-cases (find t s)) [
  | inr (x, found) ↦ ground (arith, found)
  | inl missing ↦ elim (Option-cases (create t s)) [
    | inr (t', made) ↦ ground (arith, missing, made)
    | inl full ↦ (missing, λ j. create_any t s j full)
  ]
]

-- What `acquire` may have done, read off the owner and role of the source before and after.
abbrev pub Acquires : Table → ℕ → ℕ → AccessLevel → Bool → AcquireResult → Table → Type 0
Acquires t s id role takeover acquired t' =
    (owner_of t s ≡ 0) × (owner_of t' s ≡ id) × (owner_role_of t' s ≡ role)
Acquires t s id role takeover already_owner t' =
    (owner_of t s ≡ id) × (owner_of t' s ≡ id) × (owner_role_of t' s ≡ owner_role_of t s)
Acquires t s id role takeover taken_over t' =
    (owner_of t s ≢ 0)
    × (owner_of t s ≢ id)
    × (takeover ≡ true)
    × (rank (owner_role_of t s) ≤ rank role)
    × (owner_of t' s ≡ id)
    × (owner_role_of t' s ≡ role)
Acquires t s id role takeover conflict t' =
    (owner_of t' s ≡ owner_of t s)
    × (owner_role_of t' s ≡ owner_role_of t s)
    × ((find t s ≡ none) × IsFull t
        ⊎ ((owner_of t s ≢ 0)
            × (owner_of t s ≢ id)
            × ((takeover ≡ false) ⊎ (rank role < rank (owner_role_of t s)))))

-- Each answer of `acquire` tells what held before and what
-- holds after: `acquired` takes an unowned source, `already_owner` changes nothing, `taken_over`
-- displaces another owner on request and by a role at least as high, and `conflict` leaves owner and
-- role, because another session owns the source and was not to be displaced, or because the table
-- has neither an entry for the source nor a free one. Every other source keeps its owner and role.
pub acquire-Acquires :
    (t : Table) (s id : ℕ) (role : AccessLevel) (takeover : Bool) (j : ℕ)
    → let (r, t') = acquire t s id role takeover in
      Acquires t s id role takeover r t'
      × (j ≢ s → (owner_of t' j ≡ owner_of t j) × (owner_role_of t' j ≡ owner_role_of t j))
unfolding acquire owner_of owner_role_of
acquire-Acquires t s id role takeover j = elim (Option-cases (find_or_create t s)) [
  | inl full ↦
      let stuck = find_or_create-none t s full in
      rw (full, acquire) ((refl, refl, inl stuck), λ n. (refl, refl))
  | inr ((e, t'), made) ↦
      let e' = (acquire_entry e id role takeover).1 in
      unfold acquire_entry in
      ground (
        arith,
        made,
        find-find_or_create t s e t' j made,
        find-overwrite t' s e e' s,
        find-overwrite t' s e e' j,
      )
]

-- `release` answers whether the session owned the source, as known to the table. If so the source has
-- no owner afterwards, and otherwise nothing changes; every other source keeps its owner and role.
pub release_lem :
    (t : Table) (s id j : ℕ)
    → let (released, t') = release t s id in
      ((released ≡ true)
          × (find t s ≢ none)
          × (owner_of t s ≡ id)
          × (owner_of t' s ≡ 0)
          × (owner_role_of t' s ≡ watch)
        ⊎ ((released ≡ false) × (t' ≡ t) × ((find t s ≡ none) ⊎ (owner_of t s ≢ id))))
      × (j ≢ s → (owner_of t' j ≡ owner_of t j) × (owner_role_of t' j ≡ owner_role_of t j))
unfolding release owner_of owner_role_of
release_lem t s id j = elim (Option-cases (find t s)) [
  | inl missing ↦ ground (arith, missing)
  | inr (e, found) ↦
      let e' = record e { owner = 0; role = watch } in
      ground
        (arith, found, find_used t s e found, find-overwrite t s e e' s, find-overwrite t s e e' j)
]

-- After `release_all_of` a session owns nothing, and every source that it did not own keeps its owner
-- and role.
pub release_all_of_lem :
    (t : Table) (id j : ℕ)
    → let t' = (release_all_of t id).1 in
      (owner_of t' j ≡ (if owner_of t j == id then 0 else owner_of t j))
      × (owner_role_of t' j ≡ (if owner_of t j == id then watch else owner_role_of t j))
unfolding release_all_of owner_of owner_role_of find
release_all_of_lem [] id j = ground arith
release_all_of_lem (e ∷ t) id j = ground (arith, release_all_of_lem t id j)

-- No two entries in use are for one source.
abbrev pub Absent : ℕ → Table → Type 0
Absent s [] = Unit {0}
Absent s (e ∷ es) = (e.used ≡ true → e.source_id ≢ s) × Absent s es

abbrev pub IsValid : Table → Type 0
IsValid [] = Unit {0}
IsValid (e ∷ es) = (e.used ≡ true → Absent e.source_id es) × IsValid es

abbrev pub contains : ℕ → List ℕ → Bool
contains s [] = false
contains s (x ∷ xs) = x == s || contains s xs

find-Absent : (t : Table) (s : ℕ) → Absent s t → find t s ≡ none
unfolding find
find-Absent [] s a = refl
find-Absent (e ∷ t) s a = elim (Bool-cases e.used) [
  | inl u ↦ let ne : e.source_id ≢ s = a.0 u in ground (arith, u, find-Absent t s a.1)
  | inr u ↦ ground (arith, u, find-Absent t s a.1)
]

-- In a table with one entry for each source, the callback of `release_all_of` runs for exactly the
-- sources that the session owned.
pub release_all_of-contains :
    (t : Table) (id j : ℕ)
    → IsValid t
    → id ≢ 0
    → contains j (release_all_of t id).0 ≡ (owner_of t j == id)
unfolding release_all_of owner_of find
release_all_of-contains [] id j v h = ground arith
release_all_of-contains (e ∷ t) id j v h = elim (Bool-cases e.used) [
  | inl u ↦ elim (Bool-cases (e.source_id == j)) [
    | inl here ↦
        let same : e.source_id ≡ j = (==_iff e.source_id j).0 here in
        let gone : find t j ≡ none = find-Absent t j (subst (λ k. Absent k t) same (v.0 u)) in
        ground (arith, u, gone, release_all_of-contains t id j v.1 h)
    | inr there ↦ ground (arith, u, there, release_all_of-contains t id j v.1 h)
  ]
  | inr u ↦ ground (arith, u, release_all_of-contains t id j v.1 h)
]
