-- ===== src/Session/Pairing/Ledger.antt =====
-- The ledger of session/pairing.hpp as a map from the instance to its entry.
use slop_sync.Base.{
  ℕ, ◌≡◌, refl, sym, ap, ◌∙◌, subst, inl, inr, true, ◌&&◌, none, some, List, [], ◌∷◌, arith,
  if◌then◌else◌, Bool-cases, Option-cases,
}
use slop_sync.Util.BoundedString.{same_bytes, same_bytes-true, same_bytes_refl}
use slop_sync.Session.Pairing.{PairedEntry, blank, find_entry, overwrite_entry, claim_entry}

same_bytes_join :
    (a b c : List ℕ) → same_bytes a c ≡ true → same_bytes b c ≡ true → same_bytes a b ≡ true
same_bytes_join a b c p q =
    subst (λ d. same_bytes a d ≡ true) (same_bytes-true a c p ∙ sym (same_bytes-true b c q))
      (same_bytes_refl a)

same_bytes_sym : (a b : List ℕ) → same_bytes a b ≡ true → same_bytes b a ≡ true
same_bytes_sym a b p =
    subst (λ d. same_bytes d a ≡ true) (same_bytes-true a b p) (same_bytes_refl a)

pub find_entry_used :
    (es : List PairedEntry) (id : List ℕ) (e : PairedEntry)
    → find_entry es id ≡ some e
    → (e.used ≡ true) × (same_bytes e.instance_id id ≡ true)
unfolding find_entry
find_entry_used [] id e h = cc
find_entry_used (x ∷ es) id e h = ground (arith, find_entry_used es id e)

pub find_entry-overwrite :
    (es : List PairedEntry) (id : List ℕ) (e e' : PairedEntry) (j : List ℕ)
    → find_entry es id ≡ some e
    → e'.used ≡ true
    → e'.instance_id ≡ id
    → find_entry (overwrite_entry es id e') j
      ≡ (if same_bytes id j then some e' else find_entry es j)
unfolding find_entry overwrite_entry
find_entry-overwrite [] id e e' j h u k = cc
find_entry-overwrite (x ∷ es) id e e' j h u k =
    elim (Bool-cases (x.used && same_bytes x.instance_id id)) [
      | inl hit ↦
          let same : x.instance_id ≡ id = same_bytes-true x.instance_id id (ground arith) in
          rw (hit, u, k, same) (ground arith)
      | inr miss ↦
          rw (miss, find_entry-overwrite es id e e' j (ground arith) u k)
            (ground (arith, same_bytes_join x.instance_id id j))
    ]

pub find_entry-claim :
    (es es' : List PairedEntry) (id : List ℕ) (e' : PairedEntry) (j : List ℕ)
    → find_entry es id ≡ none
    → claim_entry es e' ≡ some es'
    → e'.used ≡ true
    → e'.instance_id ≡ id
    → find_entry es' j ≡ (if same_bytes id j then some e' else find_entry es j)
unfolding find_entry claim_entry
find_entry-claim [] es' id e' j h c u k = cc
find_entry-claim (x ∷ es) es' id e' j h c u k = elim (Option-cases (claim_entry es e')) [
  | inl full ↦ ground (arith, full, ap (λ a. same_bytes a j) k, same_bytes_join x.instance_id id j)
  | inr (es'', made) ↦ ground (
    arith,
    made,
    find_entry-claim es es'' id e' j (ground arith) made u k,
    same_bytes_join x.instance_id id j,
  )
]

-- No two entries in use have one instance.
unfoldable pub IsUnique : List PairedEntry → Type 0
IsUnique [] = Unit
IsUnique (e ∷ es) = (e.used ≡ true → find_entry es e.instance_id ≡ none) × IsUnique es

pub IsUnique-overwrite :
    (es : List PairedEntry) (id : List ℕ) (e e' : PairedEntry)
    → find_entry es id ≡ some e
    → e'.used ≡ true
    → e'.instance_id ≡ id
    → IsUnique es
    → IsUnique (overwrite_entry es id e')
unfolding IsUnique overwrite_entry find_entry
IsUnique-overwrite [] id e e' h u k v = v
IsUnique-overwrite (x ∷ es) id e e' h u k (v, w) =
    elim (Bool-cases (x.used && same_bytes x.instance_id id)) [
      | inl hit ↦
          let same : x.instance_id ≡ id = same_bytes-true x.instance_id id (ground arith) in
          rw hit ((λ _. rw (k, ← same) (v (ground arith))), w)
      | inr miss ↦ rw miss (
        (λ q. rw (find_entry-overwrite es id e e' x.instance_id (ground arith) u k) (
            ground
              (arith, v q, same_bytes_join x.instance_id id id, same_bytes_sym id x.instance_id))),
        IsUnique-overwrite es id e e' (ground arith) u k w,
      )
    ]

pub IsUnique-claim :
    (es es' : List PairedEntry) (e' : PairedEntry)
    → find_entry es e'.instance_id ≡ none
    → claim_entry es e' ≡ some es'
    → e'.used ≡ true
    → IsUnique es
    → IsUnique es'
unfolding IsUnique claim_entry find_entry
IsUnique-claim [] es' e' h c u v = cc
IsUnique-claim (x ∷ es) es' e' h c u (v, w) = elim (Option-cases (claim_entry es e')) [
  | inl full ↦
      let e : e' ∷ es ≡ es' = ground (arith, full) in subst IsUnique e ((λ _. ground arith), w)
  | inr (es'', made) ↦ elim (Bool-cases x.used) [
    | inr free ↦
        let e : e' ∷ es ≡ es' = ground (arith, made) in subst IsUnique e ((λ _. ground arith), w)
    | inl busy ↦
        let e : x ∷ es'' ≡ es' = ground (arith, made) in
        let missing : find_entry es e'.instance_id ≡ none = ground arith in
        subst IsUnique e (
          (λ q.
              rw (find_entry-claim es es'' e'.instance_id e' x.instance_id missing made u refl)
                (ground (arith, v q, same_bytes_sym e'.instance_id x.instance_id))),
          IsUnique-claim es es'' e' missing made u w,
        )
  ]
]

-- Freeing the only entry of an instance takes it out of the ledger and leaves the others.
pub find_entry-free :
    (es : List PairedEntry) (id j : List ℕ)
    → IsUnique es
    → find_entry (overwrite_entry es id blank) j
      ≡ (if same_bytes id j then none else find_entry es j)
unfolding find_entry overwrite_entry IsUnique
find_entry-free [] id j v = ground arith
find_entry-free (x ∷ es) id j (v, w) = elim (Bool-cases (x.used && same_bytes x.instance_id id)) [
  | inl hit ↦
      let same : x.instance_id ≡ id = same_bytes-true x.instance_id id (ground arith) in
      elim (Bool-cases (same_bytes id j)) [
        | inl yes_ ↦
            let here = same ∙ same_bytes-true id j yes_ in
            rw (hit, yes_) (subst (λ k. find_entry es k ≡ none) here (v (ground arith)))
        | inr no_ ↦ rw (hit, same, no_) (ground arith)
      ]
  | inr miss ↦
      rw (miss, find_entry-free es id j w) (ground (arith, same_bytes_join x.instance_id id j))
]

pub IsUnique-free :
    (es : List PairedEntry) (id : List ℕ) → IsUnique es → IsUnique (overwrite_entry es id blank)
unfolding IsUnique overwrite_entry
IsUnique-free [] id v = v
IsUnique-free (x ∷ es) id (v, w) = elim (Bool-cases (x.used && same_bytes x.instance_id id)) [
  | inl hit ↦ rw hit ((λ q. absurd (ground (arith, q))), w)
  | inr miss ↦ rw miss (
    (λ q. rw (find_entry-free es id x.instance_id w) (ground (arith, v q))),
    IsUnique-free es id w,
  )
]
