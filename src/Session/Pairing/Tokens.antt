-- ===== src/Session/Pairing/Tokens.antt =====
-- What the tokens of session/pairing.hpp are worth: granting, presenting and revoking them.
use slop_sync.Base.{
  ℕ, ◌≡◌, refl, sym, ◌∙◌, subst, ◌≢◌, inl, inr, Bool, true, none, some, List, arith, ◌==◌,
  if◌then◌else◌, ==_true, ==_false, Bool-cases, Option-cases, length,
}
use slop_sync.Util.BoundedString.{same_bytes, same_bytes-true, same_bytes_refl, same_bytes-false}
use slop_sync.Session.Access.{AccessLevel, watch}
use slop_sync.Session.Pairing.{
  PairedEntry, PairingManager, blank, instance_id_bytes, token_bytes, recognized_pending,
  find_entry, overwrite_entry, claim_entry, find_by_instance, granted_entry, grant, validate,
  revoke, touch,
}
use slop_sync.Session.Pairing.Ledger.{
  find_entry_used, find_entry-overwrite, find_entry-claim, find_entry-free, IsUnique,
  IsUnique-overwrite, IsUnique-claim, IsUnique-free,
}

-- The token that is presented is the one on the ledger, whose role is in force.
pub record Holds (constant_time_equal : List ℕ → List ℕ → Bool) (m : PairingManager)
    (id token : List ℕ) (role : AccessLevel) : Type 0 where
  pub entry : PairedEntry
  pub listed : find_by_instance m id ≡ some entry
  pub sized : length token ≡ token_bytes
  pub matches : constant_time_equal entry.token token ≡ true
  pub in_force : entry.state ≢ recognized_pending
  pub role_of : entry.role ≡ role

pub find_by_instance-cong :
    (m m' : PairingManager) (id : List ℕ)
    → find_entry m'.entries id ≡ find_entry m.entries id
    → find_by_instance m' id ≡ find_by_instance m id
unfolding find_by_instance
find_by_instance-cong m m' id e = rw e refl

freed :
    (m : PairingManager) (id j : List ℕ)
    → IsUnique m.entries
    → find_by_instance (touch (record m { entries = overwrite_entry m.entries id blank })) j
      ≡ (if same_bytes id j then none else find_by_instance m j)
unfolding touch find_by_instance
freed m id j v = rw (find_entry-free m.entries id j v) (ground arith)

find_by_instance-revoke :
    (m : PairingManager) (id j : List ℕ)
    → IsUnique m.entries
    → find_by_instance (revoke m id).1 j ≡ (if same_bytes id j then none else find_by_instance m j)
unfolding revoke
find_by_instance-revoke m id j v = elim (Option-cases (find_by_instance m id)) [
  | inl missing ↦ elim (Bool-cases (same_bytes id j)) [
    | inl e ↦
        rw (revoke, missing, e)
          (subst (λ k. find_by_instance m k ≡ none) (same_bytes-true id j e) missing)
    | inr n ↦ rw (revoke, missing, n) refl
  ]
  | inr (e, found) ↦ rw (revoke, found) (freed m id j v)
]

IsUnique-revoke :
    (m : PairingManager) (id : List ℕ) → IsUnique m.entries → IsUnique (revoke m id).1.entries
unfolding touch revoke
IsUnique-revoke m id v = elim (Option-cases (find_by_instance m id)) [
  | inl missing ↦ rw (revoke, missing) v
  | inr (e, found) ↦ rw (revoke, found) (IsUnique-free m.entries id v)
]

-- A grant puts its entry on the ledger, leaves the other instances alone, and keeps the ledger unique.
record Grants (m m' : PairingManager) (id : List ℕ) (role : AccessLevel) (mode : ℕ) (fresh : List ℕ)
    : Type 0 where
  entry : PairedEntry
  sized : length id ≡ instance_id_bytes
  listed :
      (j : List ℕ)
      → find_entry m'.entries j ≡ (
          if same_bytes id j
          then some (granted_entry entry role mode m.wall_seconds fresh)
          else find_entry m.entries j)
  unique : IsUnique m.entries → IsUnique m'.entries

grant-Grants :
    (m m' : PairingManager) (id : List ℕ) (role : AccessLevel) (mode : ℕ) (fresh : List ℕ)
    → grant m id role mode fresh ≡ some m'
    → Grants m m' id role mode fresh
unfolding grant find_by_instance touch granted_entry
grant-Grants m m' id role mode fresh h = elim (Bool-cases (length id == instance_id_bytes)) [
  | inr short ↦ absurd (ground (arith, short))
  | inl whole ↦ elim (Option-cases (find_entry m.entries id)) [
    | inr (e, found) ↦
        let q : m'.entries
            ≡ overwrite_entry m.entries id (granted_entry e role mode m.wall_seconds fresh) =
          ground (arith, whole, found, h) in
        let named = same_bytes-true e.instance_id id (find_entry_used m.entries id e found).1 in
        record {
          entry = e;
          sized = ground arith;
          listed = λ j. rw q (find_entry-overwrite m.entries id e _ j found refl named);
          unique = λ v. rw q (IsUnique-overwrite m.entries id e _ found refl named v);
        }
    | inl missing ↦
        elim (Option-cases (
          claim_entry m.entries (
            granted_entry (record blank { instance_id = id; first_seen = m.wall_seconds }) role mode
              m.wall_seconds fresh))) [
                | inl full ↦ absurd (ground (arith, whole, missing, full))
                | inr (es, made) ↦
                    let q : m'.entries ≡ es = ground (arith, whole, missing, made, h) in
                    record {
                      entry = record blank { instance_id = id; first_seen = m.wall_seconds };
                      sized = ground arith;
                      listed =
                          λ j. rw q (find_entry-claim m.entries es id _ j missing made refl refl);
                      unique = λ v. rw q (IsUnique-claim m.entries es _ missing made refl v);
                    }
              ]
  ]
]

module _ (constant_time_equal : List ℕ → List ℕ → Bool) where
  -- A role above `watch` is given only to whoever presents the token of the instance's entry, while
  -- that entry is not suspended; and the role is the entry's.
  pub validate-Holds :
      (m : PairingManager) (id token : List ℕ) (role : AccessLevel)
      → validate constant_time_equal m id token ≡ role
      → role ≢ watch
      → Holds constant_time_equal m id token role
  unfolding validate
  validate-Holds m id token role h n = elim (Bool-cases (length token == token_bytes)) [
    | inr short ↦ absurd (n (ground (arith, short)))
    | inl whole ↦ elim (Option-cases (find_by_instance m id)) [
      | inl missing ↦ absurd (n (ground (arith, whole, missing)))
      | inr (e, found) ↦ elim (Bool-cases (constant_time_equal e.token token)) [
        | inr wrong ↦ absurd (n (ground (arith, whole, found, wrong)))
        | inl right ↦ elim (Bool-cases (e.state == recognized_pending)) [
          | inl held ↦ absurd (n (ground (arith, whole, found, right, held)))
          | inr free ↦ record {
            entry = e;
            listed = found;
            sized = ground arith;
            matches = right;
            in_force = ground arith;
            role_of = ground (arith, whole, found, right, free);
          }
        ]
      ]
    ]
  ]

  -- Validation depends on the ledger only at the instance.
  pub validate-cong :
      (m m' : PairingManager) (id token : List ℕ)
      → find_by_instance m' id ≡ find_by_instance m id
      → validate constant_time_equal m' id token ≡ validate constant_time_equal m id token
  unfolding validate
  validate-cong m m' id token e = rw e refl

  pub validate_missing :
      (m : PairingManager) (id token : List ℕ)
      → find_by_instance m id ≡ none
      → validate constant_time_equal m id token ≡ watch
  unfolding validate
  validate_missing m id token e = rw e (ground arith)

  pub validate_listed :
      (m : PairingManager) (id token : List ℕ) (e : PairedEntry)
      → find_by_instance m id ≡ some e
      → length token ≡ token_bytes
      → constant_time_equal e.token token ≡ true
      → e.state ≢ recognized_pending
      → validate constant_time_equal m id token ≡ e.role
  unfolding validate
  validate_listed m id token e found size same free =
      rw
        (
          found,
          same,
          ==_true (length token) token_bytes size,
          ==_false e.state recognized_pending free,
        )
        refl

  pub validate_suspended :
      (m : PairingManager) (id token : List ℕ) (e : PairedEntry)
      → find_by_instance m id ≡ some e
      → e.state ≡ recognized_pending
      → validate constant_time_equal m id token ≡ watch
  unfolding validate
  validate_suspended m id token e found held = rw found (ground (arith, held))

  -- Two entries that agree on what validation reads.
  pub validate_alike :
      (m m' : PairingManager) (id token : List ℕ) (e e' : PairedEntry)
      → find_by_instance m id ≡ some e
      → find_by_instance m' id ≡ some e'
      → e'.token ≡ e.token
      → e'.role ≡ e.role
      → e'.state ≡ e.state
      → validate constant_time_equal m' id token ≡ validate constant_time_equal m id token
  unfolding validate
  validate_alike m m' id token e e' found found' t r st = rw (found, found', t, r, st) refl

  -- After a grant with a fresh token of 16 bytes that compares equal to itself, the instance's fresh token has the granted role, the validation of every other
  -- instance is as before, and the ledger still has at most one entry for each instance if it had.
  pub grant-validate :
      (m m' : PairingManager) (id : List ℕ) (role : AccessLevel) (mode : ℕ) (fresh : List ℕ)
      → constant_time_equal fresh fresh ≡ true
      → length fresh ≡ token_bytes
      → grant m id role mode fresh ≡ some m'
      → (validate constant_time_equal m' id fresh ≡ role)
        × ((j token : List ℕ)
            → j ≢ id
            → validate constant_time_equal m' j token ≡ validate constant_time_equal m j token)
        × (IsUnique m.entries → IsUnique m'.entries)
  unfolding granted_entry find_by_instance
  grant-validate m m' id role mode fresh same size h =
      let g = grant-Grants m m' id role mode fresh h in
      (
        validate_listed m' id fresh (granted_entry g.entry role mode m.wall_seconds fresh)
            (rw (==_true (length id) instance_id_bytes g.sized)
              (g.listed id ∙ (rw (same_bytes_refl id) refl)))
            size same (omega arith),
        (λ j token n. validate-cong m m' j token (
            find_by_instance-cong m m' j
              (g.listed j ∙ rw (same_bytes-false id j (λ e. n (sym e))) refl))),
        g.unique,
      )

  -- On a ledger with at most one entry for each instance, after a revocation every token of the
  -- instance has only `watch`, the validation of every other instance is as before, and there still
  -- is at most one entry for each instance.
  pub revoke-validate :
      (m : PairingManager) (id : List ℕ)
      → IsUnique m.entries
      → let m' = (revoke m id).1 in
        ((token : List ℕ) → validate constant_time_equal m' id token ≡ watch)
        × ((j token : List ℕ)
            → j ≢ id
            → validate constant_time_equal m' j token ≡ validate constant_time_equal m j token)
        × IsUnique m'.entries
  revoke-validate m id v = (
    (λ token.
        validate_missing (revoke m id).1 id token
          (find_by_instance-revoke m id id v ∙ rw (same_bytes_refl id) refl)),
    (λ j token n.
        validate-cong m (revoke m id).1 j token
          (find_by_instance-revoke m id j v ∙ rw (same_bytes-false id j (λ e. n (sym e))) refl)),
    IsUnique-revoke m id v,
  )
