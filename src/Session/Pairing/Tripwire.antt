-- ===== src/Session/Pairing/Tripwire.antt =====
-- `observeHello` of session/pairing.hpp: what a HELLO may change.
use slop_sync.Base.{
  ℕ, ◌≤◌, ◌<◌, ◌≡◌, refl, sym, ◌∙◌, ◌≢◌, ◌⊎◌, inl, inr, Bool, true, false, not, ◌&&◌, some, List,
  arith, leb, ◌==◌, if◌then◌else◌, leb-false, ==_true, ==_false, Bool-cases, length,
}
use slop_sync.Util.BoundedString.{
  same_bytes-true, same_bytes_refl, same_bytes-false, same_as, is_empty,
}
use slop_sync.Session.Access.{watch, rank, AccessLevel}
use slop_sync.Session.Pairing.{
  PairedEntry, PairingManager, Hello, HelloObservation, recognized_pending,
  ledger_version_max_bytes, find_entry, overwrite_entry, relabel, observed, touch, observe_entry,
  observe_hello, find_by_instance, instance_id_bytes, validate,
}
use slop_sync.Session.Pairing.Ledger.{find_entry_used, find_entry-overwrite}
use slop_sync.Session.Pairing.Tokens.{
  validate_alike, validate_suspended, validate-cong, find_by_instance-cong,
}

-- The conditions under which the version that a HELLO reports trips the wire.
pub record Trips (m : PairingManager) (e : PairedEntry) (h : Hello) : Type 0 where
  pub reported : h.has_version ≡ true
  pub recorded : is_empty e.version ≡ false
  pub changed : same_as ledger_version_max_bytes e.version h.version ≡ false
  pub trusted_before : e.state ≢ recognized_pending
  pub above : rank m.auto_keep_max < rank e.role

-- What a HELLO of a known device leaves: the entry keeps its token and its role, and the role that is
-- in force does not rise.
record Keeps (m : PairingManager) (id : List ℕ) (e : PairedEntry) (o : HelloObservation)
    (m' : PairingManager) : Type 0 where
  entry : PairedEntry
  listed : find_entry m'.entries id ≡ some entry
  token : entry.token ≡ e.token
  role : entry.role ≡ e.role
  state : (entry.state ≡ e.state) ⊎ (entry.state ≡ recognized_pending)
  effective : o.effective_role ≡ (if entry.state == recognized_pending then watch else entry.role)
  others : (j : List ℕ) → j ≢ id → find_entry m'.entries j ≡ find_entry m.entries j

keeps :
    (m m' : PairingManager) (id : List ℕ) (e e' : PairedEntry) (o : HelloObservation)
    → find_entry m.entries id ≡ some e
    → m'.entries ≡ overwrite_entry m.entries id e'
    → e'.used ≡ true
    → e'.instance_id ≡ e.instance_id
    → e'.token ≡ e.token
    → e'.role ≡ e.role
    → (e'.state ≡ e.state) ⊎ (e'.state ≡ recognized_pending)
    → o.effective_role ≡ (if e'.state == recognized_pending then watch else e'.role)
    → Keeps m id e o m'
keeps m m' id e e' o found q used named token role state effective =
    let at_id : e'.instance_id ≡ id =
      named ∙ same_bytes-true e.instance_id id (find_entry_used m.entries id e found).1 in
    let after = find_entry-overwrite m.entries id e e' in
    record {
      entry = e';
      listed = rw q (after id found used at_id ∙ (rw (same_bytes_refl id) refl));
      token = token;
      role = role;
      state = state;
      effective = effective;
      others = λ j n.
          rw q (after j found used at_id ∙ (rw (same_bytes-false id j (λ p. n (sym p))) refl));
    }

observe_entry-Keeps :
    (m : PairingManager) (id : List ℕ) (h : Hello) (e : PairedEntry)
    → find_entry m.entries id ≡ some e
    → Keeps m id e (observe_entry m id h e).0 (observe_entry m id h e).1
unfolding observe_entry relabel observed touch
observe_entry-Keeps m id h e found =
    let used = (find_entry_used m.entries id e found).0 in
    elim (Bool-cases (
      h.has_version
      && not (same_as ledger_version_max_bytes e.version h.version)
      && not (is_empty e.version)
      && not (e.state == recognized_pending))) [
        | inl trip ↦ elim (Bool-cases (leb (rank e.role) (rank m.auto_keep_max))) [
          | inl kept ↦
              rw (trip, kept) (keeps m _ id e _ _ found refl used refl refl refl (inl refl) refl)
          | inr above ↦
              rw (trip, above) (keeps m _ id e _ _ found refl used refl refl refl (inr refl) refl)
        ]
        | inr quiet ↦ elim (Bool-cases (h.has_version && is_empty e.version)) [
          | inl first ↦
              rw (quiet, first) (keeps m _ id e _ _ found refl used refl refl refl (inl refl) refl)
          | inr later ↦ elim (Bool-cases (not (e.state == recognized_pending))) [
            | inl fresh ↦
                rw (quiet, later, fresh)
                  (keeps m _ id e _ _ found refl used refl refl refl (inl refl) refl)
            | inr held ↦
                rw (quiet, later, held)
                  (keeps m _ id e _ _ found refl used refl refl refl (inl refl) refl)
          ]
        ]
      ]

found_entry :
    (m : PairingManager) (id : List ℕ) (e : PairedEntry)
    → find_by_instance m id ≡ some e
    → (length id ≡ instance_id_bytes) × (find_entry m.entries id ≡ some e)
unfolding find_by_instance
found_entry m id e h = ground arith

observe_hello-Keeps :
    (m : PairingManager) (id : List ℕ) (h : Hello) (e : PairedEntry)
    → find_by_instance m id ≡ some e
    → Keeps m id e (observe_hello m id h).0 (observe_hello m id h).1
unfolding observe_hello
observe_hello-Keeps m id h e found =
    rw (observe_hello, found) (observe_entry-Keeps m id h e (found_entry m id e found).1)

listed_by_instance :
    (m : PairingManager) (id : List ℕ) (e : PairedEntry)
    → length id ≡ instance_id_bytes
    → find_entry m.entries id ≡ some e
    → find_by_instance m id ≡ some e
unfolding find_by_instance
listed_by_instance m id e size h = rw (==_true (length id) instance_id_bytes size) h

-- A HELLO of a known device never raises what the device may do: the role in force is at most the
-- entry's role, each token of it validates as before or to `watch`, and other devices validate as
-- before.
pub observe_hello_never_raises :
    (constant_time_equal : List ℕ → List ℕ → Bool) (m : PairingManager) (id : List ℕ) (h : Hello)
    (e : PairedEntry)
    → find_by_instance m id ≡ some e
    → let (o, m') = observe_hello m id h in
      (rank o.effective_role ≤ rank e.role)
      × ((token : List ℕ)
          → (validate constant_time_equal m' id token ≡ validate constant_time_equal m id token)
            ⊎ (validate constant_time_equal m' id token ≡ watch))
      × ((j token : List ℕ)
          → j ≢ id
          → validate constant_time_equal m' j token ≡ validate constant_time_equal m j token)
observe_hello_never_raises constant_time_equal m id h e found =
    let m' = (observe_hello m id h).1 in
    let k = observe_hello-Keeps m id h e found in
    let found' = listed_by_instance m' id k.entry (found_entry m id e found).0 k.listed in
    (
      lowered (k.entry.state == recognized_pending) k.entry.role e.role _ k.role k.effective,
      (λ token. elim k.state [
        | inl same ↦ inl (
            validate_alike constant_time_equal m m' id token e k.entry found found' k.token k.role
              same)
        | inr held ↦ inr (validate_suspended constant_time_equal m' id token k.entry found' held)
      ]),
      (λ j token n.
          validate-cong constant_time_equal m m' j token
            (find_by_instance-cong m m' j (k.others j n))),
    )
  where
    lowered :
        (b : Bool) (r r' o : AccessLevel) → r ≡ r' → o ≡ (if b then watch else r) → rank o ≤ rank r'
    lowered true r r' o p q = rw q (omega arith)
    lowered false r r' o p q = rw (q, p) (omega arith)

observe_entry-Trips :
    (m : PairingManager) (id : List ℕ) (h : Hello) (e : PairedEntry)
    → find_entry m.entries id ≡ some e
    → Trips m e h
    → let (o, m') = observe_entry m id h e in
      (o.version_changed ≡ true)
      × (o.suspended ≡ true)
      × (o.effective_role ≡ watch)
      × (o.suspended_role ≡ e.role)
      × ((e' : PairedEntry) × (find_entry m'.entries id ≡ some e')
          × (e'.state ≡ recognized_pending))
unfolding observe_entry relabel observed touch
observe_entry-Trips m id h e found t =
    let (used, named) = find_entry_used m.entries id e found in
    let pending = record (relabel e h m.wall_seconds) { state = recognized_pending } in
    let listed : find_entry (overwrite_entry m.entries id pending) id ≡ some pending =
      find_entry-overwrite m.entries id e pending id found used
        (same_bytes-true e.instance_id id named)
      ∙ (rw (same_bytes_refl id) refl) in
    rw
      (
        t.reported,
        t.changed,
        t.recorded,
        ==_false e.state recognized_pending t.trusted_before,
        leb-false (rank e.role) (rank m.auto_keep_max) t.above,
      )
      (refl, refl, refl, refl, (pending, listed, refl))

-- A trusted device above the automatic ceiling that reports another version than the recorded one is
-- suspended at that HELLO: the role in force is `watch`, the role that a new approval restores is the
-- entry's, and after it each of its tokens has only `watch`.
pub observe_hello-Trips :
    (constant_time_equal : List ℕ → List ℕ → Bool) (m : PairingManager) (id : List ℕ) (h : Hello)
    (e : PairedEntry)
    → find_by_instance m id ≡ some e
    → Trips m e h
    → let (o, m') = observe_hello m id h in
      (o.version_changed ≡ true)
      × (o.suspended ≡ true)
      × (o.effective_role ≡ watch)
      × (o.suspended_role ≡ e.role)
      × ((token : List ℕ) → validate constant_time_equal m' id token ≡ watch)
unfolding observe_hello
observe_hello-Trips constant_time_equal m id h e found t =
    let (size, listed) = found_entry m id e found in
    let (changed, suspended, effective, restored, (e', listed', held)) =
      observe_entry-Trips m id h e listed t in
    rw (observe_hello, found)
      (
        changed,
        suspended,
        effective,
        restored,
        λ token.
            validate_suspended constant_time_equal (observe_entry m id h e).1 id token e'
              (listed_by_instance (observe_entry m id h e).1 id e' size listed') held,
      )
