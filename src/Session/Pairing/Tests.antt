-- ===== src/Session/Pairing/Tests.antt =====
-- The theorems on pairing at concrete inputs. The comparison is equality, and the proof of a PIN is
-- the PIN itself.
use slop_sync.Base.{
  ℕ, ◌≤◌, ◌<◌, ◌≡◌, refl, ◌≢◌, ◌⊎◌, true, false, some, List, [], ◌∷◌, arith, replicate,
}
use slop_sync.Util.Serial.{time_reached}
use slop_sync.Util.BoundedString.{same_bytes, same_as}
use slop_sync.Session.Access.{watch, control, configure, rank}
use slop_sync.Session.Pairing.{
  PairedEntry, PairingManager, Hello, blank, new_manager, find_entry, instance_id_bytes,
  token_bytes, knock_approve, grant, validate, revoke, observe_hello, find_by_instance, open_window,
  window_closed, handle_pair_req, window_open,
}
use slop_sync.Session.Pairing.Ledger.{IsUnique}
use slop_sync.Session.Pairing.Tokens.{Holds, validate-Holds, grant-validate, revoke-validate}
use slop_sync.Session.Pairing.Tripwire.{Trips, observe_hello_never_raises, observe_hello-Trips}
use slop_sync.Session.Pairing.Guessing.{Request, answer, answered, after_all, answered-open_window}

abbrev device : List ℕ
device = replicate instance_id_bytes 7

abbrev token_a : List ℕ
token_a = replicate token_bytes 1

abbrev listed_entry : PairedEntry
listed_entry = record blank {
  instance_id = device;
  token = token_a;
  role = configure;
  version = 1 ∷ [];
  used = true;
}

abbrev with_device : PairingManager
with_device = record new_manager { entries = listed_entry ∷ (blank ∷ []) }

with_device-IsUnique : IsUnique with_device.entries
unfolding IsUnique find_entry
with_device-IsUnique = ((λ _. refl), ((λ _. refl), tt))

validated : validate same_bytes with_device device token_a ≡ configure
unfolding validate same_bytes
validated = refl

validate-Holds_example : Holds same_bytes with_device device token_a configure
validate-Holds_example =
    validate-Holds same_bytes with_device device token_a configure validated
      (λ e. ground (arith, e))

abbrev after_grant : PairingManager
after_grant = record new_manager {
  entries =
      (record blank { instance_id = device; token = token_a; role = control; used = true })
      ∷ replicate 7 blank;
  generation = 2;
  dirty = true;
}

granted_run : grant new_manager device control knock_approve token_a ≡ some after_grant
unfolding grant same_bytes
granted_run = refl

equal_to_itself : same_bytes token_a token_a ≡ true
unfolding same_bytes
equal_to_itself = refl

grant-validate_example :
    (validate same_bytes after_grant device token_a ≡ control)
    × ((j token : List ℕ)
        → j ≢ device
        → validate same_bytes after_grant j token ≡ validate same_bytes new_manager j token)
    × (IsUnique new_manager.entries → IsUnique after_grant.entries)
grant-validate_example =
    grant-validate same_bytes new_manager after_grant device control knock_approve token_a
      equal_to_itself refl granted_run

revoke-validate_example :
    let m' = (revoke with_device device).1 in
    ((token : List ℕ) → validate same_bytes m' device token ≡ watch)
    × ((j token : List ℕ)
        → j ≢ device
        → validate same_bytes m' j token ≡ validate same_bytes with_device j token)
    × IsUnique m'.entries
revoke-validate_example = revoke-validate same_bytes with_device device with_device-IsUnique

abbrev updated : Hello
updated = record {
  kind = [];
  name = [];
  version = 2 ∷ [];
  has_version = true;
  presentation_mode = 0;
}

listed_device : find_by_instance with_device device ≡ some listed_entry
unfolding find_by_instance same_bytes
listed_device = refl

updated-Trips : Trips with_device listed_entry updated
unfolding same_as
updated-Trips = record {
  reported = refl;
  recorded = refl;
  changed = refl;
  trusted_before = omega arith;
  above = omega arith;
}

observe_hello_never_raises_example :
    let (o, m') = observe_hello with_device device updated in
    (rank o.effective_role ≤ 2)
    × ((token : List ℕ)
        → (validate same_bytes m' device token ≡ validate same_bytes with_device device token)
          ⊎ (validate same_bytes m' device token ≡ watch))
    × ((j token : List ℕ)
        → j ≢ device
        → validate same_bytes m' j token ≡ validate same_bytes with_device j token)
observe_hello_never_raises_example =
    observe_hello_never_raises same_bytes with_device device updated listed_entry listed_device

observe_hello-Trips_example :
    let (o, m') = observe_hello with_device device updated in
    (o.version_changed ≡ true)
    × (o.suspended ≡ true)
    × (o.effective_role ≡ watch)
    × (o.suspended_role ≡ configure)
    × ((token : List ℕ) → validate same_bytes m' device token ≡ watch)
observe_hello-Trips_example =
    observe_hello-Trips same_bytes with_device device updated listed_entry listed_device
      updated-Trips

abbrev pin_of : List ℕ → List ℕ → List ℕ
pin_of pin nonce = pin

abbrev guess : ℕ → Request
guess d = record {
  id = device;
  proof = d ∷ [];
  nonce = [];
  fresh = token_a;
  now = 10;
  role = control;
}

guesses_wrong :
    (same_bytes (1 ∷ []) (9 ∷ []) ≡ false)
    × ((same_bytes (2 ∷ []) (9 ∷ []) ≡ false) × ((same_bytes (3 ∷ []) (9 ∷ []) ≡ false) × Unit {0}))
unfolding same_bytes
guesses_wrong = (refl, (refl, (refl, tt)))

-- Three wrong guesses, and then the right one.
answered-open_window_example :
    let start = open_window with_device (9 ∷ []) 0 in
    let guesses = guess 1 ∷ (guess 2 ∷ (guess 3 ∷ [])) in
    let end = after_all same_bytes pin_of start guesses in
    (answered same_bytes pin_of start guesses ≤ 3)
    × (end.entries ≡ with_device.entries)
    × ((answered same_bytes pin_of start guesses < 3)
        ⊎ (answer same_bytes pin_of end (guess 9) ≡ (window_closed, end)))
answered-open_window_example =
    answered-open_window same_bytes pin_of with_device (9 ∷ []) 0
      (guess 1 ∷ (guess 2 ∷ (guess 3 ∷ []))) (guess 9) guesses_wrong

three_answered :
    answered same_bytes pin_of
      (open_window with_device (9 ∷ []) 0)
      (guess 1 ∷ (guess 2 ∷ (guess 3 ∷ [])))
    ≡ 3
unfolding answered open_window handle_pair_req window_open same_bytes time_reached
three_answered = refl
