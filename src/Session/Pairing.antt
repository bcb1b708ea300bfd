-- ===== src/Session/Pairing.antt =====
-- `PairingManager` of session/pairing.hpp: the ledger of the paired devices, and the pairing windows.
-- A uint8_t or uint16_t counter keeps its wrap. `constant_time_equal` and `hmac_sha256` stand for the
-- injected ICrypto, and a fresh token for the bytes that the injected IRandom fills in.
use slop_sync.Base.{
  ℕ, zero, suc, ◌+◌, ◌-◌, ◌*◌, ◌/◌, ◌%◌, ◌^◌, ◌≤◌, ◌<◌, min, bit_and, bit_or, bit_xor, ◌≡◌, refl,
  sym, ap, ◌∙◌, subst, ◌≢◌, ◌↔◌, ◌⊎◌, inl, inr, Bool, true, false, not, ◌&&◌, ◌||◌, Option, none,
  some, List, [], ◌∷◌, ◌++◌, map, append-nil, append_assoc, arith, ltb, leb, ◌==◌, if◌then◌else◌,
  ==_iff, ltb-true, ltb-false, leb-true, leb-false, ==_true, ==_false, Bool-cases, Option-cases,
  length, get_elem?, get_or, set, take, drop, replicate, All, length-append, length-replicate,
  length-set, get_or-set_self, get_or-set_ne, take-append-drop, length-take, length-drop,
  drop-append, set-append, list_ext, write_at, length-write_at, get_or-write_at, take-write_at,
  drop-write_at, wrap-ne, wrap_round, wrap_add, wrap_next,
}
use slop_sync.Util.Serial.{u32_mod, u16_mod, u8_mod, time_reached}
use slop_sync.Util.BoundedString.{same_bytes, assign, same_as, is_empty}
use slop_sync.Session.Access.{AccessLevel, watch, control, configure, rank}
use mathlib.Core.Option
pub mod Ledger
pub mod Tokens
pub mod Tripwire
pub mod Guessing
mod Tests

abbrev pub max_paired : ℕ
max_paired = 8

abbrev pub instance_id_bytes : ℕ
instance_id_bytes = 8

abbrev pub token_bytes : ℕ
token_bytes = 16

abbrev pub trusted : ℕ
trusted = 0

abbrev pub recognized_pending : ℕ
recognized_pending = 1

abbrev pub knock_approve : ℕ
knock_approve = 1

abbrev pub pin_proof : ℕ
pin_proof = 2

abbrev pub push_to_pair : ℕ
push_to_pair = 4

abbrev pub ledger_text_max_bytes : ℕ
ledger_text_max_bytes = 16

abbrev pub ledger_version_max_bytes : ℕ
ledger_version_max_bytes = 24

abbrev pub pairing_window_ms : ℕ
pairing_window_ms = 120 * 1000

pub record PairedEntry : Type 0 where
  pub instance_id : List ℕ
  pub token : List ℕ
  pub role : AccessLevel
  pub state : ℕ
  pub presentation_mode : ℕ
  pub pairing_mode : ℕ
  pub kind : List ℕ
  pub name : List ℕ
  pub version : List ℕ
  pub first_seen : ℕ
  pub last_seen : ℕ
  pub used : Bool

abbrev pub blank : PairedEntry
blank = record {
  instance_id = replicate instance_id_bytes 0;
  token = replicate token_bytes 0;
  role = control;
  state = trusted;
  presentation_mode = 0;
  pairing_mode = knock_approve;
  kind = [];
  name = [];
  version = [];
  first_seen = 0;
  last_seen = 0;
  used = false;
}

pub record PairingManager : Type 0 where
  pub entries : List PairedEntry
  pub pin : List ℕ
  pub window_opened_ms : ℕ
  pub presence_opened_ms : ℕ
  pub wall_seconds : ℕ
  pub generation : ℕ
  pub presence_default_role : AccessLevel
  pub auto_keep_max : AccessLevel
  pub window_is_open : Bool
  pub presence_is_open : Bool
  pub knock_approve_enabled : Bool
  pub dirty : Bool
  pub fail_count : ℕ

abbrev pub new_manager : PairingManager
new_manager = record {
  entries = replicate max_paired blank;
  pin = [];
  window_opened_ms = 0;
  presence_opened_ms = 0;
  wall_seconds = 0;
  generation = 1;
  presence_default_role = control;
  auto_keep_max = watch;
  window_is_open = false;
  presence_is_open = false;
  knock_approve_enabled = true;
  dirty = false;
  fail_count = 0;
}

unfoldable pub touch : PairingManager → PairingManager
touch m = record m { generation = (m.generation + 1) % u16_mod; dirty = true }

unfoldable pub find_entry : List PairedEntry → List ℕ → Option PairedEntry
find_entry [] id = none
find_entry (e ∷ es) id = if e.used && same_bytes e.instance_id id then some e else find_entry es id

unfoldable pub find_by_instance : PairingManager → List ℕ → Option PairedEntry
unfolding find_entry
find_by_instance m id = if length id == instance_id_bytes then find_entry m.entries id else none

-- The write through the pointer that `findByInstance` returned.
unfoldable pub overwrite_entry : List PairedEntry → List ℕ → PairedEntry → List PairedEntry
overwrite_entry [] id e' = []
overwrite_entry (e ∷ es) id e' =
    if e.used && same_bytes e.instance_id id then e' ∷ es else e ∷ overwrite_entry es id e'

-- The first entry that is not in use gets the value; `none` where there is none.
unfoldable pub claim_entry : List PairedEntry → PairedEntry → Option (List PairedEntry)
claim_entry [] e' = none
claim_entry (e ∷ es) e' =
    if not e.used then some (e' ∷ es) else Option.map (◌∷◌ e) (claim_entry es e')

unfoldable pub open_window : PairingManager → List ℕ → ℕ → PairingManager
open_window m pin now = record m {
  pin = pin;
  window_opened_ms = now;
  window_is_open = true;
  fail_count = 0;
}

unfoldable pub close_window : PairingManager → PairingManager
close_window m = record m { window_is_open = false }

unfoldable pub window_open : PairingManager → ℕ → Bool
window_open m now =
    m.window_is_open && not (time_reached now ((m.window_opened_ms + pairing_window_ms) % u32_mod))

unfoldable pub open_presence_window : PairingManager → ℕ → PairingManager
open_presence_window m now = record m { presence_opened_ms = now; presence_is_open = true }

unfoldable pub close_presence_window : PairingManager → PairingManager
close_presence_window m = record m { presence_is_open = false }

unfoldable pub presence_window_open : PairingManager → ℕ → Bool
presence_window_open m now =
    m.presence_is_open
    && not (time_reached now ((m.presence_opened_ms + pairing_window_ms) % u32_mod))

unfoldable pub any_configure : List PairedEntry → Bool
any_configure [] = false
any_configure (e ∷ es) = if e.used && rank e.role == rank configure then true else any_configure es

unfoldable pub presence_grant_role : PairingManager → AccessLevel
unfolding any_configure
presence_grant_role m = if any_configure m.entries then m.presence_default_role else configure

unfoldable pub offered_modes : PairingManager → ℕ → ℕ
unfolding window_open presence_window_open
offered_modes m now =
    let a = if m.knock_approve_enabled then bit_or 0 knock_approve else 0 in
    let b = if window_open m now then bit_or a pin_proof else a in
    if presence_window_open m now then bit_or b push_to_pair else b

-- The entry that a grant leaves, from the one that was found or the blank one.
unfoldable pub granted_entry : PairedEntry → AccessLevel → ℕ → ℕ → List ℕ → PairedEntry
granted_entry e role mode now fresh = record e {
  used = true;
  token = fresh;
  role = role;
  pairing_mode = mode;
  state = trusted;
  last_seen = now;
}

-- `none` is the null pointer; the token that is handed out is `fresh`.
unfoldable pub grant : PairingManager → List ℕ → AccessLevel → ℕ → List ℕ → Option PairingManager
unfolding find_by_instance overwrite_entry claim_entry granted_entry touch
grant m id role mode fresh =
    if not (length id == instance_id_bytes) then none else elim (find_by_instance m id) [
      | some e ↦ some (
          touch (record m {
            entries = overwrite_entry m.entries id (granted_entry e role mode m.wall_seconds fresh);
          }))
      | none ↦
          Option.map (λ es. touch (record m { entries = es }))
            (claim_entry m.entries (
              granted_entry (record blank { instance_id = id; first_seen = m.wall_seconds }) role
                mode m.wall_seconds fresh))
    ]

pub data PairOutcome : Type 0 where
  granted denied window_closed : PairOutcome

-- `pairing_pin_proof` is the HMAC of the PIN and the nonce.
module _ (constant_time_equal : List ℕ → List ℕ → Bool)
    (pairing_pin_proof : List ℕ → List ℕ → List ℕ) where
  unfoldable pub handle_pair_req :
      PairingManager
      → List ℕ
      → List ℕ
      → List ℕ
      → List ℕ
      → ℕ
      → AccessLevel
      → PairOutcome × PairingManager
  unfolding window_open grant
  handle_pair_req m id proof nonce fresh now role =
      if not (window_open m now)
      then (window_closed, m)
      else if not (length id == instance_id_bytes)
      then (denied, m)
      else if not (constant_time_equal proof (pairing_pin_proof m.pin nonce))
      then (let fails = (m.fail_count + 1) % u8_mod in
          (
            denied,
            record m {
              fail_count = fails;
              window_is_open = if leb 3 fails then false else m.window_is_open;
            },
          ))
      else elim (grant m id role pin_proof fresh) [
        | none ↦ (denied, m)
        | some m' ↦ (granted, record m' { fail_count = 0 })
      ]

module _ (constant_time_equal : List ℕ → List ℕ → Bool) where
  unfoldable pub validate : PairingManager → List ℕ → List ℕ → AccessLevel
  unfolding find_by_instance
  validate m id token =
      if not (length token == token_bytes) then watch else elim (find_by_instance m id) [
        | none ↦ watch
        | some e ↦
            if not (constant_time_equal e.token token)
            then watch
            else if e.state == recognized_pending
            then watch
            else e.role
      ]

  -- The role, and `proofMatched`.
  unfoldable pub validate_proof :
      (List ℕ → List ℕ → Option (List ℕ))
      → PairingManager
      → List ℕ
      → List ℕ
      → List ℕ
      → AccessLevel × Bool
  unfolding find_by_instance
  validate_proof hmac_sha256 m id proof nonce =
      if not (length proof == 16)
      then (watch, false)
      else if not (length nonce == 8)
      then (watch, false)
      else elim (find_by_instance m id) [
        | none ↦ (watch, false)
        | some e ↦ elim (hmac_sha256 e.token nonce) [
          | none ↦ (watch, false)
          | some mac ↦
              if not (constant_time_equal (take 16 mac) proof)
              then (watch, false)
              else if e.state == recognized_pending
              then (watch, true)
              else (e.role, true)
        ]
      ]

pub record HelloObservation : Type 0 where
  pub known : Bool
  pub version_changed : Bool
  pub suspended : Bool
  pub effective_role : AccessLevel
  pub suspended_role : AccessLevel

abbrev pub unknown_hello : HelloObservation
unknown_hello = record {
  known = false;
  version_changed = false;
  suspended = false;
  effective_role = watch;
  suspended_role = watch;
}

-- What a HELLO reports of the device.
pub record Hello : Type 0 where
  pub kind : List ℕ
  pub name : List ℕ
  pub version : List ℕ
  pub has_version : Bool
  pub presentation_mode : ℕ

-- The entry with its labels refreshed.
unfoldable pub relabel : PairedEntry → Hello → ℕ → PairedEntry
relabel e h now = record e {
  kind = assign ledger_text_max_bytes h.kind;
  name = assign ledger_text_max_bytes h.name;
  presentation_mode = h.presentation_mode;
  last_seen = now;
}

-- The end of `observeHello`, on the entry as the branches left it.
unfoldable pub observed : PairedEntry → PairedEntry → Bool → Bool → HelloObservation
observed before after changed suspended = record {
  known = true;
  version_changed = changed;
  suspended = suspended;
  effective_role = if after.state == recognized_pending then watch else after.role;
  suspended_role = before.role;
}

-- `observeHello` on the entry that it found.
unfoldable pub observe_entry :
    PairingManager → List ℕ → Hello → PairedEntry → HelloObservation × PairingManager
unfolding overwrite_entry relabel observed touch same_as
observe_entry m id h e =
    let l = relabel e h m.wall_seconds in
    let versioned = record l { version = assign ledger_version_max_bytes h.version } in
    let pending = record l { state = recognized_pending } in
    let store = λ (x : PairedEntry). record m { entries = overwrite_entry m.entries id x } in
    let already = e.state == recognized_pending in
    if h.has_version
      && not (same_as ledger_version_max_bytes e.version h.version)
      && not (is_empty e.version)
      && not already
    then (if leb (rank e.role) (rank m.auto_keep_max)
        then (observed e versioned true false, touch (store versioned))
        else (observed e pending true true, touch (store pending)))
    else if h.has_version && is_empty e.version
    then (observed e versioned false false, touch (store versioned))
    else if not already
    then (observed e l false false, record (store l) { dirty = true })
    else (observed e l false false, store l)

unfoldable pub observe_hello : PairingManager → List ℕ → Hello → HelloObservation × PairingManager
unfolding find_by_instance observe_entry
observe_hello m id h = elim (find_by_instance m id) [
  | none ↦ (unknown_hello, m)
  | some e ↦ observe_entry m id h e
]

unfoldable pub revoke : PairingManager → List ℕ → Bool × PairingManager
unfolding find_by_instance overwrite_entry touch
revoke m id = elim (find_by_instance m id) [
  | none ↦ (false, m)
  | some e ↦ (true, touch (record m { entries = overwrite_entry m.entries id blank }))
]

unfoldable pub import_entry : PairingManager → PairedEntry → Bool × PairingManager
unfolding claim_entry touch
import_entry m e = elim (claim_entry m.entries (record e { used = true })) [
  | none ↦ (false, m)
  | some es ↦ (true, touch (record m { entries = es }))
]
