-- ===== src/Session/Pairing/Guessing.antt =====
-- The PIN window of session/pairing.hpp against a guesser.
use slop_sync.Base.{
  ℕ, suc, ◌+◌, ◌%◌, ◌≤◌, ◌<◌, ◌≡◌, refl, sym, ◌∙◌, subst, ◌⊎◌, inl, inr, Bool, true, false, not,
  ◌&&◌, List, [], ◌∷◌, arith, leb, ◌==◌, if◌then◌else◌, Bool-cases, length, All,
}
use native.Mathlib.Decide.{dec_lt}
use slop_sync.Util.Serial.{u8_mod}
use slop_sync.Session.Access.{AccessLevel}
use slop_sync.Session.Pairing.{
  PairingManager, PairOutcome, granted, denied, window_closed, instance_id_bytes, window_open,
  handle_pair_req, open_window,
}

-- A PAIR_REQ, with the bytes that a grant would draw.
pub record Request : Type 0 where
  pub id : List ℕ
  pub proof : List ℕ
  pub nonce : List ℕ
  pub fresh : List ℕ
  pub now : ℕ
  pub role : AccessLevel

abbrev pub is_window_closed : PairOutcome → Bool
is_window_closed window_closed = true
is_window_closed denied = false
is_window_closed granted = false

module _ (constant_time_equal : List ℕ → List ℕ → Bool)
    (pairing_pin_proof : List ℕ → List ℕ → List ℕ) where
  abbrev pub answer : PairingManager → Request → PairOutcome × PairingManager
  answer m r =
      handle_pair_req constant_time_equal pairing_pin_proof m r.id r.proof r.nonce r.fresh r.now
        r.role

  -- The manager after a series of requests.
  unfoldable pub after_all : PairingManager → List Request → PairingManager
  after_all m [] = m
  after_all m (r ∷ rs) = after_all (answer m r).1 rs

  -- The requests with an instance's size that were not answered by `window_closed`.
  unfoldable pub answered : PairingManager → List Request → ℕ
  answered m [] = 0
  answered m (r ∷ rs) =
      let rest = answered (answer m r).1 rs in
      if length r.id == instance_id_bytes && not (is_window_closed (answer m r).0)
      then suc rest
      else rest

  -- The proof is not the one for the window's PIN.
  abbrev pub IsWrong : List ℕ → Request → Type 0
  IsWrong pin r = constant_time_equal r.proof (pairing_pin_proof pin r.nonce) ≡ false

  -- At most three guesses have failed, and fewer while the window is open.
  record IsGuarded (m : PairingManager) : Type 0 where
    while_open : m.window_is_open ≡ true → m.fail_count < 3
    bounded : m.fail_count ≤ 3

  -- What a wrong request, which was answered by `a`, leaves.
  record Fends (m : PairingManager) (r : Request) (a : PairOutcome × PairingManager) : Type 0 where
    entries : a.1.entries ≡ m.entries
    pin : a.1.pin ≡ m.pin
    guarded : IsGuarded a.1
    count :
        (if length r.id == instance_id_bytes && not (is_window_closed a.0) then 1 else 0)
          + m.fail_count
        ≡ a.1.fail_count

  answer_shut :
      (m : PairingManager) (r : Request)
      → window_open m r.now ≡ false
      → answer m r ≡ (window_closed, m)
  unfolding handle_pair_req
  answer_shut m r e = rw e refl

  answer_short :
      (m : PairingManager) (r : Request)
      → window_open m r.now ≡ true
      → length r.id == instance_id_bytes ≡ false
      → answer m r ≡ (denied, m)
  unfolding handle_pair_req
  answer_short m r e n = rw (e, n) refl

  abbrev failed : PairingManager → PairingManager
  failed m =
      let fails = (m.fail_count + 1) % u8_mod in
      record m {
        fail_count = fails;
        window_is_open = if leb 3 fails then false else m.window_is_open;
      }

  answer_wrong :
      (m : PairingManager) (r : Request)
      → window_open m r.now ≡ true
      → length r.id == instance_id_bytes ≡ true
      → IsWrong m.pin r
      → answer m r ≡ (denied, failed m)
  unfolding handle_pair_req
  answer_wrong m r e n w = rw (e, n, w) refl

  window_open_flag :
      (m : PairingManager) (now : ℕ) → window_open m now ≡ true → m.window_is_open ≡ true
  unfolding window_open
  window_open_flag m now h = ground arith

  Fends-same :
      (m : PairingManager) (r : Request) (o : PairOutcome)
      → IsGuarded m
      → (length r.id == instance_id_bytes && not (is_window_closed o)) ≡ false
      → Fends m r (o, m)
  Fends-same m r o g e = record {
    entries = refl;
    pin = refl;
    guarded = g;
    count = rw e (omega arith);
  }

  Fends-failed :
      (m : PairingManager) (r : Request)
      → m.fail_count < 3
      → length r.id == instance_id_bytes ≡ true
      → Fends m r (denied, failed m)
  Fends-failed m r g whole = record {
    entries = refl;
    pin = refl;
    guarded = record { while_open = λ o. ground arith; bounded = omega arith };
    count = rw whole (omega arith);
  }

  answer-Fends :
      (m : PairingManager) (r : Request) → IsGuarded m → IsWrong m.pin r → Fends m r (answer m r)
  answer-Fends m r g w = elim (Bool-cases (window_open m r.now)) [
    | inr shut ↦
        subst (Fends m r) (sym (answer_shut m r shut))
          (Fends-same m r window_closed g (ground arith))
    | inl open_ ↦ elim (Bool-cases (length r.id == instance_id_bytes)) [
      | inr short ↦
          subst (Fends m r) (sym (answer_short m r open_ short))
            (Fends-same m r denied g (rw short refl))
      | inl whole ↦
          subst (Fends m r) (sym (answer_wrong m r open_ whole w))
            (Fends-failed m r (g.while_open (window_open_flag m r.now open_)) whole)
    ]
  ]

  -- Every answer but `window_closed` is a failure that is counted.
  answered-fends :
      (m : PairingManager) (rs : List Request)
      → IsGuarded m
      → All (IsWrong m.pin) rs
      → (answered m rs + m.fail_count ≡ (after_all m rs).fail_count)
        × ((after_all m rs).entries ≡ m.entries)
        × IsGuarded (after_all m rs)
  unfolding answered after_all
  answered-fends m [] g w = (omega arith, refl, g)
  answered-fends m (r ∷ rs) g (w, ws) =
      let f = answer-Fends m r g w in
      let (c, e, g') =
        answered-fends (answer m r).1 rs f.guarded
          (subst (λ p. All (IsWrong p) rs) (sym f.pin) ws) in
      (
        counted (length r.id == instance_id_bytes && not (is_window_closed (answer m r).0))
            (answered (answer m r).1 rs) m.fail_count f.count c,
        e ∙ f.entries,
        g',
      )
    where
      counted :
          (b : Bool) (n k : ℕ) {j l : ℕ}
          → (if b then 1 else 0) + k ≡ j
          → n + j ≡ l
          → (if b then suc n else n) + k ≡ l
      counted true n k h i = omega arith
      counted false n k h i = omega arith

  -- A third failure shuts the window.
  shut_after :
      (m : PairingManager) (now : ℕ) → IsGuarded m → m.fail_count ≡ 3 → window_open m now ≡ false
  shut_after m now g e = elim (Bool-cases (window_open m now)) [
    | inl open_ ↦
        let few = g.while_open (window_open_flag m now open_) in absurd (omega (arith, few, e))
    | inr shut ↦ shut
  ]

  -- After a PIN window is opened let a series of requests arrive, at any times, none of them with the proof for
  -- that PIN. At most three that name an instance of the right size are answered by anything but "window closed",
  -- and the ledger stays as it is. Once there were three, any next request, be its proof right or wrong,
  -- is answered "window closed" and changes nothing.
  pub answered-open_window :
      (m : PairingManager) (pin : List ℕ) (now : ℕ) (rs : List Request) (next : Request)
      → All (IsWrong pin) rs
      → let start = open_window m pin now in
        let end = after_all start rs in
        (answered start rs ≤ 3)
        × (end.entries ≡ m.entries)
        × ((answered start rs < 3) ⊎ (answer end next ≡ (window_closed, end)))
  unfolding open_window
  answered-open_window m pin now rs next w =
      let start = open_window m pin now in
      let end = after_all start rs in
      let (c, e, g) =
        answered-fends start rs (record { while_open = λ _. omega arith; bounded = omega arith })
          w in
      let most : answered start rs ≤ 3 = omega (arith, c, g.bounded) in
      (
        most,
        e,
        elim (dec_lt (answered start rs) 3) [
          | yes few ↦ inl few
          | no many ↦
              let third : end.fail_count ≡ 3 = omega (arith, c, g.bounded, many) in
              inr (answer_shut end next (shut_after end next.now g third))
        ],
      )
