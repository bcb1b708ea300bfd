-- ===== src/Session/Pending/Laws.antt =====
-- What each call on the pending list of session/pairing.hpp does.
use slop_sync.Base.{
  take_all, ℕ, ◌+◌, ◌≡◌, refl, sym, ap, ◌∙◌, subst, inl, inr, Bool, true, false, not, ◌&&◌, ◌||◌,
  Option, none, some, List, [], ◌∷◌, arith, ◌==◌, if◌then◌else◌, ==_true, Bool-cases, Option-cases,
  length, take, All, filter, map,
}
use slop_sync.Util.Serial.{time_reached}
use slop_sync.Util.BoundedString.{same_bytes, same_bytes-true, same_bytes_refl}
use slop_sync.Session.Pairing.{instance_id_bytes}
use slop_sync.Session.Pending.{
  PendingKnock, no_knock, find_slot, find_knock, overwrite_slot, claim_slot, knocked, add, sweep,
  expire, drop_by_session, count_knocks,
}

join : (a b c : List ℕ) → same_bytes a c ≡ true → same_bytes b c ≡ true → same_bytes a b ≡ true
join a b c p q =
    subst (λ d. same_bytes a d ≡ true) (same_bytes-true a c p ∙ sym (same_bytes-true b c q))
      (same_bytes_refl a)

find_slot_used :
    (ks : List PendingKnock) (id : List ℕ) (k : PendingKnock)
    → find_slot ks id ≡ some k
    → (k.used ≡ true) × (same_bytes k.instance_id id ≡ true)
unfolding find_slot
find_slot_used [] id k h = cc
find_slot_used (x ∷ ks) id k h = ground (arith, find_slot_used ks id k)

find_slot-overwrite :
    (ks : List PendingKnock) (id : List ℕ) (k k' : PendingKnock) (j : List ℕ)
    → find_slot ks id ≡ some k
    → k'.used ≡ true
    → k'.instance_id ≡ id
    → find_slot (overwrite_slot ks id k') j ≡ (if same_bytes id j then some k' else find_slot ks j)
unfolding find_slot overwrite_slot
find_slot-overwrite [] id k k' j h u e = cc
find_slot-overwrite (x ∷ ks) id k k' j h u e =
    elim (Bool-cases (x.used && same_bytes x.instance_id id)) [
      | inl hit ↦
          let same : x.instance_id ≡ id = same_bytes-true x.instance_id id (ground arith) in
          rw (hit, u, e, same) (ground arith)
      | inr miss ↦
          rw (miss, find_slot-overwrite ks id k k' j (ground arith) u e)
            (ground (arith, join x.instance_id id j))
    ]

find_slot-claim :
    (ks ks' : List PendingKnock) (id : List ℕ) (k' : PendingKnock) (j : List ℕ)
    → find_slot ks id ≡ none
    → claim_slot ks k' ≡ some ks'
    → k'.used ≡ true
    → k'.instance_id ≡ id
    → find_slot ks' j ≡ (if same_bytes id j then some k' else find_slot ks j)
unfolding find_slot claim_slot
find_slot-claim [] ks' id k' j h c u e = cc
find_slot-claim (x ∷ ks) ks' id k' j h c u e = elim (Option-cases (claim_slot ks k')) [
  | inl full ↦ ground (arith, full, ap (λ a. same_bytes a j) e, join x.instance_id id j)
  | inr (ks'', made) ↦ ground (
    arith,
    made,
    find_slot-claim ks ks'' id k' j (ground arith) made u e,
    join x.instance_id id j,
  )
]

-- The slots in use.
claim_slot_full :
    (ks : List PendingKnock) (k' : PendingKnock)
    → claim_slot ks k' ≡ none
    → count_knocks ks ≡ length ks
unfolding claim_slot count_knocks
claim_slot_full [] k' h = refl
claim_slot_full (x ∷ ks) k' h = elim (Option-cases (claim_slot ks k')) [
  | inl full ↦ ground (arith, full, claim_slot_full ks k' full)
  | inr (ks', made) ↦ absurd (ground (arith, made))
]

-- The knock that is found for an instance is the one that was added for it.
pub record Knocks (found : Option PendingKnock) (of_session until_ms by_mode : ℕ) : Type 0 where
  pub knock : PendingKnock
  pub is_found : found ≡ some knock
  pub session : knock.session_id ≡ of_session
  pub expires : knock.expires_at_ms ≡ until_ms
  pub mode : knock.mode ≡ by_mode

-- The two ways in which adding a knock can end.
unfoldable pub Adds : List PendingKnock → List ℕ → ℕ → ℕ → ℕ → Option (List PendingKnock) → Type 0
Adds ks id session expires mode none = (find_knock ks id ≡ none) × (count_knocks ks ≡ length ks)
Adds ks id session expires mode (some ks') =
    Knocks (find_knock ks' id) session expires mode
    × ((j : List ℕ) → same_bytes id j ≡ false → find_knock ks' j ≡ find_knock ks j)

-- The slots after the knock was written, by what a lookup in them gives.
Adds-listed :
    (ks ks' : List PendingKnock) (id : List ℕ) (session expires mode : ℕ) (k : PendingKnock)
    → length id ≡ instance_id_bytes
    → ((j : List ℕ)
        → find_slot ks' j
          ≡ (if same_bytes id j then some (knocked k session expires mode) else find_slot ks j))
    → Adds ks id session expires mode (some ks')
unfolding Adds find_knock knocked
Adds-listed ks ks' id session expires mode k size after = (
  record {
    knock = knocked k session expires mode;
    is_found =
        rw (==_true (length id) instance_id_bytes size) (after id ∙ (rw (same_bytes_refl id) refl));
    session = refl;
    expires = refl;
    mode = refl;
  },
  λ j n. ap (λ r. if length j == instance_id_bytes then r else none) (after j ∙ (rw n refl)),
)

claimed :
    (ks : List PendingKnock) (id : List ℕ) (session expires mode : ℕ)
    → length id ≡ instance_id_bytes
    → find_knock ks id ≡ none
    → Adds ks id session expires mode (
        claim_slot ks (
          knocked
            (record no_knock { instance_id = take instance_id_bytes id })
            session
            expires
            mode))
unfolding Adds find_knock knocked
claimed ks id session expires mode size missing =
    let k = record no_knock { instance_id = take instance_id_bytes id } in
    let listed : find_slot ks id ≡ none = ground (arith, missing, size) in
    let whole : take instance_id_bytes id ≡ id = ap (λ n. take n id) (sym size) ∙ take_all id in
    elim (Option-cases (claim_slot ks (knocked k session expires mode))) [
      | inl full ↦ rw full (missing, claim_slot_full ks (knocked k session expires mode) full)
      | inr (ks', made) ↦ rw made (
          Adds-listed ks ks' id session expires mode k size (λ j.
            find_slot-claim ks ks' id (knocked k session expires mode) j listed made refl whole))
    ]

-- Adding a knock of an instance of 8 bytes either puts it on the list under its session, deadline and mode, and leaves the
-- knocks of all other instances as they were; or it fails, and then every slot holds a knock and none
-- of them is this instance's.
pub add-Adds :
    (ks : List PendingKnock) (id : List ℕ) (session expires mode : ℕ)
    → length id ≡ instance_id_bytes
    → Adds ks id session expires mode (add ks id session expires mode)
unfolding add knocked find_knock
add-Adds ks id session expires mode size = elim (Option-cases (find_knock ks id)) [
  | inr (k, found) ↦
      let listed = find_slot_of ks id k found in
      let named = same_bytes-true k.instance_id id (find_slot_used ks id k listed).1 in
      rw (add, found)
        (Adds-listed ks _ id session expires mode k size
          (λ j. find_slot-overwrite ks id k (knocked k session expires mode) j listed refl named))
  | inl missing ↦ rw (add, missing) (claimed ks id session expires mode size missing)
]
  where
    find_slot_of :
        (ks : List PendingKnock) (id : List ℕ) (k : PendingKnock)
        → find_knock ks id ≡ some k
        → find_slot ks id ≡ some k
    find_slot_of ks id k h = ground arith

-- What is swept away, and what stays: the reported knocks are those of the list that are in use and go, each as
-- often as it is there and in its order, and of the slots those are freed and no other is touched.
pub record Sweeps (goes : PendingKnock → Bool) (ks gone left : List PendingKnock) : Type 0 where
  pub reported : gone ≡ filter (λ k. k.used && goes k) ks
  pub freed : left ≡ map (λ k. if k.used && goes k then no_knock else k) ks
  pub gone_goes : All (λ k. goes k ≡ true) gone
  pub left_stays : All (λ k. k.used ≡ true → goes k ≡ false) left
  pub counted : count_knocks ks ≡ length gone + count_knocks left
  pub slots : length left ≡ length ks
  pub kept :
      (id : List ℕ) (k : PendingKnock)
      → find_knock ks id ≡ some k
      → goes k ≡ false
      → find_knock left id ≡ some k

sweep_kept :
    (goes : PendingKnock → Bool) (ks : List PendingKnock) (id : List ℕ) (k : PendingKnock)
    → find_slot ks id ≡ some k
    → goes k ≡ false
    → find_slot (sweep goes ks).1 id ≡ some k
unfolding sweep find_slot
sweep_kept goes [] id k e f = e
sweep_kept goes (x ∷ ks) id k e f = elim (Bool-cases (x.used && same_bytes x.instance_id id)) [
  | inl hit ↦
      let same : x ≡ k = ground (arith, hit) in
      let stays : goes x ≡ false = ap goes same ∙ f in rw stays (ground (arith, hit, e))
  | inr miss ↦ ground (arith, miss, sweep_kept goes ks id k (ground arith) f)
]

sweep_parts :
    (goes : PendingKnock → Bool) (ks : List PendingKnock)
    → let (gone, left) = sweep goes ks in
      (gone ≡ filter (λ k. k.used && goes k) ks)
      × (left ≡ map (λ k. if k.used && goes k then no_knock else k) ks)
      × All (λ k. goes k ≡ true) gone
      × All (λ k. k.used ≡ true → goes k ≡ false) left
      × (count_knocks ks ≡ length gone + count_knocks left)
      × (length left ≡ length ks)
unfolding sweep count_knocks
sweep_parts goes [] = (refl, refl, tt, tt, omega arith, refl)
sweep_parts goes (x ∷ ks) =
    let (f, m, g, l, c, n) = sweep_parts goes ks in
    elim (Bool-cases (x.used && goes x)) [
      | inl leaves ↦
          let passes : (not x.used || not (goes x)) ≡ false = ground (arith, leaves) in
          rw (leaves, passes)
            (
              ap (◌∷◌ x) f,
              ap (◌∷◌ no_knock) m,
              (ground (arith, leaves), g),
              ((λ u. absurd (ground (arith, u))), l),
              ground (arith, c, leaves),
              omega (arith, n),
            )
      | inr stays ↦
          let skips : (not x.used || not (goes x)) ≡ true = ground (arith, stays) in
          rw (stays, skips)
            (
              f,
              ap (◌∷◌ x) m,
              g,
              ((λ u. ground (arith, u, stays)), l),
              ground (arith, c),
              omega (arith, n),
            )
    ]

sweep-Sweeps :
    (goes : PendingKnock → Bool) (ks : List PendingKnock)
    → Sweeps goes ks (sweep goes ks).0 (sweep goes ks).1
unfolding find_knock
sweep-Sweeps goes ks =
    let (f, m, g, l, c, n) = sweep_parts goes ks in
    record {
      reported = f;
      freed = m;
      gone_goes = g;
      left_stays = l;
      counted = c;
      slots = n;
      kept = λ id k e f. elim (Bool-cases (length id == instance_id_bytes)) [
        | inl whole ↦ rw whole (sweep_kept goes ks id k (ground (arith, whole, e)) f)
        | inr short ↦ absurd (ground (arith, short, e))
      ];
    }

-- Expiry likewise, for the knocks in use whose deadline is reached.
pub expire-Sweeps :
    (ks : List PendingKnock) (now : ℕ)
    → Sweeps (λ k. time_reached now k.expires_at_ms) ks (expire ks now).0 (expire ks now).1
unfolding expire
expire-Sweeps ks now = sweep-Sweeps (λ k. time_reached now k.expires_at_ms) ks

-- At the end of a session the knocks that are reported are those of the list that are in use and of that
-- session, each as often as it is there and in its order; just their slots are freed and all other slots stay as
-- they are, the number in use falls by the number reported, and every other knock is still found.
pub drop_by_session-Sweeps :
    (ks : List PendingKnock) (session : ℕ)
    → Sweeps
        (λ k. k.session_id == session)
        ks
        (drop_by_session ks session).0
        (drop_by_session ks session).1
unfolding drop_by_session
drop_by_session-Sweeps ks session = sweep-Sweeps (λ k. k.session_id == session) ks
