-- ===== src/Channel/Subscription/Laws.antt =====
-- The grant table as a map from channels to grants.
use slop_sync.Base.{
  ℕ, ◌≤◌, ◌<◌, ◌≡◌, ◌≢◌, ◌⊎◌, inl, inr, refl, true, false, none, some, List, [], ◌∷◌, ◌++◌, length,
  length-append, Option-cases, ◌==◌, if◌then◌else◌, arith, map,
}
use slop_sync.Channel.Subscription.{
  Priority, SubscriptionEntry, granted, find, regrant, upsert, remove,
}

module _ {Rate : Type 0} where
  -- Each channel has at most one grant.
  abbrev pub Fresh : ℕ → List (SubscriptionEntry Rate) → Type 0
  Fresh c [] = Unit {0}
  Fresh c (e ∷ es) = (e.channel_id ≢ c) × Fresh c es

  abbrev pub IsValid : List (SubscriptionEntry Rate) → Type 0
  IsValid [] = Unit {0}
  IsValid (e ∷ es) = Fresh e.channel_id es × IsValid es

  abbrev pub channels : List (SubscriptionEntry Rate) → List ℕ
  channels = map λ e. e.channel_id

module _ {Rate : Type 0} where
  find-channel :
      (t : List (SubscriptionEntry Rate)) (c : ℕ) (e : SubscriptionEntry Rate)
      → find t c ≡ some e
      → e.channel_id ≡ c
  unfolding find
  find-channel [] c e h = cc
  find-channel (x ∷ t) c e h = ground (arith, find-channel t c e)

  find-append :
      (t : List (SubscriptionEntry Rate)) (e : SubscriptionEntry Rate) (j : ℕ)
      → find t e.channel_id ≡ none
      → find (t ++ (e ∷ [])) j ≡ (if e.channel_id == j then some e else find t j)
  unfolding find
  find-append [] e j h = refl
  find-append (x ∷ t) e j h = ground (arith, find-append t e j)

  find-regrant :
      (t : List (SubscriptionEntry Rate)) (c : ℕ) (rate : Rate) (p : Priority) (j : ℕ)
      → find t c ≢ none
      → find (regrant t c rate p) j ≡ (if c == j then some (granted c rate p) else find t j)
  unfolding find regrant
  find-regrant [] c rate p j h = absurd (h refl)
  find-regrant (x ∷ t) c rate p j h = ground (arith, find-regrant t c rate p j)

  length-regrant :
      (t : List (SubscriptionEntry Rate)) (c : ℕ) (rate : Rate) (p : Priority)
      → length (regrant t c rate p) ≡ length t
  unfolding regrant
  length-regrant [] c rate p = refl
  length-regrant (x ∷ t) c rate p = ground (arith, length-regrant t c rate p)

  Fresh-append :
      (t : List (SubscriptionEntry Rate)) (e : SubscriptionEntry Rate) (c : ℕ)
      → Fresh c t
      → e.channel_id ≢ c
      → Fresh c (t ++ (e ∷ []))
  Fresh-append [] e c f n = (n, tt)
  Fresh-append (x ∷ t) e c f n = (f.0, Fresh-append t e c f.1 n)

  IsValid-append :
      (t : List (SubscriptionEntry Rate)) (e : SubscriptionEntry Rate)
      → IsValid t
      → find t e.channel_id ≡ none
      → IsValid (t ++ (e ∷ []))
  unfolding find
  IsValid-append [] e v h = (tt, tt)
  IsValid-append (x ∷ t) e v h =
      (Fresh-append t e x.channel_id v.0 (ground arith), IsValid-append t e v.1 (ground arith))

  Fresh-regrant :
      (t : List (SubscriptionEntry Rate)) (c : ℕ) (rate : Rate) (p : Priority) (d : ℕ)
      → Fresh d t
      → Fresh d (regrant t c rate p)
  unfolding regrant
  Fresh-regrant [] c rate p d f = tt
  Fresh-regrant (x ∷ t) c rate p d f = ground (arith, Fresh-regrant t c rate p d f.1)

  IsValid-regrant :
      (t : List (SubscriptionEntry Rate)) (c : ℕ) (rate : Rate) (p : Priority)
      → IsValid t
      → IsValid (regrant t c rate p)
  unfolding regrant
  IsValid-regrant [] c rate p v = tt
  IsValid-regrant (x ∷ t) c rate p v =
      ground (arith, IsValid-regrant t c rate p v.1, Fresh-regrant t c rate p x.channel_id v.0)

  Fresh-remove : (t : List (SubscriptionEntry Rate)) (c d : ℕ) → Fresh d t → Fresh d (remove t c).1
  unfolding remove
  Fresh-remove [] c d f = tt
  Fresh-remove (x ∷ t) c d f = ground (arith, Fresh-remove t c d f.1)

  IsValid-remove : (t : List (SubscriptionEntry Rate)) (c : ℕ) → IsValid t → IsValid (remove t c).1
  unfolding remove
  IsValid-remove [] c v = tt
  IsValid-remove (x ∷ t) c v =
      ground (arith, IsValid-remove t c v.1, Fresh-remove t c x.channel_id v.0)

  find-Fresh : (t : List (SubscriptionEntry Rate)) (c : ℕ) → Fresh c t → find t c ≡ none
  unfolding find
  find-Fresh [] c f = refl
  find-Fresh (x ∷ t) c f = ground (arith, find-Fresh t c f.1)

  length-remove : (t : List (SubscriptionEntry Rate)) (c : ℕ) → length (remove t c).1 ≤ length t
  unfolding remove
  length-remove [] c = omega arith
  length-remove (x ∷ t) c = ground (arith, length-remove t c)

  -- A grant is refused, and changes nothing, exactly when the channel has none and the table is
  -- full. Otherwise the channel's grant is the new one, due for a push at once, and every other
  -- channel keeps its own.
  pub find-upsert :
      (capacity : ℕ) (t : List (SubscriptionEntry Rate)) (c : ℕ) (rate : Rate) (p : Priority)
      (j : ℕ)
      → let (accepted, t') = upsert capacity t c rate p in
        ((accepted ≡ false) × (t' ≡ t) × (find t c ≡ none) × (capacity ≤ length t))
        ⊎ ((accepted ≡ true)
            × ((find t c ≢ none) ⊎ (length t < capacity))
            × (find t' j ≡ (if c == j then some (granted c rate p) else find t j)))
  unfolding upsert
  find-upsert capacity t c rate p j = elim (Option-cases (find t c)) [
    | inl missing ↦ ground (arith, missing, find-append t (granted c rate p) j)
    | inr (e, found) ↦ ground (arith, found, find-regrant t c rate p j)
  ]

  -- From a table with one grant for each channel, `remove` says whether the channel had a grant;
  -- afterwards it has none, and every other channel keeps its own.
  pub find-remove :
      (t : List (SubscriptionEntry Rate)) (c j : ℕ)
      → IsValid t
      → let (removed, t') = remove t c in
        ((removed ≡ true) × (find t c ≢ none) ⊎ ((removed ≡ false) × (find t c ≡ none)))
        × (find t' j ≡ (if c == j then none else find t j))
  unfolding remove find
  find-remove [] c j v = ground arith
  find-remove (x ∷ t) c j v = ground (arith, find-remove t c j v.1, find-Fresh t c)

  -- Granting and removing keep one grant for each channel, and the table within its capacity.
  pub upsert-remove-IsValid :
      (capacity : ℕ) (t : List (SubscriptionEntry Rate)) (c : ℕ) (rate : Rate) (p : Priority)
      → IsValid t
      → length t ≤ capacity
      → let t' = (upsert capacity t c rate p).1 in
        let t'' = (remove t c).1 in
        (IsValid t' × (length t' ≤ capacity)) × (IsValid t'' × (length t'' ≤ capacity))
  unfolding upsert
  upsert-remove-IsValid capacity t c rate p v small = (granting, removing)
    where
      removing : IsValid (remove t c).1 × (length (remove t c).1 ≤ capacity)
      removing = (IsValid-remove t c v, omega (arith, length-remove t c))

      granting :
          IsValid (upsert capacity t c rate p).1
          × (length (upsert capacity t c rate p).1 ≤ capacity)
      granting = elim (Option-cases (find t c)) [
        | inl missing ↦ ground (
          arith,
          missing,
          length-append t (granted c rate p ∷ []),
          IsValid-append t (granted c rate p) v,
        )
        | inr (e, found) ↦
            ground (arith, found, length-regrant t c rate p, IsValid-regrant t c rate p v)
      ]
