-- ===== src/Channel/IntentRing/Recall.antt =====
-- How long an echo can be recalled from the ring of channel/intent_registry.hpp.
use native.Mathlib.Nat.{mod-eq_of_lt}
use native.Mathlib.Decide.{dec_lt}
use slop_sync.Base.{
  ℕ, zero, suc, ◌+◌, ◌%◌, ◌≤◌, ◌<◌, ◌≡◌, refl, ap, ◌∙◌, subst, ◌≢◌, inl, inr, true, false, ◌&&◌,
  none, some, List, [], ◌∷◌, arith, ltb, ◌==◌, if◌then◌else◌, ltb-true, Bool-cases, length, set,
  replicate, All, length-replicate, length-set, wrap-ne, wrap_add, wrap_round,
}
use slop_sync.Channel.IntentRing.{Slot, empty_slot, IntentRing, lookup_in, lookup, store, fresh}

module _ (id : ℕ) (echo : List ℕ) where
  -- The slot is not for `id`.
  abbrev pub Other : Slot → Type 0
  Other s = (s.used && s.intent_id == id) ≡ false

  abbrev pub target : Slot
  target = record { used = true; intent_id = id; bytes = echo }

  -- The slot at index `p`, and no other, is for `id`, and it holds the echo.
  abbrev pub Sole : ℕ → List Slot → Type 0
  Sole p [] = ⊥
  Sole zero (s ∷ slots) = (s ≡ target) × All Other slots
  Sole (suc p) (s ∷ slots) = Other s × Sole p slots

  lookup_in-Other : (n : ℕ) (slots : List Slot) → All Other slots → lookup_in n slots id ≡ none
  unfolding lookup_in
  lookup_in-Other zero slots h = refl
  lookup_in-Other (suc n) [] h = refl
  lookup_in-Other (suc n) (s ∷ slots) h = ground (arith, lookup_in-Other n slots h.1)

  lookup_in-Sole :
      (n p : ℕ) (slots : List Slot) → Sole p slots → p < n → lookup_in n slots id ≡ some echo
  unfolding lookup_in
  lookup_in-Sole zero p slots h lt = absurd (omega arith)
  lookup_in-Sole (suc n) p [] h lt = absurd h
  lookup_in-Sole (suc n) zero (s ∷ slots) h lt = rw h.0 (ground arith)
  lookup_in-Sole (suc n) (suc p) (s ∷ slots) h lt =
      ground (arith, lookup_in-Sole n p slots h.1 (omega arith))

  Other-set :
      (slots : List Slot) (i : ℕ) (x : Slot) → All Other slots → Other x → All Other (set slots i x)
  Other-set [] i x h k = tt
  Other-set (s ∷ slots) zero x h k = (k, h.1)
  Other-set (s ∷ slots) (suc i) x h k = (h.0, Other-set slots i x h.1 k)

  Sole-set_self :
      (slots : List Slot) (i : ℕ) → All Other slots → i < length slots → Sole i (set slots i target)
  Sole-set_self [] i h lt = absurd (omega arith)
  Sole-set_self (s ∷ slots) zero h lt = (refl, h.1)
  Sole-set_self (s ∷ slots) (suc i) h lt = (h.0, Sole-set_self slots i h.1 (omega arith))

  Sole-set_ne :
      (slots : List Slot) (p i : ℕ) (x : Slot)
      → Sole p slots
      → i ≢ p
      → Other x
      → Sole p (set slots i x)
  Sole-set_ne [] p i x h n k = absurd h
  Sole-set_ne (s ∷ slots) zero zero x h n k = absurd (n refl)
  Sole-set_ne (s ∷ slots) zero (suc i) x h n k = (h.0, Other-set slots i x h.1 k)
  Sole-set_ne (s ∷ slots) (suc p) zero x h n k = (k, h.1)
  Sole-set_ne (s ∷ slots) (suc p) (suc i) x h n k =
      (h.0, Sole-set_ne slots p i x h.1 (λ e. n (ap suc e)) k)

  Other-overwrite :
      (slots : List Slot) (p : ℕ) (x : Slot) → Sole p slots → Other x → All Other (set slots p x)
  Other-overwrite [] p x h k = tt
  Other-overwrite (s ∷ slots) zero x h k = (k, h.1)
  Other-overwrite (s ∷ slots) (suc p) x h k = (h.0, Other-overwrite slots p x h.1 k)

  Other-replicate : (n : ℕ) → All Other (replicate n empty_slot)
  Other-replicate zero = tt
  Other-replicate (suc n) = (refl, Other-replicate n)

next_filling :
    (head count depth : ℕ)
    → count ≤ depth
    → (count < depth → head ≡ count)
    → (if ltb count depth then count + 1 else count) < depth
    → (head + 1) % depth ≡ (if ltb count depth then count + 1 else count)
next_filling head count depth fits filling h = elim (dec_lt count depth) [
  | yes room ↦
      ground
        (arith, filling room, ltb-true count depth room, mod-eq_of_lt {n = head + 1} {m = depth})
  | no full ↦ ground arith
]

-- The slot that was written last is among those in use.
newest :
    (head count depth : ℕ)
    → head < depth
    → (count < depth → head ≡ count)
    → head < (if ltb count depth then count + 1 else count)
newest head count depth h filling = ground arith

module _ (depth slot_capacity : ℕ) where
  pub record IsValid (r : IntentRing) : Type 0 where
    pub sized : length r.slots ≡ depth
    pub head_in : r.head < depth
    pub fits : r.count ≤ depth
    pub filling : r.count < depth → r.head ≡ r.count

  store-IsValid :
      (r : IntentRing) (id : ℕ) (echo : List ℕ)
      → IsValid r
      → IsValid (store depth slot_capacity r id echo).1
  unfolding store
  store-IsValid r id echo v = elim (Bool-cases (ltb slot_capacity (length echo))) [
    | inl long ↦ rw long v
    | inr fits ↦ rw fits (record {
      sized = length-set r.slots r.head _ ∙ v.sized;
      head_in = omega arith;
      fits = ground arith;
      filling = λ h. next_filling r.head r.count depth v.fits v.filling h;
    })
  ]

  -- The stores of a list of ids with their echoes, in order.
  unfoldable pub store_all : IntentRing → List (ℕ × List ℕ) → IntentRing
  store_all r [] = r
  store_all r ((id, echo) ∷ es) = store_all (store depth slot_capacity r id echo).1 es

  -- An id and its echo that the ring takes, and which is not `id`.
  abbrev pub Apart : ℕ → ℕ × List ℕ → Type 0
  Apart id (j, echo) = (j ≢ id) × (length echo ≤ slot_capacity)

  other_of_apart : (id j : ℕ) (echo : List ℕ) → j ≢ id → (true && j == id) ≡ false
  other_of_apart id j echo n = ground arith

  store-slots :
      (r : IntentRing) (id : ℕ) (echo : List ℕ)
      → length echo ≤ slot_capacity
      → let r' = (store depth slot_capacity r id echo).1 in
        (r'.slots ≡ set r.slots r.head (record { used = true; intent_id = id; bytes = echo }))
        × (r'.head ≡ (r.head + 1) % depth)
        × (r'.count ≡ (if ltb r.count depth then r.count + 1 else r.count))
  unfolding store
  store-slots r id echo h = ground arith

  gone-lookup :
      (es : List (ℕ × List ℕ)) (r : IntentRing) (id : ℕ) (echo : List ℕ)
      → All (Other id echo) r.slots
      → All (Apart id) es
      → All (Other id echo) (store_all r es).slots
  unfolding store_all
  gone-lookup [] r id echo g a = g
  gone-lookup ((j, e) ∷ es) r id echo g (a, rest) =
      gone-lookup es _ id echo
        (rw (store-slots r j e a.1).0
          (Other-set id echo r.slots r.head _ g (other_of_apart id j e a.0)))
        rest

  -- `k` stores ago the echo was put at index `p`.
  kept-lookup :
      (es : List (ℕ × List ℕ)) (k p : ℕ) (r : IntentRing) (id : ℕ) (echo : List ℕ)
      → IsValid r
      → Sole id echo p r.slots
      → p < r.count
      → r.head ≡ (p + 1 + k) % depth
      → k < depth
      → All (Apart id) es
      → lookup (store_all r es) id ≡ (if ltb (k + length es) depth then some echo else none)
  unfolding store_all lookup
  kept-lookup [] k p r id echo v s lt e h a =
      lookup_in-Sole id echo r.count p r.slots s lt ∙ ground arith
  kept-lookup ((j, x) ∷ es) k p r id echo v s lt e h (a, rest) = elim (dec_lt (suc k) depth) [
    | yes more ↦
        let (slots, head, count) = store-slots r j x a.1 in
        let v' = store-IsValid r j x v in
        let steps : p + suc k ≡ p + 1 + k = omega arith in
        kept-lookup es (suc k) p _ id echo v'
          (rw slots (
            Sole-set_ne id echo r.slots p r.head _ s
              (rw e (subst (λ m. m % depth ≢ p) steps (wrap-ne depth p k (omega arith) more)))
              (other_of_apart id j x a.0)))
          (rw count (ground arith))
          (head ∙ rw e (wrap_add depth (p + 1 + k) 1 ∙ ap (λ i. i % depth) (omega arith))) more rest
        ∙ ap (λ m. if ltb m depth then some echo else none) (omega arith)
    | no full ↦
        let (slots, head, count) = store-slots r j x a.1 in
        let here : r.head ≡ p =
          e ∙ ap (λ i. i % depth) (omega arith) ∙ wrap_round depth p (omega arith) in
        lookup_in-Other id echo _ _ (
          gone-lookup es _ id echo
            (rw (slots, here) (Other-overwrite id echo r.slots p _ s (other_of_apart id j x a.0)))
            rest)
        ∙ ground arith
  ]

  fresh-IsValid : 0 < depth → IsValid (fresh depth)
  fresh-IsValid h = record {
    sized = length-replicate depth empty_slot;
    head_in = h;
    fits = omega arith;
    filling = λ _. refl;
  }

  store_all-IsValid :
      (es : List (ℕ × List ℕ)) (r : IntentRing) → IsValid r → IsValid (store_all r es)
  unfolding store_all
  store_all-IsValid [] r v = v
  store_all-IsValid ((j, x) ∷ es) r v = store_all-IsValid es _ (store-IsValid r j x v)

  -- In a session that stores any echoes, then one under `id`, and then any others, where no other
  -- echo is under `id` and none is over the slot capacity, a duplicate of `id` finds exactly the
  -- stored echo as long as fewer than `depth` echoes were stored after it, and nothing from then on.
  pub lookup-store_all :
      (earlier later : List (ℕ × List ℕ)) (id : ℕ) (echo : List ℕ)
      → 0 < depth
      → length echo ≤ slot_capacity
      → All (Apart id) earlier
      → All (Apart id) later
      → lookup (store_all (store_all (fresh depth) earlier) ((id, echo) ∷ later)) id
        ≡ (if ltb (length later) depth then some echo else none)
  unfolding store_all
  lookup-store_all earlier later id echo pos small before after =
      kept-lookup later 0 r.head (store depth slot_capacity r id echo).1 id echo
        (store-IsValid r id echo v)
        (rw slots (Sole-set_self id echo r.slots r.head others (omega (arith, v.sized, v.head_in))))
        (rw count (newest r.head r.count depth v.head_in v.filling))
        (head ∙ ap (λ m. m % depth) (omega arith)) pos after
      ∙ ap (λ m. if ltb m depth then some echo else none) (omega arith)
    where
      r : IntentRing
      r = store_all (fresh depth) earlier

      v : IsValid r
      v = store_all-IsValid earlier (fresh depth) (fresh-IsValid pos)

      others : All (Other id echo) r.slots
      others = gone-lookup earlier (fresh depth) id echo (Other-replicate id echo depth) before

      slots :
          (store depth slot_capacity r id echo).1.slots
          ≡ set r.slots r.head (record { used = true; intent_id = id; bytes = echo })
      slots = (store-slots r id echo small).0

      head : (store depth slot_capacity r id echo).1.head ≡ (r.head + 1) % depth
      head = (store-slots r id echo small).1

      count :
          (store depth slot_capacity r id echo).1.count
          ≡ (if ltb r.count depth then r.count + 1 else r.count)
      count = (store-slots r id echo small).2
