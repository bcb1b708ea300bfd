-- ===== src/Channel/RetainedStore/Laws.antt =====
-- What a subscriber reads from the retained store after any publication.
use slop_sync.Base.{
  ℕ, ◌+◌, ◌%◌, ◌≤◌, ◌<◌, ◌≡◌, refl, ◌≢◌, ◌⊎◌, inl, inr, true, Option, none, some, List, [], ◌∷◌,
  ◌++◌, arith, ◌==◌, if◌then◌else◌, Bool-cases, Option-cases, length, length-append,
}
use slop_sync.Util.Serial.{u16_mod}
use slop_sync.Channel.RetainedStore.{
  RetainedView, Entry, RetainedStore, find, overwrite, publish, get, min_transport_payload, written,
  new_entry,
}

-- Each channel has one entry, which has been published.
abbrev pub Fresh : ℕ → RetainedStore → Type 0
Fresh c [] = Unit {0}
Fresh c (e ∷ es) = (e.channel_id ≢ c) × Fresh c es

abbrev pub IsValid : RetainedStore → Type 0
IsValid [] = Unit {0}
IsValid (e ∷ es) = (e.valid ≡ true) × (e.seq < u16_mod) × Fresh e.channel_id es × IsValid es

-- The sequence number of the latest publication; 0 where there was none.
abbrev pub last_seq : Option RetainedView → ℕ
last_seq none = 0
last_seq (some v) = v.seq

find-append :
    (s : RetainedStore) (e : Entry) (j : ℕ)
    → find s e.channel_id ≡ none
    → find (s ++ (e ∷ [])) j ≡ (if e.channel_id == j then some e else find s j)
unfolding find
find-append [] e j h = refl
find-append (x ∷ s) e j h = ground (arith, find-append s e j)

find-overwrite :
    (s : RetainedStore) (c : ℕ) (e e' : Entry) (j : ℕ)
    → find s c ≡ some e
    → e'.channel_id ≡ c
    → find (overwrite s c e') j ≡ (if c == j then some e' else find s j)
unfolding find overwrite
find-overwrite [] c e e' j h k = cc
find-overwrite (x ∷ s) c e e' j h k = ground (arith, find-overwrite s c e e' j)

find-channel : (s : RetainedStore) (c : ℕ) (e : Entry) → find s c ≡ some e → e.channel_id ≡ c
unfolding find
find-channel [] c e h = cc
find-channel (x ∷ s) c e h = ground (arith, find-channel s c e)

find-valid :
    (s : RetainedStore) (c : ℕ) (e : Entry) → IsValid s → find s c ≡ some e → e.valid ≡ true
unfolding find
find-valid [] c e v h = cc
find-valid (x ∷ s) c e v h = ground (arith, find-valid s c e v.3)

length-overwrite : (s : RetainedStore) (c : ℕ) (e : Entry) → length (overwrite s c e) ≡ length s
unfolding overwrite
length-overwrite [] c e = refl
length-overwrite (x ∷ s) c e = ground (arith, length-overwrite s c e)

Fresh-append :
    (s : RetainedStore) (e : Entry) (c : ℕ) → Fresh c s → e.channel_id ≢ c → Fresh c (s ++ (e ∷ []))
Fresh-append [] e c f n = (n, tt)
Fresh-append (x ∷ s) e c f n = (f.0, Fresh-append s e c f.1 n)

IsValid-append :
    (s : RetainedStore) (e : Entry)
    → IsValid s
    → find s e.channel_id ≡ none
    → e.valid ≡ true
    → e.seq < u16_mod
    → IsValid (s ++ (e ∷ []))
unfolding find
IsValid-append [] e v h k l = (k, l, tt, tt)
IsValid-append (x ∷ s) e v h k l = (
  v.0,
  v.1,
  Fresh-append s e x.channel_id v.2 (ground arith),
  IsValid-append s e v.3 (ground arith) k l,
)

Fresh-overwrite :
    (s : RetainedStore) (c : ℕ) (e : Entry) (d : ℕ)
    → Fresh d s
    → e.channel_id ≡ c
    → Fresh d (overwrite s c e)
unfolding overwrite
Fresh-overwrite [] c e d f k = tt
Fresh-overwrite (x ∷ s) c e d f k = ground (arith, Fresh-overwrite s c e d f.1 k)

IsValid-overwrite :
    (s : RetainedStore) (c : ℕ) (e : Entry)
    → IsValid s
    → e.channel_id ≡ c
    → e.valid ≡ true
    → e.seq < u16_mod
    → IsValid (overwrite s c e)
unfolding overwrite
IsValid-overwrite [] c e v k l m = tt
IsValid-overwrite (x ∷ s) c e v k l m = elim (Bool-cases (x.channel_id == c)) [
  | inl hit ↦
      let same : e.channel_id ≡ x.channel_id = ground arith in rw hit (l, m, rw same v.2, v.3)
  | inr miss ↦
      rw miss
        (v.0, v.1, Fresh-overwrite s c e x.channel_id v.2 k, IsValid-overwrite s c e v.3 k l m)
]

-- Publishing from a store in which every channel has one published entry keeps it so, and the store
-- never grows beyond its capacity.
pub publish-IsValid :
    (capacity : ℕ) (s : RetainedStore) (c : ℕ) (payload : List ℕ)
    → IsValid s
    → length s ≤ capacity
    → let s' = (publish capacity s c payload).1 in IsValid s' × (length s' ≤ capacity)
unfolding publish
publish-IsValid capacity s c payload v small = elim (Option-cases (find s c)) [
  | inl missing ↦ ground (
    arith,
    missing,
    length-append s (written (new_entry c) payload ∷ []),
    IsValid-append s (written (new_entry c) payload) v,
  )
  | inr (e, found) ↦ ground (
    arith,
    found,
    length-overwrite s c (written e payload),
    find-channel s c e found,
    IsValid-overwrite s c (written e payload) v,
  )
]

-- A publication is refused, and changes nothing, exactly when the payload is over the transport
-- floor, or the channel is new and the store is full. Otherwise the answer is the channel's previous
-- sequence number plus one, mod 2 ^ 16; the channel then reads the answer and the payload, and every
-- other channel reads what it read before.
pub get-publish :
    (capacity : ℕ) (s : RetainedStore) (c : ℕ) (payload : List ℕ) (j : ℕ)
    → IsValid s
    → let (r, s') = publish capacity s c payload in
      ((r ≡ none)
        × (s' ≡ s)
        × ((min_transport_payload < length payload) ⊎ ((get s c ≡ none) × (capacity ≤ length s))))
      ⊎ ((length payload ≤ min_transport_payload)
          × ((get s c ≢ none) ⊎ (length s < capacity))
          × (r ≡ some ((last_seq (get s c) + 1) % u16_mod))
          × (get s' j ≡ (
              if c == j
              then some (record { seq = (last_seq (get s c) + 1) % u16_mod; payload = payload })
              else get s j)))
unfolding publish get
get-publish capacity s c payload j v = elim (Option-cases (find s c)) [
  | inl missing ↦ ground (arith, missing, find-append s (written (new_entry c) payload) j)
  | inr (e, found) ↦ ground (
    arith,
    found,
    find-channel s c e found,
    find-valid s c e v found,
    find-overwrite s c e (written e payload) j found,
  )
]
