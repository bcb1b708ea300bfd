-- ===== src/Channel/RetainedStore/Tests.antt =====
-- A retained store of two channels, in use.
use slop_sync.Base.{
  ◌+◌, ◌%◌, ◌≤◌, ◌<◌, ◌≡◌, ◌≢◌, ◌⊎◌, refl, true, none, some, [], ◌∷◌, length, replicate, arith,
  ◌==◌, if◌then◌else◌,
}
use slop_sync.Util.Serial.{u16_mod}
use slop_sync.Channel.RetainedStore.{RetainedStore, min_transport_payload, publish, get}
use slop_sync.Channel.RetainedStore.Laws.{IsValid, last_seq, publish-IsValid, get-publish}

-- Channel 3 was last published under the highest sequence number.
abbrev store : RetainedStore
store = record { channel_id = 3; valid = true; seq = 0xffff; payload = 7 ∷ [] } ∷ []

store-IsValid : IsValid store
store-IsValid = (refl, omega arith, tt, tt)

wraps : (publish 1 store 3 (8 ∷ [])).0 ≡ some 0
unfolding publish
wraps = refl

full : (publish 1 store 4 (8 ∷ [])).0 ≡ none
unfolding publish
full = refl

too_large : (publish 1 store 3 (replicate 243 0)).0 ≡ none
unfolding publish
too_large = refl

reads : get (publish 2 store 4 (8 ∷ [])).1 4 ≡ some (record { seq = 1; payload = 8 ∷ [] })
unfolding publish get
reads = refl

publish-IsValid_example : let s' = (publish 2 store 4 (8 ∷ [])).1 in IsValid s' × (length s' ≤ 2)
publish-IsValid_example = publish-IsValid 2 store 4 (8 ∷ []) store-IsValid (omega arith)

get-publish_example :
    let (r, s') = publish 2 store 4 (8 ∷ []) in
    ((r ≡ none) × (s' ≡ store) × ((min_transport_payload < 1) ⊎ ((get store 4 ≡ none) × (2 ≤ 1))))
    ⊎ ((1 ≤ min_transport_payload)
        × ((get store 4 ≢ none) ⊎ (1 < 2))
        × (r ≡ some ((last_seq (get store 4) + 1) % u16_mod))
        × (get s' 3 ≡ (
            if 4 == 3
            then some (record { seq = (last_seq (get store 4) + 1) % u16_mod; payload = 8 ∷ [] })
            else get store 3)))
get-publish_example = get-publish 2 store 4 (8 ∷ []) 3 store-IsValid
