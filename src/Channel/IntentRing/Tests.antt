-- ===== src/Channel/IntentRing/Tests.antt =====
-- A ring of two echoes, in use.
use slop_sync.Base.{◌≡◌, refl, none, some, [], ◌∷◌, arith}
use slop_sync.Channel.IntentRing.{fresh, lookup, store, clear}
use slop_sync.Channel.IntentRing.Recall.{store_all, lookup-store_all}

recalled : lookup (store_all 2 4 (fresh 2) ((5, 50 ∷ []) ∷ (6, 60 ∷ []) ∷ [])) 5 ≡ some (50 ∷ [])
unfolding lookup store_all store
recalled = refl

evicted :
    lookup (store_all 2 4 (fresh 2) ((5, 50 ∷ []) ∷ (6, 60 ∷ []) ∷ (7, 70 ∷ []) ∷ [])) 5 ≡ none
unfolding lookup store_all store
evicted = refl

cleared : lookup (clear (store 2 4 (fresh 2) 5 (50 ∷ [])).1) 5 ≡ none
unfolding lookup clear store
cleared = refl

lookup-store_all_example :
    lookup (store_all 2 4 (store_all 2 4 (fresh 2) ((4, []) ∷ [])) ((5, 50 ∷ []) ∷ (6, []) ∷ [])) 5
    ≡ some (50 ∷ [])
lookup-store_all_example =
    lookup-store_all 2 4 ((4, []) ∷ []) ((6, []) ∷ []) 5 (50 ∷ []) (omega arith) (omega arith)
      (omega arith) (omega arith)
