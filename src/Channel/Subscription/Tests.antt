-- ===== src/Channel/Subscription/Tests.antt =====
-- A grant table in use; a rate is taken as its period in milliseconds, 0 for on-change only.
use slop_sync.Base.{
  ℕ, ◌≤◌, ◌<◌, ◌≡◌, refl, ◌≢◌, ◌⊎◌, true, false, ◌&&◌, ◌||◌, none, some, List, [], ◌∷◌, arith, leb,
  ◌==◌, if◌then◌else◌, length,
}
use slop_sync.Channel.Subscription.{
  background, normal, elevated, critical, Rates, SubscriptionEntry, granted, due_for_push,
  mark_pushed, find, upsert, remove,
}
use slop_sync.Channel.Subscription.Laws.{IsValid, find-upsert, upsert-remove-IsValid}
use slop_sync.Channel.Subscription.Pacing.{due_for_push_paced}

abbrev periods : Rates
periods = record { Rate = ℕ; is_nonpos = λ r. r == 0; period_ms = λ r. r }

abbrev table : List (SubscriptionEntry ℕ)
table = granted 3 100 normal ∷ granted 9 0 critical ∷ []

table-IsValid : IsValid table
table-IsValid = ((omega arith, tt), (tt, tt))

regranted : upsert 2 table 9 20 normal ≡ (true, granted 3 100 normal ∷ granted 9 20 normal ∷ [])
unfolding upsert
regranted = refl

full : (upsert 2 table 4 20 normal).0 ≡ false
unfolding upsert
full = refl

removed : remove table 3 ≡ (true, granted 9 0 critical ∷ [])
unfolding remove
removed = refl

find-upsert_example :
    let (accepted, t') = upsert 2 table 4 20 elevated in
    ((accepted ≡ false) × (t' ≡ table) × (find table 4 ≡ none) × (2 ≤ 2))
    ⊎ ((accepted ≡ true)
        × ((find table 4 ≢ none) ⊎ (2 < 2))
        × (find t' 9 ≡ (if 4 == 9 then some (granted 4 20 elevated) else find table 9)))
find-upsert_example = find-upsert 2 table 4 20 elevated 9

upsert-remove-IsValid_example :
    let t' = (upsert 2 table 4 20 background).1 in
    let t'' = (remove table 4).1 in
    (IsValid t' × (length t' ≤ 2)) × (IsValid t'' × (length t'' ≤ 2))
upsert-remove-IsValid_example =
    upsert-remove-IsValid 2 table 4 20 background table-IsValid (omega arith)

-- A push just before the clock wraps, and the next one 100 ms later.
due_for_push_paced_example :
    (due_for_push periods (granted 7 50 normal) 0xffff_ffff true ≡ true)
    × (due_for_push periods (mark_pushed periods (granted 3 100 normal) 0xffff_ffff) 99 true
        ≡ (true && (false || leb 100 100)))
due_for_push_paced_example =
    due_for_push_paced periods (granted 3 100 normal) 7 50 normal 0xffff_ffff 100 true (omega arith)
      (omega arith) (omega arith)
