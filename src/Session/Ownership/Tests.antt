-- ===== src/Session/Ownership/Tests.antt =====
-- Two sessions and one control source.
use slop_sync.Base.{ℕ, ◌≡◌, refl, ◌≢◌, inr, true, false, [], ◌∷◌, arith, ◌==◌, if◌then◌else◌}
use slop_sync.Session.Access.{watch, control, configure}
use slop_sync.Session.Ownership.{
  acquired, conflict, taken_over, Table, new_table, acquire, release_all_of, owner_of,
  owner_role_of,
}
use slop_sync.Session.Ownership.Laws.{Acquires, acquire-Acquires, release_all_of_lem}
use slop_sync.Session.Ownership.Safety.{acquires, releases, releases_all, run, Owns, run-Owns}

-- Session 7 owns source 2 under `control`.
abbrev owned : Table
owned =
    record { source_id = 2; owner = 7; role = control; used = true }
    ∷ record { source_id = 0; owner = 0; role = watch; used = false }
    ∷ []

first_owner : (acquire new_table 2 7 control false).0 ≡ acquired
unfolding acquire
first_owner = refl

too_low : acquire owned 2 8 watch true ≡ (conflict, owned)
unfolding acquire
too_low = refl

displaced : (acquire owned 2 8 configure true).0 ≡ taken_over
unfolding acquire
displaced = refl

owned-Owns : Owns owned 2 7 control
unfolding owner_of owner_role_of
owned-Owns = (refl, refl)

acquire-Acquires_example :
    let (r, t') = acquire owned 2 8 configure true in
    Acquires owned 2 8 configure true r t'
    × (◌≢◌ {A = ℕ} 3 2
        → (owner_of t' 3 ≡ owner_of owned 3) × (owner_role_of t' 3 ≡ owner_role_of owned 3))
acquire-Acquires_example = acquire-Acquires owned 2 8 configure true 3

release_all_of_lem_example :
    let t' = (release_all_of owned 7).1 in
    (owner_of t' 2 ≡ (if owner_of owned 2 == 7 then 0 else owner_of owned 2))
    × (owner_role_of t' 2 ≡ (if owner_of owned 2 == 7 then watch else owner_role_of owned 2))
release_all_of_lem_example = release_all_of_lem owned 7 2

run-Owns_example :
    Owns (run owned (acquires 2 8 watch true ∷ releases 2 8 ∷ releases_all 9 ∷ [])) 2 7 control
run-Owns_example =
    run-Owns owned 2 7 control (acquires 2 8 watch true ∷ releases 2 8 ∷ releases_all 9 ∷ [])
      (omega arith) (inr (inr (inr (omega arith))), (inr (omega arith), (omega arith, tt)))
      owned-Owns
