-- ===== src/Session/Pending/Tests.antt =====
-- The theorems on the pending list at concrete inputs.
use slop_sync.Base.{ℕ, refl, true, List, ◌∷◌, ◌==◌, replicate}
use slop_sync.Session.Pending.{PendingKnock, no_knock, no_knocks, add, drop_by_session}
use slop_sync.Session.Pending.Laws.{Adds, add-Adds, Sweeps, drop_by_session-Sweeps}

abbrev remote : List ℕ
remote = replicate 8 5

abbrev one_knock : List PendingKnock
one_knock =
    (record no_knock { instance_id = remote; session_id = 3; expires_at_ms = 100; used = true })
    ∷ no_knocks

add-Adds_example : Adds one_knock remote 4 200 1 (add one_knock remote 4 200 1)
add-Adds_example = add-Adds one_knock remote 4 200 1 refl

drop_by_session-Sweeps_example :
    Sweeps
      (λ k. k.session_id == 3)
      one_knock
      (drop_by_session one_knock 3).0
      (drop_by_session one_knock 3).1
drop_by_session-Sweeps_example = drop_by_session-Sweeps one_knock 3
