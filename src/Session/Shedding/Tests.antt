-- ===== src/Session/Shedding/Tests.antt =====
-- The shedding table at concrete inputs.
use slop_sync.Base.{◌≤◌, ◌≡◌, refl, ◌⊎◌, true, false, arith}
use slop_sync.Channel.Subscription.{background, normal, critical}
use slop_sync.Session.Shedding.{state, stream, send, conflate_hard, shed_drop, shed_decision}
use slop_sync.Session.Shedding.Order.{
  severity, importance, shed_decision_monotone, shed_decision_protects,
}

mild : shed_decision background state 1 false ≡ conflate_hard
unfolding shed_decision
mild = refl

shed_decision_monotone_example :
    (severity (shed_decision background state 1 false)
      ≤ severity (shed_decision background state 2 false))
    × (severity (shed_decision normal state 1 false)
        ≤ severity (shed_decision background state 1 false))
shed_decision_monotone_example =
    shed_decision_monotone background normal state 1 2 false (omega arith) (omega arith)

shed_decision_protects_example :
    (shed_decision critical stream 2 false ≡ send)
    × (shed_decision normal stream 0 false ≡ send)
    × ((shed_decision normal stream 2 true ≡ send)
        ⊎ ((shed_decision normal stream 2 true ≡ shed_drop) × (2 ≤ 2) × (importance normal ≤ 1)))
shed_decision_protects_example = shed_decision_protects normal stream 2 false
