-- ===== src/Session/Shedding/Order.antt =====
-- The order in which session/shedding.hpp gives way under load.
use slop_sync.Base.{ℕ, ◌≤◌, ◌≡◌, ◌⊎◌, Bool, true, arith}
use slop_sync.Channel.Subscription.{Priority, background, normal, elevated, critical}
use slop_sync.Session.Shedding.{
  ChannelClass, ShedDecision, send, decimate2x, decimate4x, conflate_hard, shed_drop, shed_decision,
}

-- How much a decision costs the subscriber.
abbrev pub severity : ShedDecision → ℕ
severity send = 0
severity decimate2x = 1
severity decimate4x = 2
severity conflate_hard = 3
severity shed_drop = 4

abbrev pub importance : Priority → ℕ
importance background = 0
importance normal = 1
importance elevated = 2
importance critical = 3

-- For every channel, more congestion never makes a decision milder, and a more important
-- subscription is never treated worse than a less important one at the same level.
pub shed_decision_monotone :
    (p q : Priority) (cls : ChannelClass) (level level' : ℕ) (segment : Bool)
    → level ≤ level'
    → importance p ≤ importance q
    → (severity (shed_decision p cls level segment) ≤ severity (shed_decision p cls level' segment))
      × (severity (shed_decision q cls level segment)
          ≤ severity (shed_decision p cls level segment))
unfolding shed_decision
shed_decision_monotone p q cls level level' segment h k = ground arith

-- A critical subscription is sent at every level, and everything is sent on a clear link. A channel
-- of timed segments is never thinned: its pushes are all sent, or all dropped, and they are dropped
-- only from level 2 on and below `elevated`.
pub shed_decision_protects :
    (p : Priority) (cls : ChannelClass) (level : ℕ) (segment : Bool)
    → (shed_decision critical cls level segment ≡ send)
      × (shed_decision p cls 0 segment ≡ send)
      × ((shed_decision p cls level true ≡ send)
          ⊎ ((shed_decision p cls level true ≡ shed_drop) × (2 ≤ level) × (importance p ≤ 1)))
unfolding shed_decision
shed_decision_protects p cls level segment = ground arith
