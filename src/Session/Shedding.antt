-- ===== src/Session/Shedding.antt =====
-- session/shedding.hpp: what happens to a due push at each congestion level.
pub mod Order
mod Tests
use slop_sync.Base.{
  ℕ, zero, suc, ◌+◌, ◌-◌, ◌*◌, ◌/◌, ◌%◌, ◌^◌, ◌≤◌, ◌<◌, min, bit_and, bit_or, bit_xor, ◌≡◌, refl,
  sym, ap, ◌∙◌, subst, ◌≢◌, ◌↔◌, ◌⊎◌, inl, inr, Bool, true, false, not, ◌&&◌, ◌||◌, Option, none,
  some, List, [], ◌∷◌, ◌++◌, map, append-nil, append_assoc, arith, ltb, leb, ◌==◌, if◌then◌else◌,
  ==_iff, ltb-true, ltb-false, leb-true, leb-false, ==_true, ==_false, Bool-cases, Option-cases,
  length, get_elem?, get_or, set, take, drop, replicate, All, length-append, length-replicate,
  length-set, get_or-set_self, get_or-set_ne, take-append-drop, length-take, length-drop,
  drop-append, list_ext, write_at, length-write_at, get_or-write_at, take-write_at, drop-write_at,
}
use slop_sync.Channel.Subscription.{Priority, background, normal, elevated, critical}

pub data ChannelClass : Type 0 where
  state stream intent event store : ChannelClass

pub data ShedDecision : Type 0 where
  send decimate2x decimate4x conflate_hard shed_drop : ShedDecision

abbrev is_critical : Priority → Bool
is_critical critical = true
is_critical _ = false

abbrev is_low : Priority → Bool
is_low background = true
is_low normal = true
is_low _ = false

-- The first `switch`, at level 1.
unfoldable pub shed_congested : Priority → ChannelClass → ShedDecision
shed_congested background stream = decimate4x
shed_congested background state = conflate_hard
shed_congested background _ = send
shed_congested normal stream = decimate2x
shed_congested normal _ = send
shed_congested elevated _ = send
shed_congested critical _ = send

-- The second `switch`, at level 2 and above.
unfoldable pub shed_stalled : Priority → ShedDecision
shed_stalled background = shed_drop
shed_stalled normal = decimate4x
shed_stalled elevated = decimate2x
shed_stalled critical = send

unfoldable pub shed_decision : Priority → ChannelClass → ℕ → Bool → ShedDecision
unfolding shed_congested shed_stalled
shed_decision priority cls level segment_class =
    if level == 0
    then send
    else if is_critical priority
    then send
    else if segment_class
    then (if level == 1 then send else if is_low priority then shed_drop else send)
    else if level == 1
    then shed_congested priority cls
    else shed_stalled priority
