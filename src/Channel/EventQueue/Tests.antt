-- ===== src/Channel/EventQueue/Tests.antt =====
-- A queue of two events, in use.
use slop_sync.Base.{◌≡◌, refl, true, false, none, some, List, [], ◌∷◌, arith}
use slop_sync.Channel.EventQueue.{
  empty, make_room, write_slot, push, pop, size, is_empty, is_full, dropped,
}
use slop_sync.Channel.EventQueue.Spec.{Call, pushes, pops, asks, pushed, popped, told, run_log}
use slop_sync.Channel.EventQueue.Refine.{run, run_refines}

abbrev script : List Call
script =
    pushes 1 (10 ∷ [])
    ∷ pushes 2 (20 ∷ [])
    ∷ asks
    ∷ pushes 3 (30 ∷ [])
    ∷ asks
    ∷ pops
    ∷ pops
    ∷ pops
    ∷ []

-- The oldest of three events is lost.
script_runs :
    run 2 4 (empty 2) script
    ≡ pushed true
      ∷ pushed true
      ∷ told 2 false true 0
      ∷ pushed true
      ∷ told 2 false true 1
      ∷ popped (some (record { bytes = 20 ∷ []; channel_id = 2 }))
      ∷ popped (some (record { bytes = 30 ∷ []; channel_id = 3 }))
      ∷ popped none
      ∷ []
unfolding run empty push make_room write_slot pop size is_empty is_full dropped
script_runs = refl

too_long : (push 2 4 (empty 2) 1 (1 ∷ 2 ∷ 3 ∷ 4 ∷ 5 ∷ [])).0 ≡ false
unfolding push
too_long = refl

run_refines_example :
    run 2 4 (empty 2) script ≡ run_log 2 4 (record { events = []; lost = 0 }) script
run_refines_example = run_refines 2 4 script (omega arith) (omega arith)
