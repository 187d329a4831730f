-- ===== src/Edge/DrainExamples.antt =====
-- Tests of the draining of an edge node, and its theorems at concrete executions.
use rust_uma.Prelude.{◌≡◌, ◌⊎◌, refl, true, false, some, List, [], ◌∷◌, arith, if◌then◌else◌}
use rust_uma.Edge.Drain.{
  Service, new, Move, start, mark, swap, cancel, clear, turn, notice, give_up, finish, step, run,
}
use rust_uma.Edge.Drain.Flags.{running, Pending, one_drain_loop, exit_is_kept}

-- A drain asked for by the console, and then an exit while the loop runs.
abbrev drain_then_exit : List Move
drain_then_exit =
    start false ∷ mark ∷ swap ∷ turn false ∷ start true ∷ mark ∷ swap ∷ turn true ∷ finish ∷ []

abbrev after_exit : Service
after_exit = record {
  draining = true;
  drain_exits = true;
  drain_active = false;
  exited = false;
  marking = 0;
  swapping = 0;
  clearing = 0;
  looping = 0;
  cancelled = 0;
  finishing = 0;
  closing = 1;
}

drain_then_exit_runs : run (some new) drain_then_exit ≡ some after_exit
unfolding run step new
drain_then_exit_runs = refl

-- The loop has read that its drain is cancelled, and a drain with an exit is asked for before the
-- loop clears `drain_active`: no loop is left, and the flags say that the node drains.
a_drain_during_a_cancel_is_lost :
    run (some new) (
      start false ∷ mark ∷ swap ∷ cancel ∷ clear ∷ notice ∷ start true ∷ mark ∷ swap ∷ give_up ∷ [])
    ≡ some (record after_exit { closing = 0 })
unfolding run step new
a_drain_during_a_cancel_is_lost = refl

one_drain_loop_example : running after_exit ≡ (if after_exit.drain_active then 1 else 0)
one_drain_loop_example = one_drain_loop drain_then_exit after_exit drain_then_exit_runs

exit_is_kept_example : (after_exit.exited ≡ true) ⊎ Pending after_exit
exit_is_kept_example =
    exit_is_kept drain_then_exit after_exit (ground arith) drain_then_exit_runs refl
