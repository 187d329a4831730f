-- ===== src/Edge/Drain.antt =====
-- The draining of an edge node: `start_drain` and `cancel_drain` of src/edge/server.rs, with the task
-- that `start_drain` spawns. Each load, store and swap of a flag is a step of its own; the threads
-- and tasks that stand at the same place of the code are counted, since they are alike.
use rust_uma.Prelude.{
  ℕ, ◌+◌, ◌-◌, Bool, true, false, not, ◌&&◌, ◌||◌, Option, none, some, List, [], ◌∷◌, ltb,
  if◌then◌else◌,
}
pub mod Flags

-- The flags, whether the process has exited, and how many stand at each place:
--   marking    in `start_drain`, before the store to `draining`
--   swapping   in `start_drain`, before the swap of `drain_active`
--   clearing   in `cancel_drain`, after it has read `drain_exits` as false
--   looping    at the top of the task's loop
--   cancelled  in the task, after it has read `draining` as false
--   finishing  in the task, after the loop, before the store to `drain_active`
--   closing    in the task, before it reads `drain_exits`
pub record Service : Type 0 where
  pub draining : Bool
  pub drain_exits : Bool
  pub drain_active : Bool
  pub exited : Bool
  pub marking : ℕ
  pub swapping : ℕ
  pub clearing : ℕ
  pub looping : ℕ
  pub cancelled : ℕ
  pub finishing : ℕ
  pub closing : ℕ

unfoldable pub new : Service
new = record {
  draining = false;
  drain_exits = false;
  drain_active = false;
  exited = false;
  marking = 0;
  swapping = 0;
  clearing = 0;
  looping = 0;
  cancelled = 0;
  finishing = 0;
  closing = 0;
}

-- `start exit_after` begins a call of `start_drain`, and `cancel` one of `cancel_drain`. `turn over` is
-- a turn of the loop that reads `draining` as true, and `over` is whether it then breaks, because no
-- client is left or the time is up.
pub data Move : Type 0 where
  start : Bool → Move
  mark : Move
  swap : Move
  cancel : Move
  clear : Move
  turn : Bool → Move
  notice : Move
  give_up : Move
  finish : Move
  close : Move

-- A move that nobody is in the place for is none.
abbrev when : Bool → Service → Option Service
when true s = some s
when false s = none

unfoldable pub step : Service → Move → Option Service
step s (start exit_after) =
    some (record s { drain_exits = s.drain_exits || exit_after; marking = s.marking + 1 })
step s mark =
    when (ltb 0 s.marking)
      (record s { draining = true; marking = s.marking - 1; swapping = s.swapping + 1 })
step s swap = when (ltb 0 s.swapping) (record s {
  drain_active = true;
  swapping = s.swapping - 1;
  looping = if s.drain_active then s.looping else s.looping + 1;
})
step s cancel = some (if s.drain_exits then s else record s { clearing = s.clearing + 1 })
step s clear = when (ltb 0 s.clearing) (record s { draining = false; clearing = s.clearing - 1 })
step s (turn over) =
    when (ltb 0 s.looping && s.draining)
      (if over then record s { looping = s.looping - 1; finishing = s.finishing + 1 } else s)
step s notice =
    when (ltb 0 s.looping && not s.draining)
      (record s { looping = s.looping - 1; cancelled = s.cancelled + 1 })
step s give_up =
    when (ltb 0 s.cancelled) (record s { drain_active = false; cancelled = s.cancelled - 1 })
step s finish =
    when (ltb 0 s.finishing)
      (record s { drain_active = false; finishing = s.finishing - 1; closing = s.closing + 1 })
step s close =
    when (ltb 0 s.closing)
      (record s { exited = s.exited || s.drain_exits; closing = s.closing - 1 })

-- The steps of an execution; `none` if one of them is not possible.
unfoldable pub run : Option Service → List Move → Option Service
run none moves = none
run (some s) [] = some s
run (some s) (m ∷ moves) = run (step s m) moves
