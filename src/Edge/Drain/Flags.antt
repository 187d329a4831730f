-- ===== src/Edge/Drain/Flags.antt =====
-- What the flags say of the tasks, in every execution.
use rust_uma.Prelude.{
  ℕ, ◌+◌, ◌<◌, ◌≡◌, ◌≢◌, refl, sym, ap, ◌∙◌, subst, true, none, some, List, [], ◌∷◌, arith,
  if◌then◌else◌, All, ◌⊎◌, inl, inr, Option-cases,
}
use mathlib.Core.Option.{some-injective}
use rust_uma.Edge.Drain.{
  Service, new, Move, start, mark, swap, cancel, clear, turn, notice, give_up, finish, close, step,
  run,
}

-- How many tasks are between the swap that started them and their store to `drain_active`.
abbrev pub running : Service → ℕ
running s = s.looping + s.cancelled + s.finishing

abbrev pub IsExclusive : Service → Type 0
IsExclusive s = running s ≡ (if s.drain_active then 1 else 0)

step-IsExclusive :
    (s : Service) (m : Move) (s' : Service) → step s m ≡ some s' → IsExclusive s → IsExclusive s'
unfolding step
step-IsExclusive s (start e) s' h i = ground arith
step-IsExclusive s mark s' h i = ground arith
step-IsExclusive s swap s' h i = ground arith
step-IsExclusive s cancel s' h i = ground arith
step-IsExclusive s clear s' h i = ground arith
step-IsExclusive s (turn over) s' h i = ground arith
step-IsExclusive s notice s' h i = ground arith
step-IsExclusive s give_up s' h i = ground arith
step-IsExclusive s finish s' h i = ground arith
step-IsExclusive s close s' h i = ground arith

abbrev Any : Move → Type 0
Any m = Unit

All-Any : (moves : List Move) → All Any moves
All-Any [] = tt
All-Any (m ∷ moves) = (tt, All-Any moves)

run-none : (moves : List Move) → run none moves ≡ none
unfolding run
run-none moves = refl

none-some {ℓ} : {A : Type ℓ} {a : A} → none ≢ some a
none-some e = ground arith

-- A property of a first state that every step keeps holds after any execution.
run-keeps :
    (P : Service → Type 0) (Allowed : Move → Type 0)
    → ((s : Service) (m : Move) (s' : Service) → Allowed m → step s m ≡ some s' → P s → P s')
    → (s : Service) (moves : List Move) (s' : Service) → All Allowed moves
    → run (some s) moves ≡ some s'
    → P s
    → P s'
unfolding run
run-keeps P Allowed keeps s [] s' allowed h p = subst P (some-injective s s' h) p
run-keeps P Allowed keeps s (m ∷ moves) s' allowed h p = elim (Option-cases (step s m)) [
  | inl stuck ↦ absurd (none-some (sym (run-none moves) ∙ (sym (ap (λ o. run o moves) stuck) ∙ h)))
  | inr (next, steps) ↦
      run-keeps P Allowed keeps next moves s' allowed.1 (sym (ap (λ o. run o moves) steps) ∙ h)
        (keeps s m next allowed.0 steps p)
]

-- However the calls of `start_drain` and `cancel_drain` and the steps of the tasks interleave, there
-- is one task that has been started and has not yet stored to `drain_active` if that flag is set,
-- and none if it is not: two drain loops never run at once.
pub one_drain_loop :
    (moves : List Move) (s : Service)
    → run (some new) moves ≡ some s
    → running s ≡ (if s.drain_active then 1 else 0)
unfolding new
one_drain_loop moves s h =
    run-keeps IsExclusive Any (λ a m b u. step-IsExclusive a m b) new moves s (All-Any moves) h refl

-- Somebody is still to read the flag `drain_exits`.
abbrev pub Pending : Service → Type 0
Pending s = 0 < s.marking + s.swapping + s.looping + s.finishing + s.closing

-- As long as nothing takes `draining` back.
abbrev pub Kept : Service → Type 0
Kept s =
    (s.cancelled ≡ 0)
    × (0 < s.swapping + s.looping → s.draining ≡ true)
    × (s.drain_exits ≡ true → (s.exited ≡ true) ⊎ Pending s)

step-Kept :
    (s : Service) (m : Move) (s' : Service)
    → m ≢ clear
    → step s m ≡ some s'
    → IsExclusive s × Kept s
    → IsExclusive s' × Kept s'
unfolding step
step-Kept s (start e) s' n h i = (step-IsExclusive s (start e) s' h i.0, ground arith)
step-Kept s mark s' n h i = (step-IsExclusive s mark s' h i.0, ground arith)
step-Kept s swap s' n h i = (step-IsExclusive s swap s' h i.0, ground arith)
step-Kept s cancel s' n h i = (step-IsExclusive s cancel s' h i.0, ground arith)
step-Kept s clear s' n h i = absurd (n refl)
step-Kept s (turn over) s' n h i = (step-IsExclusive s (turn over) s' h i.0, ground arith)
step-Kept s notice s' n h i = (step-IsExclusive s notice s' h i.0, ground arith)
step-Kept s give_up s' n h i = (step-IsExclusive s give_up s' h i.0, ground arith)
step-Kept s finish s' n h i = (step-IsExclusive s finish s' h i.0, ground arith)
step-Kept s close s' n h i = (step-IsExclusive s close s' h i.0, ground arith)

-- In an execution in which no `cancel_drain` takes `draining` back, a requested exit is not lost:
-- once `drain_exits` is set, the process has exited, or a call of `start_drain` or a task that is
-- still to read the flag is under way.
pub exit_is_kept :
    (moves : List Move) (s : Service)
    → All (λ m. m ≢ clear) moves
    → run (some new) moves ≡ some s
    → s.drain_exits ≡ true
    → (s.exited ≡ true) ⊎ Pending s
unfolding new
exit_is_kept moves s allowed h exits =
    (run-keeps (λ s. IsExclusive s × Kept s) (λ m. m ≢ clear) step-Kept new moves s allowed h
        (refl, ground arith)).1.2
      exits
