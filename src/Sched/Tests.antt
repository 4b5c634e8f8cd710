-- ===== src/Sched/Tests.antt =====
-- The lottery on small tables, and its theorems there.
use cse314_operating_system.Base.{ℕ, ◌-◌, ◌^◌, ◌≡◌, refl, true, List, [], ◌∷◌, arith}
use cse314_operating_system.Proc.{empty_proc, Proc, ProcState, runnable, sleeping}
use cse314_operating_system.Sched.{
  total_tickets, pick, rand, rand_up_to, winner_at, trap, drawn, draw,
}
use cse314_operating_system.Sched.Pick.{runnable_at, is_slot}
use cse314_operating_system.Sched.Fair.{count_below, pick-count, draw-winner_at}

abbrev proc : ProcState → (tickets : ℕ) → Proc
proc s n = record empty_proc { state = s; pid = 1; tickets = n }

-- A process without tickets, as one that is preempted inside `exit`, behind another.
abbrev table : List Proc
table = proc sleeping 5 ∷ proc runnable 3 ∷ proc runnable 0 ∷ proc runnable 2 ∷ []

draw_second : draw 4 table ≡ winner_at 3
unfolding draw rand_up_to rand total_tickets pick drawn
draw_second = refl

-- The word whose `int` has no opposite makes a negative ticket, which the first runnable process wins.
draw_negative : draw (2 ^ 31) table ≡ winner_at 1
unfolding draw rand_up_to rand total_tickets pick drawn
draw_negative = refl

-- Tickets that add up to -1 make the limit 0.
draw_trap : draw 4 (proc runnable (2 ^ 32 - 1) ∷ []) ≡ trap
unfolding draw rand_up_to rand total_tickets
draw_trap = refl

pick-count_example : count_below 6 (λ r. is_slot 2 (pick table r 0 0)) ≡ 0
pick-count_example = pick-count table 2 (omega arith)

draw-winner_at_example : (w : ℕ) × (draw 4 table ≡ winner_at w) × (runnable_at table w ≡ true)
draw-winner_at_example = draw-winner_at 4 table 3 (omega arith) refl
