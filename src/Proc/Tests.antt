-- ===== src/Proc/Tests.antt =====
-- The process table on small examples.
use cse314_operating_system.Base.{◌≡◌, refl, true, some, [], ◌∷◌}
use cse314_operating_system.Proc.{
  Proc, running, Table, empty_proc, at, find_unused, kill, alloc_proc, fork_into, fork,
  set_tickets_util,
}

abbrev init_running : Proc
init_running = record empty_proc { state = running; pid = 1 }

abbrev small : Table
small = record { procs = init_running ∷ empty_proc ∷ empty_proc ∷ []; next_pid = 2 }

-- `kill(0)` finds a slot that is not in use, and the next child is born killed.
killed_first :
    kill 0 small.procs ≡ some (init_running ∷ record empty_proc { killed = true } ∷ empty_proc ∷ [])
unfolding kill
killed_first = refl

born_killed :
    (at
      (fork 0 true true (record small {
        procs = init_running ∷ record empty_proc { killed = true } ∷ empty_proc ∷ [];
      })).0.procs
      1).killed
    ≡ true
unfolding fork alloc_proc find_unused fork_into set_tickets_util
born_killed = refl

child_pid : (fork 0 true true small).1 ≡ some 2
unfolding fork alloc_proc find_unused fork_into
child_pid = refl
