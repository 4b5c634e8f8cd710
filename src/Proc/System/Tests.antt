-- ===== src/Proc/System/Tests.antt =====
-- init, which has forked and sleeps in `wait`.
use cse314_operating_system.Base.{◌≡◌, refl, true, false, set}
use cse314_operating_system.Proc.{
  Table, at, find_unused, alloc_proc, fork_into, fork, set_tickets_util, wait, wait_with,
  scan_children, fall_asleep, dispatch,
}
use cse314_operating_system.Proc.Inv.{dead_child}
use cse314_operating_system.Proc.System.{
  forks, waits, dispatches, Reach, starts, later, booted, with_procs, no_exit_missed,
}

abbrev init_runs : Table
init_runs = with_procs booted (set booted.procs 0 (dispatch (at booted.procs 0)))

abbrev forked : Table
forked = (fork 0 true true init_runs).0

abbrev waiting : Table
waiting = with_procs forked (wait 0 forked.procs).0

init_runs_reached : Reach init_runs
init_runs_reached = later starts (dispatches 0 refl)

forked_reached : Reach forked
unfolding dispatch
forked_reached = later init_runs_reached (forks 0 true true refl)

waiting_reached : Reach waiting
unfolding dispatch fork alloc_proc find_unused fork_into
waiting_reached = later forked_reached (waits 0 refl)

no_exit_missed_example : dead_child 0 (at waiting.procs 1) ≡ false
unfolding dispatch fork alloc_proc find_unused fork_into set_tickets_util wait wait_with
    scan_children fall_asleep
no_exit_missed_example = no_exit_missed 0 1 waiting_reached refl
