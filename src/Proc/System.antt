-- ===== src/Proc/System.antt =====
-- The processes of Offline 3/xv6 in any order, on any number of processors.
mod Tests
use cse314_operating_system.Base.{
  ℕ, zero, suc, ◌+◌, ◌-◌, ◌*◌, ◌/◌, ◌%◌, ◌^◌, ◌≤◌, ◌<◌, min, ◌≡◌, refl, sym, ap, ap₂, subst, ◌∙◌,
  fun_ext, ◌≢◌, ◌↔◌, ◌⊎◌, inl, inr, Bool, true, false, not, ◌&&◌, ◌||◌, Option, none, some, List,
  [], ◌∷◌, ◌++◌, map, append-nil, append_assoc, arith, dec_lt, ℕ_discrete, ltb, leb, ◌==◌,
  if◌then◌else◌, ltb→lt, lt→ltb, leb→le, ==_iff, Bool-cases, Option-cases, length, get_elem?,
  get_or, set, take, drop, replicate, All, length-append, length-set,
}
use cse314_operating_system.Proc.{
  runnable, ProcState, unused, Chan, of_proc, of_other, Proc, is_runnable, is_unused, is_sleeping,
  is_running, is_zombie, empty_proc, at, Table, sleeps_on, child_of, wakeup1, kill, fork, exit,
  drop_tickets, wait, forget, fall_asleep, yield_cpu, wake_end, dispatch, slice_over,
}
use cse314_operating_system.Proc.Inv.{different, Inv, dead_child, wakeup1-Inv}
use cse314_operating_system.Proc.Local.{
  drop_tickets-Inv, forget-Inv, yield_cpu-Inv, dispatch-Inv, slice_over-Inv, wake_end-Inv,
  fall_asleep_other-Inv, kill-Inv,
}
use cse314_operating_system.Proc.Fork.{fork-Inv}
use cse314_operating_system.Proc.Exit.{exit-Inv}
use cse314_operating_system.Proc.Reap.{wait-Inv}

abbrev pub with_procs : Table → List Proc → Table
with_procs t ps = record t { procs = ps }

-- A step of the process in slot `me`, which runs, or of the scheduler or of an interrupt. A device or a
-- process wakes channels that are not slots; a slot is woken by `exit` only.
pub data Step (init : ℕ) : Table → Table → Type 0 where
  forks :
      {t : Table} (me : ℕ) (has_stack copied : Bool)
      → is_running (at t.procs me) ≡ true
      → Step init t (fork me has_stack copied t).0
  drops :
      {t : Table} (me : ℕ)
      → is_running (at t.procs me) ≡ true
      → Step init t (with_procs t (drop_tickets me t.procs))
  exits :
      {t : Table} {ps : List Proc} (me : ℕ)
      → is_running (at t.procs me) ≡ true
      → exit me init t.procs ≡ some ps
      → Step init t (with_procs t ps)
  waits :
      {t : Table} (me : ℕ)
      → is_running (at t.procs me) ≡ true
      → Step init t (with_procs t (wait me t.procs).0)
  forgets : {t : Table} (i : ℕ) → Step init t (with_procs t (forget i t.procs))
  kills :
      {t : Table} {ps : List Proc} (pid : ℕ)
      → kill pid t.procs ≡ some ps
      → Step init t (with_procs t ps)
  sleeps :
      {t : Table} (me c : ℕ)
      → is_running (at t.procs me) ≡ true
      → Step init t (with_procs t (fall_asleep me (of_other c) t.procs))
  wakes : {t : Table} (c : ℕ) → Step init t (with_procs t (wakeup1 (of_other c) t.procs))
  yields :
      {t : Table} (me : ℕ)
      → is_running (at t.procs me) ≡ true
      → Step init t (with_procs t (yield_cpu me t.procs))
  dispatches :
      {t : Table} (i : ℕ)
      → is_runnable (at t.procs i) ≡ true
      → Step init t (with_procs t (set t.procs i (dispatch (at t.procs i))))
  slice_ends :
      {t : Table} (i start_tick end_tick : ℕ)
      → Step init t (with_procs t (set t.procs i (slice_over start_tick end_tick (at t.procs i))))
  wake_ends :
      {t : Table} (me : ℕ)
      → is_running (at t.procs me) ≡ true
      → Step init t (with_procs t (wake_end me t.procs))

running_used : (p : Proc) → is_running p ≡ true → is_unused p ≡ false
running_used p e = ground (arith, e)

-- Every step keeps the processes a tree below init, init in use, and no process asleep in `wait` with a
-- zombie child.
pub Step-Inv : {init : ℕ} {t u : Table} → Step init t u → Inv init t.procs → Inv init u.procs
Step-Inv {init} {t} {u} (forks me st co r) v =
    fork-Inv init me st co t (running_used (at t.procs me) r) v
Step-Inv {init} {t} {u} (drops me r) v = drop_tickets-Inv init me t.procs v
Step-Inv {init} {t} {u} (exits {ps = ps} me r e) v = exit-Inv init me t.procs ps e v
Step-Inv {init} {t} {u} (waits me r) v = wait-Inv init me t.procs v
Step-Inv {init} {t} {u} (forgets i) v = forget-Inv init i t.procs v
Step-Inv {init} {t} {u} (kills {ps = ps} pid e) v = kill-Inv init pid t.procs ps e v
Step-Inv {init} {t} {u} (sleeps me c r) v = fall_asleep_other-Inv init me c t.procs v
Step-Inv {init} {t} {u} (wakes c) v = wakeup1-Inv init (of_other c) t.procs v
Step-Inv {init} {t} {u} (yields me r) v = yield_cpu-Inv init me t.procs v
Step-Inv {init} {t} {u} (dispatches i r) v = dispatch-Inv init i t.procs v
Step-Inv {init} {t} {u} (slice_ends i a b) v = slice_over-Inv init i a b t.procs v
Step-Inv {init} {t} {u} (wake_ends me r) v = wake_end-Inv init me t.procs v

-- The table after `userinit`, with init in the first of NPROC slots
abbrev pub booted : Table
booted = record {
  procs = record empty_proc { state = runnable; pid = 1 } ∷ replicate 63 empty_proc;
  next_pid = 2;
}

pub data Reach : Table → Type 0 where
  starts : Reach booted
  later : {t u : Table} → Reach t → Step 0 t u → Reach u

at-replicate : (n k : ℕ) → at (replicate n empty_proc) k ≡ empty_proc
at-replicate zero k = refl
at-replicate (suc n) zero = refl
at-replicate (suc n) (suc k) = at-replicate n k

awake : (s : ℕ) → sleeps_on (of_proc s) (at booted.procs s) ≡ false
awake zero = refl
awake (suc s) = ap (sleeps_on (of_proc (suc s))) (at-replicate 63 s)

orphan : (s c : ℕ) → child_of s (at booted.procs c) ≡ false
orphan s zero = refl
orphan s (suc c) = ap (child_of s) (at-replicate 63 c)

booted-Inv : Inv 0 booted.procs
booted-Inv = record {
  waits = λ s c e. absurd (different _ e (awake s));
  not_own = λ c. orphan c c;
  root = λ s. orphan s 0;
  alive = refl;
}

Reach-Inv : {t : Table} → Reach t → Inv 0 t.procs
Reach-Inv starts = booted-Inv
Reach-Inv (later r s) = Step-Inv s (Reach-Inv r)

-- No exit is missed: whatever the processes have done since the start of the kernel, one that sleeps in
-- `wait` has no child that has exited, not even one that was passed to it as to init.
pub no_exit_missed :
    (s c : ℕ) {t : Table}
    → Reach t
    → sleeps_on (of_proc s) (at t.procs s) ≡ true
    → dead_child s (at t.procs c) ≡ false
no_exit_missed s c r = (Reach-Inv r).waits s c
