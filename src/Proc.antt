-- ===== src/Proc.antt =====
-- The process table of Offline 3/xv6/proc.c. A process is named by its slot. Each function is what
-- happens under one hold of `ptable.lock`, from the call or the return of `sched` to the next `sched`
-- or the release, except where it says otherwise. Memory, files and contexts are left out.
pub mod Inv
pub mod Local
pub mod Fork
pub mod Exit
pub mod Reap
pub mod System
mod Tests
use cse314_operating_system.Base.{
  ℕ, zero, suc, ◌+◌, ◌-◌, ◌*◌, ◌/◌, ◌%◌, ◌^◌, ◌≤◌, ◌<◌, min, ◌≡◌, refl, sym, ap, ap₂, subst, ◌∙◌,
  fun_ext, ◌≢◌, ◌↔◌, ◌⊎◌, inl, inr, Bool, true, false, not, ◌&&◌, ◌||◌, Option, none, some, List,
  [], ◌∷◌, ◌++◌, map, append-nil, append_assoc, arith, dec_lt, ℕ_discrete, ltb, leb, ◌==◌,
  if◌then◌else◌, ltb→lt, lt→ltb, leb→le, ==_iff, Bool-cases, Option-cases, length, get_elem?,
  get_or, set, take, drop, replicate, All, length-append, length-set,
}
use cse314_operating_system.Base.{uint}

-- `enum procstate`
pub data ProcState : Type 0 where
  unused embryo sleeping runnable running zombie : ProcState

-- A channel is the address of a slot, as in `wait`, or another address.
pub data Chan : Type 0 where
  of_proc : ℕ → Chan
  of_other : ℕ → Chan

-- The fields of `struct proc` that this file reads and writes; `tickets` and `ticks` are the bits of
-- their `int`s, and a null pointer is `none`.
pub record Proc : Type 0 where
  pub state : ProcState
  pub pid : ℕ
  pub parent : Option ℕ
  pub chan : Option Chan
  pub killed : Bool
  pub tickets : ℕ
  pub inuse : Bool
  pub ticks : ℕ

abbrev pub is_runnable : Proc → Bool
is_runnable p = elim p.state [ runnable ↦ true | _ ↦ false ]

abbrev pub is_unused : Proc → Bool
is_unused p = elim p.state [ unused ↦ true | _ ↦ false ]

abbrev pub is_sleeping : Proc → Bool
is_sleeping p = elim p.state [ sleeping ↦ true | _ ↦ false ]

abbrev pub is_running : Proc → Bool
is_running p = elim p.state [ running ↦ true | _ ↦ false ]

abbrev pub is_zombie : Proc → Bool
is_zombie p = elim p.state [ zombie ↦ true | _ ↦ false ]

abbrev pub empty_proc : Proc
empty_proc = record {
  state = unused;
  pid = 0;
  parent = none;
  chan = none;
  killed = false;
  tickets = 0;
  inuse = false;
  ticks = 0;
}

abbrev pub at : List Proc → ℕ → Proc
at ps i = get_or ps i empty_proc

-- `ptable` and `nextpid`
pub record Table : Type 0 where
  pub procs : List Proc
  pub next_pid : ℕ

abbrev pub same_chan : Chan → Chan → Bool
same_chan (of_proc i) (of_proc j) = i == j
same_chan (of_other i) (of_other j) = i == j
same_chan _ _ = false

abbrev pub is_at_chan : Chan → Option Chan → Bool
is_at_chan c none = false
is_at_chan c (some d) = same_chan d c

abbrev pub sleeps_on : Chan → Proc → Bool
sleeps_on c p = is_sleeping p && is_at_chan c p.chan

abbrev pub wake : Chan → Proc → Proc
wake c p = if sleeps_on c p then record p { state = runnable } else p

pub wakeup1 : Chan → List Proc → List Proc
wakeup1 c ps = map (wake c) ps

-- `setticketsutil`
pub set_tickets_util : Proc → (tickets : ℕ) → Proc
set_tickets_util p tickets = record p { tickets = tickets }

-- `kill`; `none` is -1.
pub kill : (pid : ℕ) → List Proc → Option (List Proc)
kill pid [] = none
kill pid (p ∷ ps) =
    let rest = kill pid ps in
    if p.pid == pid
    then some (record p { killed = true; state = if is_sleeping p then runnable else p.state } ∷ ps)
    else elim rest [ none ↦ none | some qs ↦ some (p ∷ qs) ]

-- The slot that `allocproc` takes, from slot `i` on.
pub find_unused : List Proc → (i : ℕ) → Option ℕ
find_unused [] i = none
find_unused (p ∷ ps) i = if is_unused p then some i else find_unused ps (i + 1)

-- `allocproc`; `has_stack` says whether `kalloc` finds a page for the stack.
pub alloc_proc : (has_stack : Bool) → Table → Table × Option ℕ
alloc_proc has_stack t = elim (find_unused t.procs 0) [
  | none ↦ (t, none)
  | some i ↦
      let p = record (at t.procs i) { state = embryo; pid = t.next_pid } in
      let next = uint (t.next_pid + 1) in
      if has_stack
      then (record { procs = set t.procs i p; next_pid = next }, some i)
      else (record { procs = set t.procs i (record p { state = unused }); next_pid = next }, none)
]

-- The rest of `fork`, with the slot and whether memory can be copied. The slot is an embryo until the
-- end, which no other process touches.
pub fork_into : (me : ℕ) → (copied : Bool) → Table × Option ℕ → Table × Option ℕ
fork_into me copied (t, none) = (t, none)
fork_into me copied (t, some i) =
    let child = record (at t.procs i) { parent = some me } in
    if copied
    then (
      record t {
        procs =
            set t.procs i
              (record (set_tickets_util child (at t.procs me).tickets) { state = runnable });
      },
      some (at t.procs i).pid,
    )
    else (record t { procs = set t.procs i (record (at t.procs i) { state = unused }) }, none)

-- `fork`; `none` is -1.
pub fork : (me : ℕ) → (has_stack copied : Bool) → Table → Table × Option ℕ
fork me has_stack copied t = fork_into me copied (alloc_proc has_stack t)

abbrev pub child_of : ℕ → Proc → Bool
child_of me p = elim p.parent [ none ↦ false | some q ↦ q == me ]

abbrev pub wakeup_parent : Option ℕ → List Proc → List Proc
wakeup_parent none ps = ps
wakeup_parent (some q) ps = wakeup1 (of_proc q) ps

-- One round of the loop of `exit`: a child is passed to init.
pub pass_to_init : (me init i : ℕ) → List Proc → List Proc
pass_to_init me init i ps =
    let passed = set ps i (record (at ps i) { parent = some init }) in
    if child_of me (at ps i)
    then if is_zombie (at ps i) then wakeup1 (of_proc init) passed else passed
    else ps

-- The loop, with `n` slots left from `i` on.
pub pass_children : (me init n i : ℕ) → List Proc → List Proc
pass_children me init zero i ps = ps
pass_children me init (suc n) i ps = pass_children me init n (i + 1) (pass_to_init me init i ps)

-- What `exit` does before it takes the lock for good
pub drop_tickets : (me : ℕ) → List Proc → List Proc
drop_tickets me ps = set ps me (set_tickets_util (at ps me) 0)

pub become_zombie : (me : ℕ) → List Proc → List Proc
become_zombie me ps = set ps me (record (at ps me) { state = zombie })

-- `exit` from there to its `sched`; `none` is its panic.
pub exit : (me init : ℕ) → List Proc → Option (List Proc)
exit me init ps =
    if me == init
    then none
    else some (
        become_zombie me (pass_children me init (length ps) 0 (wakeup_parent (at ps me).parent ps)))

-- The scan of `wait`: whether there is a child, and the first that is a zombie.
pub scan_children : (me : ℕ) → List Proc → (i : ℕ) → Bool × Option ℕ
scan_children me [] i = (false, none)
scan_children me (p ∷ ps) i =
    let (kids, found) = scan_children me ps (i + 1) in
    if child_of me p then if is_zombie p then (true, some i) else (true, found) else (kids, found)

pub data WaitResult : Type 0 where
  reaped : (pid : ℕ) → WaitResult
  no_children : WaitResult
  asleep : WaitResult

pub reap : (i : ℕ) → List Proc → List Proc
reap i ps = set ps i (record (at ps i) { pid = 0; parent = none; killed = false; state = unused })

-- `sleep` up to its `sched`
pub fall_asleep : (me : ℕ) → Chan → List Proc → List Proc
fall_asleep me c ps = set ps me (record (at ps me) { chan = some c; state = sleeping })

pub wait_with : (me : ℕ) → Bool × Option ℕ → List Proc → List Proc × WaitResult
wait_with me (kids, some i) ps = (reap i ps, reaped (at ps i).pid)
wait_with me (kids, none) ps =
    if not kids || (at ps me).killed
    then (ps, no_children)
    else (fall_asleep me (of_proc me) ps, asleep)

-- One round of `wait`
pub wait : (me : ℕ) → List Proc → List Proc × WaitResult
wait me ps = wait_with me (scan_children me ps 0) ps

-- What `wait` does to the slot after it has released the lock
pub forget : (i : ℕ) → List Proc → List Proc
forget i ps = set ps i (record (set_tickets_util (at ps i) 0) { ticks = 0 })

-- `yield` up to its `sched`
pub yield_cpu : (me : ℕ) → List Proc → List Proc
yield_cpu me ps = set ps me (record (at ps me) { state = runnable })

-- The end of `sleep`, when the process runs again
pub wake_end : (me : ℕ) → List Proc → List Proc
wake_end me ps = set ps me (record (at ps me) { chan = none })

-- What `scheduler` does to the winner before and after its time slice
pub dispatch : Proc → Proc
dispatch p = record p { state = running; inuse = true }

pub slice_over : (start_tick end_tick : ℕ) → Proc → Proc
slice_over start_tick end_tick p = record p {
  inuse = false;
  ticks = uint (p.ticks + (end_tick + 2 ^ 32 - start_tick));
}
