-- ===== src/Proc/Fork.antt =====
-- What `fork` does to the process table.
use cse314_operating_system.Base.{
  ℕ, suc, ◌+◌, ◌<◌, ◌≡◌, refl, sym, ap, subst, ◌∙◌, ◌≢◌, ◌⊎◌, inl, inr, Bool, true, false, none,
  some, List, [], ◌∷◌, arith, ◌==◌, Bool-cases, length, set,
}
use cse314_operating_system.Base.{uint}
use cse314_operating_system.Proc.{
  ProcState, unused, embryo, runnable, Proc, is_unused, is_sleeping, is_zombie, at, Table,
  set_tickets_util, find_unused, alloc_proc, fork_into, fork,
}
use cse314_operating_system.Proc.Inv.{Inv, Calm, set_other-Inv, different, reparent-Inv}

find_unused_lem :
    (ps : List Proc) (i : ℕ)
    → (find_unused ps i ≡ none)
      ⊎ ((k : ℕ) × (find_unused ps i ≡ some (i + k))
          × (is_unused (at ps k) ≡ true)
          × (k < length ps))
unfolding find_unused
find_unused_lem [] i = inl refl
find_unused_lem (p ∷ ps) i = elim (Bool-cases (is_unused p)) [
  | inl free ↦ inr (0, rw (free, find_unused) (ap some (omega arith)), free, omega arith)
  | inr used ↦ elim (find_unused_lem ps (i + 1)) [
    | inl q ↦ inl (rw (used, find_unused) q)
    | inr (k, q, free, lt) ↦
        inr (suc k, rw (used, find_unused) (q ∙ ap some (omega arith)), free, omega arith)
  ]
]

-- A new state that is neither SLEEPING nor ZOMBIE, and the parent as before
Calm-awake :
    (p q : Proc) → (is_zombie q ≡ false) × (is_sleeping q ≡ false) → q.parent ≡ p.parent → Calm p q
Calm-awake p q h e = record {
  dead = λ s d. absurd (ground (arith, h, d));
  asleep = λ s d. absurd (ground (arith, h, d));
  parent = λ s d. subst (λ o. elim o [ none ↦ false | some x ↦ x == s ] ≡ true) e d;
}

unused-differs :
    (ps : List Proc) (i k : ℕ) → is_unused (at ps i) ≡ true → is_unused (at ps k) ≡ false → k ≢ i
unused-differs ps i k u e same =
    different (is_unused (at ps i)) u (ap (λ j. is_unused (at ps j)) (sym same) ∙ e)

-- The new slot of a `fork` that goes well
abbrev child : (me : ℕ) → Table → (i : ℕ) → Proc
child me t i = record (at t.procs i) {
  state = runnable;
  parent = some me;
  tickets = (at t.procs me).tickets;
}

fork_into-Inv :
    (init me i : ℕ) (copied : Bool) (t : Table)
    → init ≢ i
    → i ≢ me
    → Inv init t.procs
    → Inv init (fork_into me copied (t, some i)).0.procs
unfolding fork_into set_tickets_util
fork_into-Inv init me i false t ni nm v =
    set_other-Inv init i _ t.procs (Calm-awake (at t.procs i) _ (refl, refl) refl) ni v
fork_into-Inv init me i true t ni nm v =
    reparent-Inv init me i (child me t i) t.procs (λ s e. ground (arith, e)) nm ni
      (λ s e. absurd (ground (arith, e))) (λ e. absurd (ground (arith, e))) v.alive v

-- The slot that `allocproc` takes
abbrev taken : Table → (i : ℕ) → ProcState → Proc
taken t i s = record (at t.procs i) { state = s; pid = t.next_pid }

alloc_proc-full :
    (has_stack : Bool) (t : Table)
    → find_unused t.procs 0 ≡ none
    → alloc_proc has_stack t ≡ (t, none)
unfolding alloc_proc
alloc_proc-full has_stack t q = rw (q, alloc_proc) refl

alloc_proc-taken :
    (t : Table) (i : ℕ)
    → find_unused t.procs 0 ≡ some i
    → alloc_proc true t ≡ (
      record { procs = set t.procs i (taken t i embryo); next_pid = uint (t.next_pid + 1) },
      some i,
    )
unfolding alloc_proc
alloc_proc-taken t i q = rw (q, alloc_proc) refl

alloc_proc-no_stack :
    (t : Table) (i : ℕ)
    → find_unused t.procs 0 ≡ some i
    → alloc_proc false t ≡ (
      record { procs = set t.procs i (taken t i unused); next_pid = uint (t.next_pid + 1) },
      none,
    )
unfolding alloc_proc
alloc_proc-no_stack t i q = rw (q, alloc_proc) refl

fork-slot :
    (init me i : ℕ) (has_stack copied : Bool) (t : Table)
    → find_unused t.procs 0 ≡ some i
    → init ≢ i
    → i ≢ me
    → Inv init t.procs
    → Inv init (fork me has_stack copied t).0.procs
unfolding fork fork_into
fork-slot init me i false copied t q ni nm v =
    subst (λ r. Inv init (fork_into me copied r).0.procs) (sym (alloc_proc-no_stack t i q))
      (set_other-Inv init i (taken t i unused) t.procs
        (Calm-awake (at t.procs i) (taken t i unused) (refl, refl) refl) ni v)
fork-slot init me i true copied t q ni nm v =
    subst (λ r. Inv init (fork_into me copied r).0.procs) (sym (alloc_proc-taken t i q))
      (fork_into-Inv init me i copied _ ni nm (
        set_other-Inv init i (taken t i embryo) t.procs
          (Calm-awake (at t.procs i) (taken t i embryo) (refl, refl) refl) ni v))

pub fork-Inv :
    (init me : ℕ) (has_stack copied : Bool) (t : Table)
    → is_unused (at t.procs me) ≡ false
    → Inv init t.procs
    → Inv init (fork me has_stack copied t).0.procs
unfolding fork fork_into
fork-Inv init me has_stack copied t here v = elim (find_unused_lem t.procs 0) [
  | inl q ↦
      subst (λ r. Inv init (fork_into me copied r).0.procs) (sym (alloc_proc-full has_stack t q)) v
  | inr (i, q, free, lt) ↦
      fork-slot init me i has_stack copied t (q ∙ ap some (omega arith))
        (unused-differs t.procs i init free v.alive)
        (λ e. unused-differs t.procs i me free here (sym e)) v
]
