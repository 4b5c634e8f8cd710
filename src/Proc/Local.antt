-- ===== src/Proc/Local.antt =====
-- The operations of the process table that change no parent keep its invariant.
use cse314_operating_system.Base.{
  ℕ, suc, ◌<◌, ◌≡◌, refl, subst, ◌≢◌, ◌⊎◌, inl, inr, true, false, none, some, List, [], ◌∷◌, arith,
  ◌==◌, if◌then◌else◌, ==_iff, Bool-cases, length, set, All,
}
use cse314_operating_system.Proc.{
  runnable, of_other, Proc, is_unused, is_sleeping, is_zombie, at, set_tickets_util, kill,
  drop_tickets, fall_asleep, forget, yield_cpu, wake_end, dispatch, slice_over,
}
use cse314_operating_system.Proc.Inv.{Inv, Keeps, set-Inv}

-- A process that is made runnable, running or an embryo
pub Keeps-awake :
    (p q : Proc)
    → (is_zombie q ≡ false) × (is_sleeping q ≡ false) × (is_unused q ≡ false)
    → q.parent ≡ p.parent
    → Keeps p q
Keeps-awake p q h e = record {
  dead = λ s d. absurd (ground (arith, h, d));
  asleep = λ s d. absurd (ground (arith, h, d));
  parent = λ s d. subst (λ o. elim o [ none ↦ false | some x ↦ x == s ] ≡ true) e d;
  unused = λ d. absurd (ground (arith, h, d));
}

pub drop_tickets-Inv : (init me : ℕ) (ps : List Proc) → Inv init ps → Inv init (drop_tickets me ps)
unfolding drop_tickets set_tickets_util
drop_tickets-Inv init me ps =
    set-Inv init me _ ps
      (record { dead = λ s e. e; asleep = λ s e. e; parent = λ s e. e; unused = λ e. e })

pub forget-Inv : (init i : ℕ) (ps : List Proc) → Inv init ps → Inv init (forget i ps)
unfolding forget set_tickets_util
forget-Inv init i ps =
    set-Inv init i _ ps
      (record { dead = λ s e. e; asleep = λ s e. e; parent = λ s e. e; unused = λ e. e })

pub yield_cpu-Inv : (init me : ℕ) (ps : List Proc) → Inv init ps → Inv init (yield_cpu me ps)
unfolding yield_cpu
yield_cpu-Inv init me ps = set-Inv init me _ ps (Keeps-awake (at ps me) _ (refl, refl, refl) refl)

pub dispatch-Inv :
    (init i : ℕ) (ps : List Proc) → Inv init ps → Inv init (set ps i (dispatch (at ps i)))
unfolding dispatch
dispatch-Inv init i ps = set-Inv init i _ ps (Keeps-awake (at ps i) _ (refl, refl, refl) refl)

pub slice_over-Inv :
    (init i start_tick end_tick : ℕ) (ps : List Proc)
    → Inv init ps
    → Inv init (set ps i (slice_over start_tick end_tick (at ps i)))
unfolding slice_over
slice_over-Inv init i start_tick end_tick ps =
    set-Inv init i _ ps
      (record { dead = λ s e. e; asleep = λ s e. e; parent = λ s e. e; unused = λ e. e })

pub wake_end-Inv : (init me : ℕ) (ps : List Proc) → Inv init ps → Inv init (wake_end me ps)
unfolding wake_end
wake_end-Inv init me ps = set-Inv init me _ ps (record {
  dead = λ s e. e;
  asleep = λ s e. absurd (ground (arith, e));
  parent = λ s e. e;
  unused = λ e. e;
})

pub fall_asleep_other-Inv :
    (init me c : ℕ) (ps : List Proc) → Inv init ps → Inv init (fall_asleep me (of_other c) ps)
unfolding fall_asleep
fall_asleep_other-Inv init me c ps = set-Inv init me _ ps (record {
  dead = λ s e. absurd (ground (arith, e));
  asleep = λ s e. absurd (ground (arith, e));
  parent = λ s e. e;
  unused = λ e. absurd (ground (arith, e));
})

-- A process that is killed
abbrev pub killed_proc : Proc → Proc
killed_proc p = record p { killed = true; state = if is_sleeping p then runnable else p.state }

Keeps-killed : (p : Proc) → Keeps p (killed_proc p)
Keeps-killed p = elim (Bool-cases (is_sleeping p)) [
  | inl on ↦ rw on (Keeps-awake p _ (refl, refl, refl) refl)
  | inr off ↦
      rw off (record { dead = λ s e. e; asleep = λ s e. e; parent = λ s e. e; unused = λ e. e })
]

-- `kill` fails if no slot has the pid. Otherwise it kills the process of such a slot, which need not be
-- in use, and changes no other.
pub kill-set :
    (pid : ℕ) (ps : List Proc)
    → ((kill pid ps ≡ none) × All (λ p. p.pid ≢ pid) ps)
      ⊎ ((i : ℕ) × (kill pid ps ≡ some (set ps i (killed_proc (at ps i))))
          × (i < length ps)
          × ((at ps i).pid ≡ pid))
unfolding kill
kill-set pid [] = inl (refl, tt)
kill-set pid (p ∷ ps) = elim (Bool-cases (p.pid == pid)) [
  | inl same ↦ inr (0, rw (same, kill) refl, omega arith, (==_iff p.pid pid).0 same)
  | inr other ↦ elim (kill-set pid ps) [
    | inl (q, others) ↦
        inl (rw (other, q, kill) refl, ((λ e. absurd (ground (arith, e, other))), others))
    | inr (i, q, lt, e) ↦ inr (suc i, rw (other, q, kill) refl, omega arith, e)
  ]
]

pub kill-Inv :
    (init pid : ℕ) (ps qs : List Proc) → kill pid ps ≡ some qs → Inv init ps → Inv init qs
kill-Inv init pid ps qs e v = elim (kill-set pid ps) [
  | inl (q, others) ↦ absurd (grind (arith, e, q))
  | inr (i, q, lt, same) ↦
      let done : set ps i (killed_proc (at ps i)) ≡ qs = cc in
      subst (Inv init) done (set-Inv init i _ ps (Keeps-killed (at ps i)) v)
]
