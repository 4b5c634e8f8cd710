-- ===== src/Proc/Reap.antt =====
-- What `wait` finds, and that it keeps the invariant.
use cse314_operating_system.Base.{
  ℕ, zero, suc, ◌+◌, ◌≡◌, refl, sym, ap, ◌∙◌, inl, inr, Bool, true, false, not, ◌||◌, Option, none,
  some, List, [], ◌∷◌, arith, Bool-cases,
}
use cse314_operating_system.Proc.{
  sleeping, of_proc, Proc, is_unused, is_zombie, at, sleeps_on, child_of, scan_children, reap,
  fall_asleep, wait_with, wait,
}
use cse314_operating_system.Proc.Inv.{Inv, dead_child, set_other-Inv, at-set, different}

-- What a scan of the slots from `i` on finds
record Found (me : ℕ) (ps : List Proc) (i : ℕ) (r : Bool × Option ℕ) : Type 0 where
  first : (j : ℕ) → r.1 ≡ some j → (k : ℕ) × (j ≡ i + k) × (dead_child me (at ps k) ≡ true)
  none_dead : r.1 ≡ none → (k : ℕ) → dead_child me (at ps k) ≡ false

none_dead-cons :
    (me : ℕ) (p : Proc) (ps : List Proc)
    → dead_child me p ≡ false
    → ((k : ℕ) → dead_child me (at ps k) ≡ false)
    → (k : ℕ) → dead_child me (at (p ∷ ps) k) ≡ false
none_dead-cons me p ps h t zero = h
none_dead-cons me p ps h t (suc k) = t k

Found-cons :
    (me : ℕ) (p : Proc) (ps : List Proc) (i : ℕ) (kids : Bool) (r : Bool × Option ℕ)
    → dead_child me p ≡ false
    → Found me ps (i + 1) r
    → Found me (p ∷ ps) i (kids, r.1)
Found-cons me p ps i kids r h f = record {
  first = λ j e. let (k, q, d) = f.first j e in (suc k, omega (arith, q), d);
  none_dead = λ e. none_dead-cons me p ps h (f.none_dead e);
}

Found-here :
    (me : ℕ) (p : Proc) (ps : List Proc) (i : ℕ)
    → dead_child me p ≡ true
    → Found me (p ∷ ps) i (true, some i)
Found-here me p ps i h = record {
  first = λ j e. (0, ground (arith, e), h);
  none_dead = λ e. absurd (grind (arith, e));
}

scan_children-Found : (me : ℕ) (ps : List Proc) (i : ℕ) → Found me ps i (scan_children me ps i)
unfolding scan_children
scan_children-Found me [] i = record {
  first = λ j e. absurd (grind (arith, e));
  none_dead = λ e k. refl;
}
scan_children-Found me (p ∷ ps) i = elim (Bool-cases (child_of me p)) [
  | inr stranger ↦
      rw (stranger, scan_children)
        (Found-cons me p ps i _ (scan_children me ps (i + 1)) (rw stranger refl)
          (scan_children-Found me ps (i + 1)))
  | inl child ↦ elim (Bool-cases (is_zombie p)) [
    | inl dead ↦ rw (child, dead, scan_children) (Found-here me p ps i (rw (child, dead) refl))
    | inr alive ↦
        rw (child, alive, scan_children)
          (Found-cons me p ps i true (scan_children me ps (i + 1)) (rw (child, alive) refl)
            (scan_children-Found me ps (i + 1)))
  ]
]

pub reap-Inv :
    (init me i : ℕ) (ps : List Proc)
    → dead_child me (at ps i) ≡ true
    → Inv init ps
    → Inv init (reap i ps)
unfolding reap
reap-Inv init me i ps dead v =
    set_other-Inv init i _ ps
      (record {
        dead = λ s e. absurd (ground (arith, e));
        asleep = λ s e. absurd (ground (arith, e));
        parent = λ s e. absurd (grind (arith, e));
      })
      (λ e.
        different _ (ground (arith, dead)) (ap (λ k. child_of me (at ps k)) (sym e) ∙ v.root me))
      v

-- Going to sleep on its own slot, with no zombie child
pub fall_asleep-Inv :
    (init me : ℕ) (ps : List Proc)
    → ((k : ℕ) → dead_child me (at ps k) ≡ false)
    → Inv init ps
    → Inv init (fall_asleep me (of_proc me) ps)
unfolding fall_asleep
fall_asleep-Inv init me ps none_dead v =
    let q = record (at ps me) { chan = some (of_proc me); state = sleeping } in
    record {
      waits = λ s c e.
          let clean : dead_child s (at ps c) ≡ false = elim (at-set ps me s q) [
            | inl same ↦ v.waits s c (sym (ap (sleeps_on (of_proc s)) same) ∙ e)
            | inr (here, eq) ↦ ap (λ k. dead_child k (at ps c)) here ∙ none_dead c
          ] in
          elim (at-set ps me c q) [
            | inl same ↦ ap (dead_child s) same ∙ clean
            | inr (here, eq) ↦ ap (dead_child s) eq ∙ ground arith
          ];
      not_own = λ c. elim (at-set ps me c q) [
        | inl same ↦ ap (child_of c) same ∙ v.not_own c
        | inr (here, eq) ↦
            ap (child_of c) eq ∙ ap (λ k. child_of c (at ps k)) (sym here) ∙ v.not_own c
      ];
      root = λ s. elim (at-set ps me init q) [
        | inl same ↦ ap (child_of s) same ∙ v.root s
        | inr (here, eq) ↦ ap (child_of s) eq ∙ ap (λ k. child_of s (at ps k)) (sym here) ∙ v.root s
      ];
      alive = elim (at-set ps me init q) [
        | inl same ↦ ap is_unused same ∙ v.alive
        | inr (here, eq) ↦ ap is_unused eq
      ];
    }

wait_with-Inv :
    (init me : ℕ) (ps : List Proc) (r : Bool × Option ℕ)
    → Found me ps 0 r
    → Inv init ps
    → Inv init (wait_with me r ps).0
unfolding wait_with
wait_with-Inv init me ps (kids, some i) f v =
    let (k, q, dead) = f.first i refl in
    reap-Inv init me i ps (ap (λ j. dead_child me (at ps j)) {y = k} (omega (arith, q)) ∙ dead) v
wait_with-Inv init me ps (kids, none) f v = elim (Bool-cases (not kids || (at ps me).killed)) [
  | inl leaves ↦ rw leaves v
  | inr stays ↦ rw stays (fall_asleep-Inv init me ps (f.none_dead refl) v)
]

pub wait-Inv : (init me : ℕ) (ps : List Proc) → Inv init ps → Inv init (wait me ps).0
unfolding wait
wait-Inv init me ps v =
    wait_with-Inv init me ps (scan_children me ps 0) (scan_children-Found me ps 0) v
