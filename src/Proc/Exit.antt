-- ===== src/Proc/Exit.antt =====
-- What `exit` and `wait` do to the process table.
use cse314_operating_system.Base.{
  get_or-set_ne, ℕ, zero, suc, ◌+◌, ◌≡◌, refl, sym, ap, subst, ◌∙◌, ◌≢◌, inl, inr, Bool, true,
  false, ◌&&◌, Option, none, some, List, [], ◌∷◌, arith, ◌==◌, ==_iff, Bool-cases, length, set,
}
use cse314_operating_system.Proc.{
  zombie, Chan, of_proc, Proc, is_unused, is_zombie, empty_proc, at, sleeps_on, wake, wakeup1,
  child_of, wakeup_parent, pass_to_init, pass_children, become_zombie, exit,
}
use cse314_operating_system.Proc.Inv.{
  asleep-set, Inv, dead_child, at-set, stays_false, different, reparent-Inv, wakeup1-Inv,
  at-wakeup1, Keeps-wake,
}

-- No process sleeps on the slot that is the parent of `me`.
Quiet : (me : ℕ) → List Proc → Type 0
Quiet me ps = (s : ℕ) → child_of s (at ps me) ≡ true → sleeps_on (of_proc s) (at ps s) ≡ false

wake-quiet : (c : Chan) (p : Proc) → sleeps_on c (wake c p) ≡ false
wake-quiet c p = elim (Bool-cases (sleeps_on c p)) [ inl on ↦ rw on refl | inr off ↦ rw off off ]

map-set :
    (c : Chan) (ps : List Proc) (i : ℕ) (p : Proc)
    → wakeup1 c (set ps i p) ≡ set (wakeup1 c ps) i (wake c p)
unfolding wakeup1
map-set c [] i p = refl
map-set c (x ∷ ps) zero p = refl
map-set c (x ∷ ps) (suc i) p = ap (◌∷◌ (wake c x)) (map-set c ps i p)

wake-awake : (c : Chan) (p : Proc) → is_zombie p ≡ true → wake c p ≡ p
wake-awake c p e = let off : sleeps_on c p ≡ false = ground (arith, e) in rw off refl

pass_to_init-Inv :
    (me init i : ℕ) (ps : List Proc) → Inv init ps → Inv init (pass_to_init me init i ps)
unfolding pass_to_init
pass_to_init-Inv me init i ps v = elim (Bool-cases (child_of me (at ps i))) [
  | inr stranger ↦ rw (stranger, pass_to_init) v
  | inl child ↦
      let ni : init ≢ i = λ e.
        different (child_of me (at ps i)) child
          (ap (λ k. child_of me (at ps k)) (sym e) ∙ v.root me) in
      elim (Bool-cases (is_zombie (at ps i))) [
        | inr alive ↦
            rw (child, alive, pass_to_init)
              (reparent-Inv init init i _ ps (λ s e. ground (arith, e)) (λ e. ni (sym e)) ni
                (λ s e. e) (λ e. absurd (different _ e alive)) v.alive v)
        | inl dead ↦
            rw
              (
                child,
                dead,
                pass_to_init,
                map-set (of_proc init) ps i (record (at ps i) { parent = some init }),
                wake-awake (of_proc init) (record (at ps i) { parent = some init }) dead,
              )
              (let w = wakeup1-Inv init (of_proc init) ps v in
                reparent-Inv init init i _ (wakeup1 (of_proc init) ps) (λ s e. ground (arith, e))
                  (λ e. ni (sym e)) ni (λ s e. absurd (ground (arith, e, dead)))
                  (λ e.
                    ap (sleeps_on (of_proc init)) (at-wakeup1 (of_proc init) ps init)
                    ∙ wake-quiet (of_proc init) (at ps init))
                  w.alive w)
      ]
]

Quiet-wakeup1 : (me : ℕ) (c : Chan) (ps : List Proc) → Quiet me ps → Quiet me (wakeup1 c ps)
unfolding Quiet
Quiet-wakeup1 me c ps h s e =
    ap (sleeps_on (of_proc s)) (at-wakeup1 c ps s)
    ∙ stays_false _ _ ((Keeps-wake c (at ps s)).asleep s)
        (h s ((Keeps-wake c (at ps me)).parent s (sym (ap (child_of s) (at-wakeup1 c ps me)) ∙ e)))

Quiet-set :
    (me i : ℕ) (p : Proc) (ps : List Proc)
    → i ≢ me
    → ((s : ℕ) → sleeps_on (of_proc s) p ≡ true → sleeps_on (of_proc s) (at ps i) ≡ true)
    → Quiet me ps
    → Quiet me (set ps i p)
unfolding Quiet
Quiet-set me i p ps ne asleep h s e =
    stays_false (sleeps_on (of_proc s) (at ps s)) _ (asleep-set ps i s p (asleep s))
      (h s (sym (ap (child_of s) (get_or-set_ne ps i me p empty_proc ne)) ∙ e))

Quiet-pass :
    (me init i : ℕ) (ps : List Proc)
    → Inv init ps
    → Quiet me ps
    → Quiet me (pass_to_init me init i ps)
unfolding pass_to_init
Quiet-pass me init i ps v h = elim (Bool-cases (child_of me (at ps i))) [
  | inr stranger ↦ rw (stranger, pass_to_init) h
  | inl child ↦
      let ne : i ≢ me = λ e. different _ child (ap (λ k. child_of me (at ps k)) e ∙ v.not_own me) in
      let passed = Quiet-set me i (record (at ps i) { parent = some init }) ps ne (λ s e. e) h in
      elim (Bool-cases (is_zombie (at ps i))) [
        | inr alive ↦ rw (child, alive, pass_to_init) passed
        | inl dead ↦
            rw (child, dead, pass_to_init)
              (Quiet-wakeup1 me (of_proc init) (set ps i (record (at ps i) { parent = some init }))
                passed)
      ]
]

pass_children-Inv :
    (me init n i : ℕ) (ps : List Proc)
    → Inv init ps
    → Quiet me ps
    → Inv init (pass_children me init n i ps) × Quiet me (pass_children me init n i ps)
unfolding pass_children
pass_children-Inv me init zero i ps v h = (v, h)
pass_children-Inv me init (suc n) i ps v h =
    pass_children-Inv me init n (i + 1) (pass_to_init me init i ps)
      (pass_to_init-Inv me init i ps v) (Quiet-pass me init i ps v h)

wakeup_parent-Inv :
    (init : ℕ) (o : Option ℕ) (ps : List Proc) → Inv init ps → Inv init (wakeup_parent o ps)
wakeup_parent-Inv init none ps v = v
wakeup_parent-Inv init (some q) ps v = wakeup1-Inv init (of_proc q) ps v

parent_is : ℕ → Option ℕ → Bool
parent_is s o = elim o [ none ↦ false | some q ↦ q == s ]

Quiet-wakeup_parent :
    (me : ℕ) (o : Option ℕ) (ps : List Proc) → (at ps me).parent ≡ o → Quiet me (wakeup_parent o ps)
unfolding Quiet parent_is
Quiet-wakeup_parent me none ps e s c = absurd (different _ c (ap (parent_is s) e))
Quiet-wakeup_parent me (some q) ps e s c =
    let before : child_of s (at ps me) ≡ true =
      (Keeps-wake (of_proc q) (at ps me)).parent s
        (sym (ap (child_of s) (at-wakeup1 (of_proc q) ps me)) ∙ c) in
    let same : q ≡ s = (==_iff q s).0 (sym (ap (parent_is s) e) ∙ before) in
    subst (λ k. sleeps_on (of_proc k) (at (wakeup1 (of_proc q) ps) k) ≡ false) same
      (ap (sleeps_on (of_proc q)) (at-wakeup1 (of_proc q) ps q) ∙ wake-quiet (of_proc q) (at ps q))

not_mine : (a b : Bool) → b ≡ true → (a ≡ true → b ≡ false) → (a && true) ≡ false
not_mine true b e h = absurd (different b e (h refl))
not_mine false b e h = refl

become_zombie-Inv :
    (init me : ℕ) (ps : List Proc)
    → init ≢ me
    → Quiet me ps
    → Inv init ps
    → Inv init (become_zombie me ps)
unfolding become_zombie Quiet
become_zombie-Inv init me ps ne h v =
    let dead = record (at ps me) { state = zombie } in
    let at_init = get_or-set_ne ps me init dead empty_proc (λ e. ne (sym e)) in
    record {
      waits = λ s c e.
          let before = asleep-set ps me s dead (λ d. absurd (ground (arith, d))) e in
          elim (at-set ps me c dead) [
            | inl same ↦ ap (dead_child s) same ∙ v.waits s c before
            | inr (here, eq) ↦
                ap (dead_child s) eq ∙ not_mine (child_of s (at ps me)) _ before (h s)
          ];
      not_own = λ c. elim (at-set ps me c dead) [
        | inl same ↦ ap (child_of c) same ∙ v.not_own c
        | inr (here, eq) ↦
            ap (child_of c) eq ∙ ap (λ k. child_of c (at ps k)) (sym here) ∙ v.not_own c
      ];
      root = λ s. ap (child_of s) at_init ∙ v.root s;
      alive = ap is_unused at_init ∙ v.alive;
    }

pub exit-Inv :
    (init me : ℕ) (ps qs : List Proc) → exit me init ps ≡ some qs → Inv init ps → Inv init qs
unfolding exit
exit-Inv init me ps qs e v = elim (Bool-cases (me == init)) [
  | inl same ↦ absurd (ground (arith, e, same))
  | inr other ↦
      let o = (at ps me).parent in
      let kept =
        pass_children-Inv me init (length ps) 0 (wakeup_parent o ps) (wakeup_parent-Inv init o ps v)
          (Quiet-wakeup_parent me o ps refl) in
      let done : exit me init ps
          ≡ some (become_zombie me (pass_children me init (length ps) 0 (wakeup_parent o ps))) =
        rw (other, exit) refl in
      let same : become_zombie me (pass_children me init (length ps) 0 (wakeup_parent o ps)) ≡ qs =
        cc in
      subst (Inv init) same
        (become_zombie-Inv init me _ (λ z. ground (arith, z, other)) kept.1 kept.0)
]
