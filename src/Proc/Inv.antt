-- ===== src/Proc/Inv.antt =====
-- The invariant of the process table, and the operations that change no parent.
use cse314_operating_system.Base.{
  get_or-set_ne, ℕ, zero, suc, ◌≡◌, refl, sym, ap, subst, ◌∙◌, ◌≢◌, ◌⊎◌, inl, inr, Bool, true,
  false, ◌&&◌, List, [], ◌∷◌, arith, Bool-cases, set,
}
use cse314_operating_system.Proc.{
  Chan, of_proc, Proc, is_unused, is_zombie, empty_proc, at, sleeps_on, wake, wakeup1, child_of,
}

-- A zombie child of `s`
abbrev pub dead_child : ℕ → Proc → Bool
dead_child s p = child_of s p && is_zombie p

-- What a change of one process must not bring about
pub record Keeps (p q : Proc) : Type 0 where
  pub dead : (s : ℕ) → dead_child s q ≡ true → dead_child s p ≡ true
  pub asleep : (s : ℕ) → sleeps_on (of_proc s) q ≡ true → sleeps_on (of_proc s) p ≡ true
  pub parent : (s : ℕ) → child_of s q ≡ true → child_of s p ≡ true
  pub unused : is_unused q ≡ true → is_unused p ≡ true

Keeps-refl : (p : Proc) → Keeps p p
Keeps-refl p = record { dead = λ s e. e; asleep = λ s e. e; parent = λ s e. e; unused = λ e. e }

pub Keeps-wake : (c : Chan) (p : Proc) → Keeps p (wake c p)
Keeps-wake c p = elim (Bool-cases (sleeps_on c p)) [
  | inl on ↦ rw on (record {
    dead = λ s e. absurd (ground (arith, e));
    asleep = λ s e. absurd (ground (arith, e));
    parent = λ s e. e;
    unused = λ e. absurd (ground (arith, e));
  })
  | inr off ↦ rw off (Keeps-refl p)
]

pub at-wakeup1 : (c : Chan) (ps : List Proc) (k : ℕ) → at (wakeup1 c ps) k ≡ wake c (at ps k)
unfolding wakeup1
at-wakeup1 c [] k = refl
at-wakeup1 c (p ∷ ps) zero = refl
at-wakeup1 c (p ∷ ps) (suc k) = at-wakeup1 c ps k

pub at-set :
    (ps : List Proc) (i k : ℕ) (p : Proc)
    → (at (set ps i p) k ≡ at ps k) ⊎ ((k ≡ i) × (at (set ps i p) k ≡ p))
at-set [] i k p = inl refl
at-set (x ∷ ps) zero zero p = inr (refl, refl)
at-set (x ∷ ps) zero (suc k) p = inl refl
at-set (x ∷ ps) (suc i) zero p = inl refl
at-set (x ∷ ps) (suc i) (suc k) p = elim (at-set ps i k p) [
  | inl e ↦ inl e
  | inr (e, q) ↦ inr (ap suc e, q)
]

Keeps-set :
    (ps : List Proc) (i k : ℕ) (p : Proc) → Keeps (at ps i) p → Keeps (at ps k) (at (set ps i p) k)
Keeps-set ps i k p h = elim (at-set ps i k p) [
  | inl e ↦ subst (λ q. Keeps (at ps k) q) (sym e) (Keeps-refl (at ps k))
  | inr (e, q) ↦ subst (λ r. Keeps (at ps k) r) (sym q) (subst (λ j. Keeps (at ps j) p) (sym e) h)
]

-- The processes form a tree under init, and none sleeps in `wait` with a zombie child.
pub record Inv (init : ℕ) (ps : List Proc) : Type 0 where
  pub waits : (s c : ℕ) → sleeps_on (of_proc s) (at ps s) ≡ true → dead_child s (at ps c) ≡ false
  pub not_own : (c : ℕ) → child_of c (at ps c) ≡ false
  pub root : (s : ℕ) → child_of s (at ps init) ≡ false
  pub alive : is_unused (at ps init) ≡ false

pub different : (a : Bool) → a ≡ true → a ≡ false → ⊥
different a e f = grind (arith, e, f)

pub stays_false : (a b : Bool) → (b ≡ true → a ≡ true) → a ≡ false → b ≡ false
stays_false a true h e = absurd (grind (arith, h refl, e))
stays_false a false h e = refl

-- `Keeps` for a process other than init
pub record Calm (p q : Proc) : Type 0 where
  pub dead : (s : ℕ) → dead_child s q ≡ true → dead_child s p ≡ true
  pub asleep : (s : ℕ) → sleeps_on (of_proc s) q ≡ true → sleeps_on (of_proc s) p ≡ true
  pub parent : (s : ℕ) → child_of s q ≡ true → child_of s p ≡ true

Calm-refl : (p : Proc) → Calm p p
Calm-refl p = record { dead = λ s e. e; asleep = λ s e. e; parent = λ s e. e }

Inv-Calm :
    (init : ℕ) (ps qs : List Proc)
    → ((k : ℕ) → Calm (at ps k) (at qs k))
    → is_unused (at qs init) ≡ false
    → Inv init ps
    → Inv init qs
Inv-Calm init ps qs h al v = record {
  waits = λ s c e.
      stays_false (dead_child s (at ps c)) (dead_child s (at qs c)) ((h c).dead s)
        (v.waits s c ((h s).asleep s e));
  not_own = λ c. stays_false _ _ ((h c).parent c) (v.not_own c);
  root = λ s. stays_false _ _ ((h init).parent s) (v.root s);
  alive = al;
}

Inv-Keeps :
    (init : ℕ) (ps qs : List Proc)
    → ((k : ℕ) → Keeps (at ps k) (at qs k))
    → Inv init ps
    → Inv init qs
Inv-Keeps init ps qs h v =
    Inv-Calm init ps qs
      (λ k. record { dead = (h k).dead; asleep = (h k).asleep; parent = (h k).parent })
      (stays_false _ _ (h init).unused v.alive) v

Calm-set :
    (ps : List Proc) (i k : ℕ) (p : Proc) → Calm (at ps i) p → Calm (at ps k) (at (set ps i p) k)
Calm-set ps i k p h = elim (at-set ps i k p) [
  | inl e ↦ subst (λ q. Calm (at ps k) q) (sym e) (Calm-refl (at ps k))
  | inr (e, q) ↦ subst (λ r. Calm (at ps k) r) (sym q) (subst (λ j. Calm (at ps j) p) (sym e) h)
]

-- A change of a slot that is not that of init
pub set_other-Inv :
    (init i : ℕ) (p : Proc) (ps : List Proc)
    → Calm (at ps i) p
    → init ≢ i
    → Inv init ps
    → Inv init (set ps i p)
set_other-Inv init i p ps h ne v =
    Inv-Calm init ps (set ps i p) (λ k. Calm-set ps i k p h)
      (ap is_unused (get_or-set_ne ps i init p empty_proc (λ e. ne (sym e))) ∙ v.alive) v

pub wakeup1-Inv : (init : ℕ) (c : Chan) (ps : List Proc) → Inv init ps → Inv init (wakeup1 c ps)
wakeup1-Inv init c ps =
    Inv-Keeps init ps (wakeup1 c ps)
      (λ k. subst (λ q. Keeps (at ps k) q) (sym (at-wakeup1 c ps k)) (Keeps-wake c (at ps k)))

pub set-Inv :
    (init i : ℕ) (p : Proc) (ps : List Proc)
    → Keeps (at ps i) p
    → Inv init ps
    → Inv init (set ps i p)
set-Inv init i p ps h = Inv-Keeps init ps (set ps i p) (λ k. Keeps-set ps i k p h)

pub asleep-set :
    (ps : List Proc) (i s : ℕ) (q : Proc)
    → (sleeps_on (of_proc s) q ≡ true → sleeps_on (of_proc s) (at ps i) ≡ true)
    → sleeps_on (of_proc s) (at (set ps i q) s) ≡ true
    → sleeps_on (of_proc s) (at ps s) ≡ true
asleep-set ps i s q h e = elim (at-set ps i s q) [
  | inl same ↦ sym (ap (sleeps_on (of_proc s)) same) ∙ e
  | inr (here, eq) ↦
      ap (λ k. sleeps_on (of_proc s) (at ps k)) here ∙ h (sym (ap (sleeps_on (of_proc s)) eq) ∙ e)
]

not_child :
    (new c : ℕ) (q : Proc)
    → ((s : ℕ) → child_of s q ≡ true → s ≡ new)
    → c ≢ new
    → child_of c q ≡ false
not_child new c q only ne = elim (Bool-cases (child_of c q)) [
  | inl is ↦ absurd (ne (only c is))
  | inr is_not ↦ is_not
]

not_dead :
    (new s : ℕ) (q : Proc) (ps : List Proc)
    → ((s : ℕ) → child_of s q ≡ true → s ≡ new)
    → (is_zombie q ≡ true → sleeps_on (of_proc new) (at ps new) ≡ false)
    → sleeps_on (of_proc s) (at ps s) ≡ true
    → dead_child s q ≡ false
not_dead new s q ps only quiet asleep = elim (Bool-cases (is_zombie q)) [
  | inr alive ↦ ground (arith, alive)
  | inl dead ↦
      rw
        (not_child new s q only
          (λ e. different _ asleep (ap (λ k. sleeps_on (of_proc k) (at ps k)) e ∙ quiet dead)))
        refl
]

-- A slot, neither that of init nor that of `new`, whose process gets the parent `new`. If it is a
-- zombie, `new` must not sleep in `wait`.
pub reparent-Inv :
    (init new i : ℕ) (q : Proc) (ps : List Proc)
    → ((s : ℕ) → child_of s q ≡ true → s ≡ new)
    → i ≢ new
    → init ≢ i
    → ((s : ℕ) → sleeps_on (of_proc s) q ≡ true → sleeps_on (of_proc s) (at ps i) ≡ true)
    → (is_zombie q ≡ true → sleeps_on (of_proc new) (at ps new) ≡ false)
    → is_unused (at ps init) ≡ false
    → Inv init ps
    → Inv init (set ps i q)
reparent-Inv init new i q ps only ne ni asleep quiet al v =
    let at_init = get_or-set_ne ps i init q empty_proc (λ e. ni (sym e)) in
    record {
      waits = λ s c e.
          let asleep_before = asleep-set ps i s q (asleep s) e in
          elim (at-set ps i c q) [
            | inl same ↦ ap (dead_child s) same ∙ v.waits s c asleep_before
            | inr (here, eq) ↦ ap (dead_child s) eq ∙ not_dead new s q ps only quiet asleep_before
          ];
      not_own = λ c. elim (at-set ps i c q) [
        | inl same ↦ ap (child_of c) same ∙ v.not_own c
        | inr (here, eq) ↦ ap (child_of c) eq ∙ not_child new c q only (λ z. ne (sym here ∙ z))
      ];
      root = λ s. ap (child_of s) at_init ∙ v.root s;
      alive = ap is_unused at_init ∙ al;
    }
