-- ===== src/Sched/Pick.antt =====
-- Which slot wins with which ticket.
use cse314_operating_system.Base.{
  ℕ, zero, suc, ◌+◌, ◌^◌, ◌≤◌, ◌<◌, ◌≡◌, refl, sym, ap, ◌∙◌, inl, inr, Bool, true, false, ◌&&◌,
  Option, none, some, List, [], ◌∷◌, arith, dec_lt, ltb, leb, ◌==◌, if◌then◌else◌, ==_iff,
  Bool-cases,
}
use cse314_operating_system.Base.{uint}
use cse314_operating_system.Proc.{Proc, is_runnable}
use cse314_operating_system.Sched.{total_tickets, int_lt, pick}

-- The tickets of one process in the lottery, and of all, with no wrap.
abbrev pub tickets_of : Proc → ℕ
tickets_of p = if is_runnable p then p.tickets else 0

abbrev pub sum_tickets : List Proc → ℕ
sum_tickets [] = 0
sum_tickets (p ∷ ps) = tickets_of p + sum_tickets ps

-- Whether slot `i` is that of a process in state RUNNABLE.
abbrev pub runnable_at : List Proc → ℕ → Bool
runnable_at [] i = false
runnable_at (p ∷ ps) zero = is_runnable p
runnable_at (p ∷ ps) (suc i) = runnable_at ps i

abbrev pub tickets_at : List Proc → ℕ → ℕ
tickets_at [] i = 0
tickets_at (p ∷ ps) zero = tickets_of p
tickets_at (p ∷ ps) (suc i) = tickets_at ps i

-- The tickets before slot `i`
abbrev pub tickets_before : List Proc → ℕ → ℕ
tickets_before ps zero = 0
tickets_before [] (suc i) = 0
tickets_before (p ∷ ps) (suc i) = tickets_of p + tickets_before ps i

abbrev pub is_slot : ℕ → Option ℕ → Bool
is_slot j none = false
is_slot j (some i) = j == i

-- The first runnable slot, from `i` on
abbrev pub first_runnable : List Proc → (i : ℕ) → Option ℕ
first_runnable [] i = none
first_runnable (p ∷ ps) i = if is_runnable p then some i else first_runnable ps (i + 1)

pub tickets_of-runnable : (p : Proc) → is_runnable p ≡ true → tickets_of p ≡ p.tickets
tickets_of-runnable p run = rw run refl

pub tickets_of-other : (p : Proc) → is_runnable p ≡ false → tickets_of p ≡ 0
tickets_of-other p other = rw other refl

pub total_tickets-sum :
    (ps : List Proc) (total : ℕ)
    → total + sum_tickets ps < 2 ^ 31
    → total_tickets ps total ≡ total + sum_tickets ps
unfolding total_tickets
total_tickets-sum [] total fits = omega arith
total_tickets-sum (p ∷ ps) total fits = elim (Bool-cases (is_runnable p)) [
  | inl run ↦
      let own = tickets_of-runnable p run in
      rw (run, total_tickets)
        (ap (total_tickets ps) {x = uint (total + p.tickets)} (omega arith)
          ∙ total_tickets-sum ps (total + p.tickets) (omega arith)
          ∙ omega arith)
  | inr other ↦
      let own = tickets_of-other p other in
      rw (other, total_tickets) (total_tickets-sum ps total (omega arith) ∙ omega arith)
]

-- What the second loop does at a runnable slot, at a ticket not behind its own.
pub pick-here :
    (p : Proc) (ps : List Proc) (r t i : ℕ)
    → is_runnable p ≡ true
    → t + p.tickets < 2 ^ 31
    → r < 2 ^ 31
    → r ≤ t + p.tickets
    → pick (p ∷ ps) r t i ≡ some i
unfolding pick
pick-here p ps r t i run fits small le = rw (run, pick) (ground arith)

pub pick-later :
    (p : Proc) (ps : List Proc) (r t i : ℕ)
    → is_runnable p ≡ true
    → t + p.tickets < 2 ^ 31
    → r < 2 ^ 31
    → t + p.tickets < r
    → pick (p ∷ ps) r t i ≡ pick ps r (t + p.tickets) (i + 1)
unfolding pick
pick-later p ps r t i run fits small lt =
    let same : uint (t + p.tickets) ≡ t + p.tickets = omega arith in
    let later : int_lt (t + p.tickets) r ≡ true = ground arith in rw (run, same, later, pick) refl

pub pick-other :
    (p : Proc) (ps : List Proc) (r t i : ℕ)
    → is_runnable p ≡ false
    → pick (p ∷ ps) r t i ≡ pick ps r t (i + 1)
unfolding pick
pick-other p ps r t i other = rw (other, pick) refl

slot-before :
    (ps : List Proc) (r t i j : ℕ)
    → t + sum_tickets ps < 2 ^ 31
    → r < 2 ^ 31
    → j < i
    → is_slot j (pick ps r t i) ≡ false
unfolding pick
slot-before [] r t i j fits small lt = refl
slot-before (p ∷ ps) r t i j fits small lt = elim (Bool-cases (is_runnable p)) [
  | inl run ↦
      let own = tickets_of-runnable p run in
      elim (dec_lt (t + p.tickets) r) [
        | yes more ↦
            rw (pick-later p ps r t i run (omega arith) small more)
              (slot-before ps r (t + p.tickets) (i + 1) j (omega arith) small (omega arith))
        | no here ↦ rw (pick-here p ps r t i run (omega arith) small (omega arith)) (ground arith)
      ]
  | inr other ↦
      let own = tickets_of-other p other in
      rw (pick-other p ps r t i other)
        (slot-before ps r t (i + 1) j (omega arith) small (omega arith))
]

-- `a < r` and `r ≤ a + k`
abbrev pub between : (a k r : ℕ) → Bool
between a k r = ltb a r && leb r (a + k)

between-in : (a k r : ℕ) → a < r → r ≤ a + k → between a k r ≡ true
between-in a k r lt le = ground arith

between-below : (a k r : ℕ) → r ≤ a → between a k r ≡ false
between-below a k r le = ground arith

between-above : (a k r : ℕ) → a + k < r → between a k r ≡ false
between-above a k r lt = ground arith

-- The tickets that win for slot `j`, when `t` are counted before
abbrev pub wins : List Proc → (t j r : ℕ) → Bool
wins ps t j r = between (t + tickets_before ps j) (tickets_at ps j) r

other_slot : (i j : ℕ) → (i + suc j == i) ≡ false
other_slot i j = ground arith

-- A ticket behind those counted so far is won by the slot that holds it.
pub pick-wins :
    (ps : List Proc) (r t i j : ℕ)
    → t < r
    → r < 2 ^ 31
    → t + sum_tickets ps < 2 ^ 31
    → is_slot (i + j) (pick ps r t i) ≡ wins ps t j r
unfolding pick
pick-wins [] r t i zero lt small fits = sym (between-above (t + 0) 0 r (omega arith))
pick-wins [] r t i (suc j) lt small fits = sym (between-above (t + 0) 0 r (omega arith))
pick-wins (p ∷ ps) r t i zero lt small fits = elim (Bool-cases (is_runnable p)) [
  | inl run ↦
      let own = tickets_of-runnable p run in
      elim (dec_lt (t + p.tickets) r) [
        | yes more ↦
            rw
              (
                pick-later p ps r t i run (omega arith) small more,
                slot-before ps r (t + p.tickets) (i + 1) (i + 0) (omega arith) small (omega arith),
              )
              (sym (between-above (t + 0) (tickets_of p) r (omega arith)))
        | no here ↦ rw (pick-here p ps r t i run (omega arith) small (omega arith)) (
            (==_iff (i + 0) i).1 (omega arith)
            ∙ sym (between-in (t + 0) (tickets_of p) r (omega arith) (omega arith)))
      ]
  | inr other ↦
      let own = tickets_of-other p other in
      rw
        (
          pick-other p ps r t i other,
          slot-before ps r t (i + 1) (i + 0) (omega arith) small (omega arith),
        )
        (sym (between-above (t + 0) (tickets_of p) r (omega arith)))
]
pick-wins (p ∷ ps) r t i (suc j) lt small fits = elim (Bool-cases (is_runnable p)) [
  | inl run ↦
      let own = tickets_of-runnable p run in
      elim (dec_lt (t + p.tickets) r) [
        | yes more ↦ rw (pick-later p ps r t i run (omega arith) small more) (
            ap (λ k. is_slot k (pick ps r (t + p.tickets) (i + 1))) {x = i + suc j} {y = i + 1 + j}
              (omega arith)
            ∙ pick-wins ps r (t + p.tickets) (i + 1) j more small (omega arith)
            ∙ ap (λ a. between a (tickets_at ps j) r) {x = t + p.tickets + tickets_before ps j}
                (omega arith))
        | no here ↦ rw (pick-here p ps r t i run (omega arith) small (omega arith)) (
            other_slot i j
            ∙ sym (
                between-below (t + (tickets_of p + tickets_before ps j)) (tickets_at ps j) r
                  (omega arith)))
      ]
  | inr other ↦
      let own = tickets_of-other p other in
      rw (pick-other p ps r t i other) (
        ap (λ k. is_slot k (pick ps r t (i + 1))) {x = i + suc j} {y = i + 1 + j} (omega arith)
        ∙ pick-wins ps r t (i + 1) j lt small (omega arith)
        ∙ ap (λ a. between a (tickets_at ps j) r) {x = t + tickets_before ps j} (omega arith))
]
