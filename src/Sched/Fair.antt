-- ===== src/Sched/Fair.antt =====
-- How many of the tickets drawn each process wins with, and that some process wins.
use cse314_operating_system.Base.{
  ℕ, zero, suc, ◌+◌, ◌-◌, ◌%◌, ◌^◌, ◌≤◌, ◌<◌, min, ◌≡◌, refl, ap, ap₂, ◌∙◌, ◌⊎◌, inl, inr, Bool,
  true, false, ◌&&◌, ◌||◌, some, List, [], ◌∷◌, arith, dec_lt, ℕ_discrete, ltb, ◌==◌, if◌then◌else◌,
  Bool-cases,
}
use native.Mathlib.Nat.{mod-lt}
use cse314_operating_system.Base.{uint}
use cse314_operating_system.Proc.{Proc, is_runnable}
use cse314_operating_system.Sched.{
  total_tickets, pick, rand, magnitude, rand_up_to, winner_at, drawn, draw,
}
use cse314_operating_system.Sched.Pick.{
  pick-other, tickets_of-other, pick-later, pick-here, tickets_of-runnable, sum_tickets,
  runnable_at, tickets_at, tickets_before, is_slot, first_runnable, total_tickets-sum, between,
  wins, pick-wins,
}

-- Of the numbers below `n`, how many pass the test.
abbrev pub count_below : ℕ → (ℕ → Bool) → ℕ
count_below zero f = 0
count_below (suc n) f = count_below n f + (if f n then 1 else 0)

count_below-cong :
    (n : ℕ) (f g : ℕ → Bool) → ((r : ℕ) → r < n → f r ≡ g r) → count_below n f ≡ count_below n g
count_below-cong zero f g h = refl
count_below-cong (suc n) f g h =
    ap₂ (λ a b. a + (if b then 1 else 0)) (count_below-cong n f g (λ r lt. h r (omega arith)))
      (h n (omega arith))

count_below-split :
    (n : ℕ) (f : ℕ → Bool)
    → count_below (suc n) f ≡ (if f 0 then 1 else 0) + count_below n (λ r. f (suc r))
count_below-split zero f = omega arith
count_below-split (suc n) f = omega (arith, count_below-split n f)

count_below-between :
    (n a k : ℕ) → count_below n (λ r. between a k (suc r)) ≡ min n (a + k) - min n a
count_below-between zero a k = omega arith
count_below-between (suc n) a k = ground (arith, count_below-between n a k)

before-at_le : (ps : List Proc) (j : ℕ) → tickets_before ps j + tickets_at ps j ≤ sum_tickets ps
before-at_le [] zero = omega arith
before-at_le [] (suc j) = omega arith
before-at_le (p ∷ ps) zero = omega arith
before-at_le (p ∷ ps) (suc j) = omega (arith, before-at_le ps j)

-- Ticket 0 goes to the first runnable process.
pick-zero : (ps : List Proc) (i : ℕ) → sum_tickets ps < 2 ^ 31 → pick ps 0 0 i ≡ first_runnable ps i
unfolding pick
pick-zero [] i fits = refl
pick-zero (p ∷ ps) i fits = elim (Bool-cases (is_runnable p)) [
  | inl run ↦
      let own = tickets_of-runnable p run in
      rw (pick-here p ps 0 0 i run (omega arith) (omega arith) (omega arith), run) refl
  | inr other ↦
      let own = tickets_of-other p other in
      rw (pick-other p ps 0 0 i other, other) (pick-zero ps (i + 1) (omega arith))
]

-- The lottery is fair but for one ticket. Of the numbers from 0 to the sum of the tickets of the
-- runnable processes, if that sum is below 2^31 - 1, a process wins with as many as it has tickets, and the
-- first runnable process with one more. A process that is not runnable wins with none.
pub pick-count :
    (ps : List Proc) (j : ℕ)
    → sum_tickets ps < 2 ^ 31 - 1
    → count_below (sum_tickets ps + 1) (λ r. is_slot j (pick ps r 0 0))
      ≡ (if is_slot j (first_runnable ps 0) then 1 else 0) + tickets_at ps j
pick-count ps j fits =
    let s = sum_tickets ps in
    let held : tickets_before ps j + tickets_at ps j ≤ s = before-at_le ps j in
    ap (λ n. count_below n (λ r. is_slot j (pick ps r 0 0))) {x = s + 1} {y = suc s} (omega arith)
    ∙ count_below-split s (λ r. is_slot j (pick ps r 0 0))
    ∙ ap₂ (λ o c. (if is_slot j o then 1 else 0) + c) (pick-zero ps 0 (omega arith))
        (count_below-cong s (λ r. is_slot j (pick ps (suc r) 0 0)) (λ r. wins ps 0 j (suc r))
            (λ r lt.
              ap (λ k. is_slot k (pick ps (suc r) 0 0)) {x = j} {y = 0 + j} (omega arith)
              ∙ pick-wins ps (suc r) 0 0 j (omega arith) (omega arith) (omega arith))
          ∙ count_below-between s (0 + tickets_before ps j) (tickets_at ps j)
          ∙ omega arith)

runnable-later :
    (p : Proc) (ps : List Proc) (j : ℕ)
    → is_runnable p ≡ false
    → runnable_at (p ∷ ps) j ≡ true
    → runnable_at ps (j - 1) ≡ true
runnable-later p ps zero other at = absurd (grind (arith, other, at))
runnable-later p ps (suc j) other at = ap (runnable_at ps) {x = suc j - 1} (omega arith) ∙ at

-- A ticket that is not positive goes to a runnable process, if there is one.
pick-low :
    (ps : List Proc) (r i j : ℕ)
    → sum_tickets ps < 2 ^ 31
    → (r ≡ 0) ⊎ ((2 ^ 31 ≤ r) × (r < 2 ^ 32))
    → runnable_at ps j ≡ true
    → (w : ℕ) × (pick ps r 0 i ≡ some (i + w)) × (runnable_at ps w ≡ true)
unfolding pick
pick-low [] r i j fits low at = absurd (grind (arith, at))
pick-low (p ∷ ps) r i j fits low at = elim (Bool-cases (is_runnable p)) [
  | inl run ↦
      let own = tickets_of-runnable p run in
      let first : pick (p ∷ ps) r 0 i ≡ some i = rw (run, pick) (ground arith) in
      (0, first ∙ ap some (omega arith), run)
  | inr other ↦
      let own = tickets_of-other p other in
      let (w, q, there) =
        pick-low ps r (i + 1) (j - 1) (omega arith) low (runnable-later p ps j other at) in
      (suc w, pick-other p ps r 0 i other ∙ q ∙ ap some (omega arith), there)
]

-- A positive ticket within the sum goes to a runnable process.
pick-high :
    (ps : List Proc) (r t i : ℕ)
    → t < r
    → r ≤ t + sum_tickets ps
    → t + sum_tickets ps < 2 ^ 31
    → (w : ℕ) × (pick ps r t i ≡ some (i + w)) × (runnable_at ps w ≡ true)
pick-high [] r t i lt le fits = absurd (omega arith)
pick-high (p ∷ ps) r t i lt le fits = elim (Bool-cases (is_runnable p)) [
  | inl run ↦
      let own = tickets_of-runnable p run in
      elim (dec_lt (t + p.tickets) r) [
        | yes more ↦
            let (w, q, there) =
              pick-high ps r (t + p.tickets) (i + 1) more (omega arith) (omega arith) in
            (
              suc w,
              pick-later p ps r t i run (omega arith) (omega arith) more
                  ∙ q
                  ∙ ap some (omega arith),
              there,
            )
        | no here ↦ (
          0,
          pick-here p ps r t i run (omega arith) (omega arith) (omega arith)
              ∙ ap some (omega arith),
          run,
        )
      ]
  | inr other ↦
      let own = tickets_of-other p other in
      let (w, q, there) = pick-high ps r t (i + 1) lt (omega arith) (omega arith) in
      (suc w, pick-other p ps r t i other ∙ q ∙ ap some (omega arith), there)
]

rand_up_to-some :
    (word limit : ℕ)
    → 0 < limit
    → limit < 2 ^ 31
    → rand_up_to word limit
      ≡ some (
          if ltb (rand word) (2 ^ 31)
          then magnitude (rand word) % limit
          else uint (2 ^ 32 - magnitude (rand word) % limit))
unfolding rand_up_to
rand_up_to-some word limit pos hl =
    let same : magnitude limit ≡ limit = ground arith in
    let no_error : (limit == 0 || (rand word == 2 ^ 31 && limit == 2 ^ 32 - 1)) ≡ false =
      ground arith in
    rw (no_error, same, rand_up_to) refl

-- What `randUpTo` draws: a number below a positive limit, or a negative one.
rand_up_to_lem :
    (word limit : ℕ)
    → 0 < limit
    → limit < 2 ^ 31
    → (r : ℕ) × (rand_up_to word limit ≡ some r)
      × ((r < limit) ⊎ ((r ≡ 0) ⊎ ((2 ^ 31 ≤ r) × (r < 2 ^ 32))))
rand_up_to_lem word limit pos hl =
    let m = magnitude (rand word) % limit in
    let small : m < limit = mod-lt (magnitude (rand word)) pos in
    elim (Bool-cases (ltb (rand word) (2 ^ 31))) [
      | inl sign ↦ (m, rand_up_to-some word limit pos hl ∙ rw sign refl, inl small)
      | inr sign ↦
          (uint (2 ^ 32 - m), rand_up_to-some word limit pos hl ∙ rw sign refl, inr (ground arith))
    ]

draw-some :
    (word ticket w : ℕ) (ps : List Proc)
    → rand_up_to word (uint (total_tickets ps 0 + 1)) ≡ some ticket
    → pick ps ticket 0 0 ≡ some w
    → draw word ps ≡ winner_at w
unfolding draw drawn
draw-some word ticket w ps r q = rw (r, q, draw) refl

-- Whatever word the generator gives, if some process is runnable and the tickets of the runnable
-- processes add up to less than 2^31 - 1, the lottery does not trap, and a runnable process wins.
pub draw-winner_at :
    (word : ℕ) (ps : List Proc) (j : ℕ)
    → sum_tickets ps < 2 ^ 31 - 1
    → runnable_at ps j ≡ true
    → (w : ℕ) × (draw word ps ≡ winner_at w) × (runnable_at ps w ≡ true)
draw-winner_at word ps j fits at =
    let limit : uint (total_tickets ps 0 + 1) ≡ sum_tickets ps + 1 =
      rw (total_tickets-sum ps 0 (omega arith)) (omega arith) in
    let (r, drew, range) = rand_up_to_lem word (sum_tickets ps + 1) (omega arith) (omega arith) in
    let found : (w : ℕ) × (pick ps r 0 0 ≡ some (0 + w)) × (runnable_at ps w ≡ true) = elim range [
      | inr low ↦ pick-low ps r 0 j (omega arith) low at
      | inl below ↦ elim (ℕ_discrete r 0) [
        | yes z ↦ pick-low ps r 0 j (omega arith) (inl z) at
        | no pos ↦ pick-high ps r 0 0 (omega arith) (omega arith) (omega arith)
      ]
    ] in
    let (w, q, there) = found in
    (
      w,
      draw-some word r w ps (ap (rand_up_to word) limit ∙ drew) (q ∙ ap some (omega arith)),
      there,
    )
