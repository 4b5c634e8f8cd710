-- ===== src/Sched.antt =====
-- The lottery of Offline 3/xv6/proc.c, and the two functions of pseudorandom.h that it draws with. A
-- word of the generator is an argument.
pub mod Pick
pub mod Fair
mod Tests
use cse314_operating_system.Proc.{
  ProcState, unused, embryo, sleeping, runnable, running, zombie, Proc, is_runnable, is_unused,
  set_tickets_util,
}
use cse314_operating_system.Base.{
  ℕ, zero, suc, ◌+◌, ◌-◌, ◌*◌, ◌/◌, ◌%◌, ◌^◌, ◌≤◌, ◌<◌, min, ◌≡◌, refl, sym, ap, ap₂, subst, ◌∙◌,
  fun_ext, ◌≢◌, ◌↔◌, ◌⊎◌, inl, inr, Bool, true, false, not, ◌&&◌, ◌||◌, Option, none, some, List,
  [], ◌∷◌, ◌++◌, map, append-nil, append_assoc, arith, dec_lt, ℕ_discrete, ltb, leb, ◌==◌,
  if◌then◌else◌, ltb→lt, lt→ltb, leb→le, ==_iff, Bool-cases, Option-cases, length, get_elem?,
  get_or, set, take, drop, replicate, All, length-append, length-set,
}
use cse314_operating_system.Base.{uint}

-- `totalTickets`
pub total_tickets : List Proc → (total : ℕ) → ℕ
total_tickets [] total = total
total_tickets (p ∷ ps) total =
    total_tickets ps (if is_runnable p then uint (total + p.tickets) else total)

-- `a < b` of two `int`s with those bits
abbrev pub int_lt : ℕ → ℕ → Bool
int_lt a b = ltb ((a + 2 ^ 31) % 2 ^ 32) ((b + 2 ^ 31) % 2 ^ 32)

-- The second loop, at slot `i` with `winnerTracker`; `none` when it ends with no winner.
pub pick : List Proc → (winner tracker i : ℕ) → Option ℕ
pick [] winner tracker i = none
pick (p ∷ ps) winner tracker i =
    if is_runnable p
    then if int_lt (uint (tracker + p.tickets)) winner
      then pick ps winner (uint (tracker + p.tickets)) (i + 1)
      else some i
    else pick ps winner tracker (i + 1)

-- `rand`, for the word of the generator: the most negative `int` has no opposite.
pub rand : ℕ → ℕ
rand word = if ltb word (2 ^ 31) then word else uint (2 ^ 32 - word)

-- The absolute value of an `int`
abbrev pub magnitude : ℕ → ℕ
magnitude n = if ltb n (2 ^ 31) then n else 2 ^ 32 - n

-- `randUpTo`; `none` is a division error. The sign of a remainder is that of the dividend.
pub rand_up_to : (word limit : ℕ) → Option ℕ
rand_up_to word limit =
    let r = rand word in
    let m = magnitude r % magnitude limit in
    if limit == 0 || (r == 2 ^ 31 && limit == 2 ^ 32 - 1)
    then none
    else some (if ltb r (2 ^ 31) then m else uint (2 ^ 32 - m))

-- How a round of the scheduler starts.
pub data Draw : Type 0 where
  winner_at : ℕ → Draw
  no_winner : Draw
  trap : Draw

pub drawn : Option ℕ → Draw
drawn none = no_winner
drawn (some i) = winner_at i

pub draw : (word : ℕ) → List Proc → Draw
draw word ps = elim (rand_up_to word (uint (total_tickets ps 0 + 1))) [
  | none ↦ trap
  | some ticket ↦ drawn (pick ps ticket 0 0)
]

-- `sys_settickets`; `none` is -1, for a bad or a non-positive argument.
pub set_tickets : Option ℕ → Proc → Option Proc
set_tickets none p = none
set_tickets (some n) p = if n == 0 || leb (2 ^ 31) n then none else some (set_tickets_util p n)

-- The rows that `sys_getpinfo` writes, in order
pub record PInfo : Type 0 where
  pub pid : ℕ
  pub inuse : Bool
  pub tickets : ℕ
  pub ticks : ℕ

pub get_pinfo : List Proc → List PInfo
get_pinfo [] = []
get_pinfo (p ∷ ps) =
    if is_unused p
    then get_pinfo ps
    else record { pid = p.pid; inuse = p.inuse; tickets = p.tickets; ticks = p.ticks }
      ∷ get_pinfo ps
