-- ===== src/Spinlock.antt =====
-- Offline 4/xv6/spinlock.c (the same file in Offline 3/xv6): spin locks, and the matched disabling of interrupts.
-- Call stacks recorded for debugging are left out.
pub mod Exclusion
mod Tests
use cse314_operating_system.Base.{
  ℕ, zero, suc, ◌+◌, ◌-◌, ◌*◌, ◌/◌, ◌%◌, ◌^◌, ◌≤◌, ◌<◌, min, ◌≡◌, refl, sym, ap, ap₂, subst, ◌∙◌,
  fun_ext, ◌≢◌, ◌↔◌, ◌⊎◌, inl, inr, Bool, true, false, not, ◌&&◌, ◌||◌, Option, none, some, List,
  [], ◌∷◌, ◌++◌, map, append-nil, append_assoc, arith, dec_lt, ℕ_discrete, ltb, leb, ◌==◌,
  if◌then◌else◌, ltb→lt, lt→ltb, leb→le, ==_iff, Bool-cases, Option-cases, length, get_elem?,
  get_or, set, take, drop, replicate, All, length-append, length-set,
}

-- The fields of `struct cpu`, and the interrupt flag of the processor
pub record Cpu : Type 0 where
  pub ncli : ℕ
  pub intena : Bool
  pub interrupts : Bool

pub pushcli : Cpu → Cpu
pushcli c = record {
  ncli = c.ncli + 1;
  intena = if c.ncli == 0 then c.interrupts else c.intena;
  interrupts = false;
}

-- `none` is one of its panics.
pub popcli : Cpu → Option Cpu
popcli c =
    if c.interrupts || c.ncli == 0
    then none
    else some (record c { ncli = c.ncli - 1; interrupts = c.ncli == 1 && c.intena })

-- `struct spinlock`; the processor is named by its index, and `none` is the null pointer.
pub record Lock : Type 0 where
  pub locked : Bool
  pub cpu : Option ℕ

pub init_lock : Lock
init_lock = record { locked = false; cpu = none }

abbrev pub is_cpu : ℕ → Option ℕ → Bool
is_cpu i none = false
is_cpu i (some j) = j == i

-- `holding`, between its `pushcli` and `popcli`
abbrev pub holding : ℕ → Lock → Bool
holding i l = l.locked && is_cpu i l.cpu

-- `acquire`: the exchange, with what was there before, and then the owner
pub xchg : Lock → Lock × Bool
xchg l = (record l { locked = true }, l.locked)

pub record_owner : ℕ → Lock → Lock
record_owner i l = record l { cpu = some i }

-- `release`: first the owner, then the flag
pub clear_owner : Lock → Lock
clear_owner l = record l { cpu = none }

pub unlock : Lock → Lock
unlock l = record l { locked = false }
