-- ===== src/Args.antt =====
-- The arguments of system calls, in Offline 4/xv6/syscall.c (the same in Offline 3/xv6): numbers, strings and buffers
-- of the caller, which the kernel must find inside the caller's memory.
pub mod Within
mod Tests
use cse314_operating_system.Base.{
  ℕ, zero, suc, ◌+◌, ◌-◌, ◌*◌, ◌/◌, ◌%◌, ◌^◌, ◌≤◌, ◌<◌, min, ◌≡◌, refl, sym, ap, ap₂, subst, ◌∙◌,
  fun_ext, ◌≢◌, ◌↔◌, ◌⊎◌, inl, inr, Bool, true, false, not, ◌&&◌, ◌||◌, Option, none, some, List,
  [], ◌∷◌, ◌++◌, map, append-nil, append_assoc, arith, dec_lt, ℕ_discrete, ltb, leb, ◌==◌,
  if◌then◌else◌, ltb→lt, lt→ltb, leb→le, ==_iff, Bool-cases, Option-cases, length, get_elem?,
  get_or, set, take, drop, replicate, All, length-append, length-set,
}
use cse314_operating_system.Base.{uint}
use cse314_operating_system.Strings.{Bytes}

-- The process that made the call: its size, its stack pointer and its memory
pub record Caller : Type 0 where
  pub sz : ℕ
  pub esp : ℕ
  pub memory : Bytes

abbrev pub int_at : Bytes → (addr : ℕ) → ℕ
int_at m addr = m addr + m (addr + 1) * 2 ^ 8 + m (addr + 2) * 2 ^ 16 + m (addr + 3) * 2 ^ 24

-- `fetchint`; `none` is -1.
pub fetchint : Caller → (addr : ℕ) → Option ℕ
fetchint c addr =
    if leb c.sz addr || ltb c.sz (uint (addr + 4)) then none else some (int_at c.memory addr)

-- The loop of `fetchstr`, with `n` bytes up to `ep`: the length from `s` on
pub length_from : Bytes → (n s : ℕ) → Option ℕ
length_from m zero s = none
length_from m (suc n) s = elim (m s == 0) [
  | true ↦ some 0
  | false ↦ elim (length_from m n (s + 1)) [ none ↦ none | some len ↦ some (suc len) ]
]

-- `fetchstr`: the address that it sets, and the length
pub fetchstr : Caller → (addr : ℕ) → Option (ℕ × ℕ)
fetchstr c addr = if leb c.sz addr then none else elim (length_from c.memory (c.sz - addr) addr) [
  | none ↦ none
  | some len ↦ some (addr, len)
]

-- `argint`
pub argint : Caller → (n : ℕ) → Option ℕ
argint c n = fetchint c (uint (c.esp + 4 + 4 * n))

-- `argptr` for a buffer of `size` bytes, an `int` of which these are the 32 bits
pub argptr : Caller → (n size : ℕ) → Option ℕ
argptr c n size = elim (argint c n) [
  | none ↦ none
  | some i ↦ if leb (2 ^ 31) size || leb c.sz i || ltb c.sz (uint (i + size)) then none else some i
]

-- `argstr`
pub argstr : Caller → (n : ℕ) → Option (ℕ × ℕ)
argstr c n = elim (argint c n) [ none ↦ none | some addr ↦ fetchstr c addr ]
