-- ===== src/Vm/Free.antt =====
-- `deallocuvm` and `freevm` of Offline 3/xv6/vm.c (the same in Offline 4/xv6).
use cse314_operating_system.Base.{
  ℕ, zero, suc, ◌+◌, ◌-◌, ◌*◌, ◌/◌, ◌%◌, ◌^◌, ◌≤◌, ◌<◌, ◌≡◌, ◌≢◌, inl, inr, false, Option, none,
  some, arith, ltb, leb, ◌==◌, if◌then◌else◌, ltb→lt, Bool-cases, Option-cases,
}
use cse314_operating_system.Base.{uint, has_bit}
use cse314_operating_system.Kalloc.{Memory, kfree}
use cse314_operating_system.Vm.{Entry, read, write, walk, pdx, pte_addr, pte_p, pg_round_up}

-- How `deallocuvm` ends: with the memory after it, with a panic, or not within the fuel.
pub data Freed : Type 0 where
  freed : Memory → Freed
  panic : Freed
  runs_on : Freed

-- The page of an entry that is present
pub free_page : Memory → Entry → Option Memory
free_page m e =
    let pa = pte_addr (read m e) in
    if pa == 0 then none else elim (kfree m pa) [ none ↦ none | some m' ↦ some (write m' e 0) ]

pub free_entry : Memory → Entry → Option Memory
free_entry m e = if has_bit (read m e) pte_p then free_page m e else some m

-- Where the loop goes on: at the next table if there is none here.
pub next_address : (a : ℕ) → Option Entry → ℕ
next_address a none = uint (uint ((pdx a + 1) * 2 ^ 22) + 2 ^ 32 - 4096 + 4096)
next_address a (some e) = uint (a + 4096)

pub free_at : Memory → Option Entry → Option Memory
free_at m none = some m
free_at m (some e) = free_entry m e

pub dealloc_from : (fuel : ℕ) → Memory → (pgdir a oldsz : ℕ) → Freed
dealloc_from zero m pgdir a oldsz = if ltb a oldsz then runs_on else freed m
dealloc_from (suc f) m pgdir a oldsz =
    if ltb a oldsz
    then elim (free_at m (walk m pgdir a)) [
      | none ↦ panic
      | some m' ↦ dealloc_from f m' pgdir (next_address a (walk m pgdir a)) oldsz
    ]
    else freed m

-- `deallocuvm`; its result is `newsz`, or `oldsz` when there is nothing to free.
pub dealloc : Memory → (pgdir oldsz newsz : ℕ) → Freed
dealloc m pgdir oldsz newsz =
    if leb oldsz newsz
    then freed m
    else dealloc_from (oldsz / 4096 + 1) m pgdir (pg_round_up newsz) oldsz

-- The loop of `freevm` over the directory, from entry `i` on
pub free_tables : (n i : ℕ) → Memory → (pgdir : ℕ) → Option Memory
free_tables zero i m pgdir = some m
free_tables (suc n) i m pgdir =
    let pde = m.words pgdir i in
    if has_bit pde pte_p
    then elim (kfree m (pte_addr pde)) [ none ↦ none | some m' ↦ free_tables n (i + 1) m' pgdir ]
    else free_tables n (i + 1) m pgdir

pub free_directory : Freed → (pgdir : ℕ) → Option Memory
free_directory (freed m) pgdir = elim (free_tables 1024 0 m pgdir) [
  | none ↦ none
  | some m' ↦ kfree m' pgdir
]
free_directory _ pgdir = none

-- `freevm` of a directory that is not null; `none` is a panic.
pub free_vm : Memory → (pgdir : ℕ) → Option Memory
free_vm m pgdir = free_directory (dealloc m pgdir (2 ^ 31) 0) pgdir

next_address-later :
    (a : ℕ) (o : Option Entry)
    → a < 2 ^ 31
    → a % 4096 ≡ 0
    → (a + 4096 ≤ next_address a o) × (next_address a o % 4096 ≡ 0)
unfolding next_address
next_address-later a none lt al = (omega arith, omega arith)
next_address-later a (some e) lt al = (omega arith, omega arith)

not_freed : (m : Memory) → freed m ≢ runs_on
not_freed m e = grind (arith, e)

not_panic : panic ≢ runs_on
not_panic e = grind (arith, e)

dealloc_from-ends :
    (f : ℕ) (m : Memory) (pgdir a oldsz : ℕ)
    → oldsz ≤ 2 ^ 31
    → a % 4096 ≡ 0
    → oldsz ≤ a + f * 4096
    → dealloc_from f m pgdir a oldsz ≢ runs_on
unfolding dealloc_from
dealloc_from-ends zero m pgdir a oldsz small al enough =
    let over : ltb a oldsz ≡ false = ground arith in rw (over, dealloc_from) (not_freed m)
dealloc_from-ends (suc f) m pgdir a oldsz small al enough = elim (Bool-cases (ltb a oldsz)) [
  | inr over ↦ rw (over, dealloc_from) (not_freed m)
  | inl more ↦ elim (Option-cases (free_at m (walk m pgdir a))) [
    | inl bad ↦ rw (more, bad, dealloc_from) not_panic
    | inr (m', q) ↦
        let lt = ltb→lt a oldsz more in
        let (later, al') = next_address-later a (walk m pgdir a) (omega arith) al in
        rw (more, q, dealloc_from)
          (dealloc_from-ends f m' pgdir (next_address a (walk m pgdir a)) oldsz small al'
            (omega arith))
  ]
]

-- `deallocuvm` ends within one round for each page of the old size and one more, if that size is at
-- most KERNBASE, whatever page tables it finds.
pub dealloc-ends :
    (m : Memory) (pgdir oldsz newsz : ℕ) → oldsz ≤ 2 ^ 31 → dealloc m pgdir oldsz newsz ≢ runs_on
unfolding dealloc
dealloc-ends m pgdir oldsz newsz small = elim (Bool-cases (leb oldsz newsz)) [
  | inl nothing ↦ rw (nothing, dealloc) (not_freed m)
  | inr some_pages ↦
      rw (some_pages, dealloc)
        (dealloc_from-ends (oldsz / 4096 + 1) m pgdir (pg_round_up newsz) oldsz small (omega arith)
          (omega arith))
]
