-- ===== src/Vm/User.antt =====
-- `allocuvm` and `copyuvm` of Offline 3/xv6/vm.c, which grow a process and copy it.
use cse314_operating_system.Base.{
  ℕ, zero, suc, ◌+◌, ◌-◌, ◌/◌, ◌%◌, ◌^◌, ◌⊎◌, inl, inr, Bool, true, false, Option, none, some, ltb,
  leb, ◌==◌, if◌then◌else◌,
}
use cse314_operating_system.Kalloc.{Memory, fill, kfree, kalloc}
use cse314_operating_system.Vm.{read, walk, pte_addr, pg_round_up}
use cse314_operating_system.Vm.Map.{mapped, no_memory, remap, map_page}
use cse314_operating_system.Vm.Free.{Freed, freed, dealloc, free_vm}

-- How `allocuvm` ends: with the new size, with 0 and the memory after it, or with a panic.
pub data Grown : Type 0 where
  grown : Memory → Grown
  shrunk_back : Memory → Grown
  panics : Grown

-- The way out when memory is short: `mem` is a page that was not mapped.
pub give_up : (pgdir oldsz newsz : ℕ) → Option ℕ → Freed → Grown
give_up pgdir oldsz newsz none (freed m) = shrunk_back m
give_up pgdir oldsz newsz (some pa) (freed m) = elim (kfree m pa) [
  | none ↦ panics
  | some m' ↦ shrunk_back m'
]
give_up pgdir oldsz newsz mem _ = panics

-- One round of the loop, once `kalloc` has answered: the page mapped, or the way out.
pub map_zeroed : (pgdir a oldsz newsz : ℕ) → Memory × Option ℕ → Memory ⊎ Grown
map_zeroed pgdir a oldsz newsz (m, none) =
    inr (give_up pgdir oldsz newsz none (dealloc m pgdir newsz oldsz))
map_zeroed pgdir a oldsz newsz (m, some pa) = elim (map_page (fill m pa 0) pgdir a pa 6) [
  | mapped m' ↦ inl m'
  | no_memory m' ↦ inr (give_up pgdir oldsz newsz (some pa) (dealloc m' pgdir newsz oldsz))
  | remap ↦ inr panics
]

-- The loop, with one round for each page from `a` on
pub alloc_from : (rounds : ℕ) → Memory → (pgdir a oldsz newsz : ℕ) → Grown
alloc_from zero m pgdir a oldsz newsz = grown m
alloc_from (suc n) m pgdir a oldsz newsz = elim (map_zeroed pgdir a oldsz newsz (kalloc m)) [
  | inl m' ↦ alloc_from n m' pgdir (a + 4096) oldsz newsz
  | inr out ↦ out
]

-- `allocuvm` for sizes up to KERNBASE; `none` is 0 for a size too large, and nothing happens when the new size
-- is below the old.
pub alloc : Memory → (pgdir oldsz newsz : ℕ) → Option Grown
alloc m pgdir oldsz newsz =
    let a = pg_round_up oldsz in
    if leb (2 ^ 31) newsz
    then none
    else if ltb newsz oldsz
    then some (grown m)
    else some (alloc_from ((newsz + 4095 - a) / 4096) m pgdir a oldsz newsz)

-- One round of `copyuvm`: the page at address `i` with entry `pte`, into the directory `d`. `none` is a panic.
pub copy_mapped : Memory → (d i pa flags mem : ℕ) → Option (Memory × Bool)
copy_mapped m d i pa flags mem =
    elim (map_page (record m { words = λ q j. if q == mem then m.words pa j else m.words q j }) d i
      mem flags) [
        | mapped m' ↦ some (m', true)
        | no_memory m' ↦ elim (kfree m' mem) [ none ↦ none | some m'' ↦ some (m'', false) ]
        | remap ↦ none
      ]

pub copy_page : (d i pte : ℕ) → Memory × Option ℕ → Option (Memory × Bool)
copy_page d i pte (m, none) = some (m, false)
copy_page d i pte (m, some mem) = copy_mapped m d i (pte_addr pte) (pte % 4096) mem

pub copy_round : Memory → (pgdir d i : ℕ) → Option (Memory × Bool)
copy_round m pgdir d i = elim (walk m pgdir i) [
  | none ↦ none
  | some e ↦ if read m e % 2 == 1 then copy_page d i (read m e) (kalloc m) else none
]

-- The loop of `copyuvm` and its `bad`, with `d` from `setupkvm`: the flag is false for the result 0.
pub copy_from : (rounds : ℕ) → Memory → (pgdir d i : ℕ) → Option (Memory × Bool)
copy_from zero m pgdir d i = some (m, true)
copy_from (suc n) m pgdir d i = elim (copy_round m pgdir d i) [
  | none ↦ none
  | some (m', true) ↦ copy_from n m' pgdir d (i + 4096)
  | some (m', false) ↦ elim (free_vm m' d) [ none ↦ none | some m'' ↦ some (m'', false) ]
]
