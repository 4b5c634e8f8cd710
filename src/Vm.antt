-- ===== src/Vm.antt =====
-- Offline 4/xv6/vm.c and the address macros of Offline 4/xv6/mmu.h: page tables in physical memory.
-- A page directory and a page table are pages of `Memory`, named by their physical address; an entry
-- of a table is named by the table's page and the index in it.
pub mod Map
pub mod Free
pub mod User
mod Tests
use cse314_operating_system.Base.{
  ℕ, ◌+◌, ◌*◌, ◌/◌, ◌%◌, ◌^◌, ◌&&◌, Option, none, some, ◌==◌, if◌then◌else◌,
}
use cse314_operating_system.Base.{uint, has_bit, set_bit}
use cse314_operating_system.Kalloc.{Memory, fill, kalloc}

-- PTE_P, PTE_W, PTE_U, PTE_A, PTE_D, PTE_PG
abbrev pub pte_p : ℕ
pte_p = 0x001

abbrev pub pte_w : ℕ
pte_w = 0x002

abbrev pub pte_u : ℕ
pte_u = 0x004

abbrev pub pte_a : ℕ
pte_a = 0x020

abbrev pub pte_d : ℕ
pte_d = 0x040

abbrev pub pte_pg : ℕ
pte_pg = 0x200

-- PDX, PTX, PTE_ADDR, PGROUNDUP and PGROUNDDOWN, of 32-bit arguments
abbrev pub pdx : ℕ → ℕ
pdx va = va / 2 ^ 22 % 1024

abbrev pub ptx : ℕ → ℕ
ptx va = va / 2 ^ 12 % 1024

abbrev pub pte_addr : ℕ → ℕ
pte_addr pte = pte / 4096 * 4096

abbrev pub pg_round_up : ℕ → ℕ
pg_round_up sz = uint (sz + 4095) / 4096 * 4096

abbrev pub pg_round_down : ℕ → ℕ
pg_round_down a = a / 4096 * 4096

-- `pa | PTE_W | PTE_U | PTE_P`
abbrev pub user_pte : ℕ → ℕ
user_pte pa = set_bit (set_bit (set_bit pa pte_w) pte_u) pte_p

pub record Entry : Type 0 where
  pub table : ℕ
  pub index : ℕ

abbrev pub read : Memory → Entry → ℕ
read m e = m.words e.table e.index

-- `*pte = w`
abbrev pub write : Memory → Entry → ℕ → Memory
write m e w = record m { words = λ q i. if q == e.table && i == e.index then w else m.words q i }

-- `walkpgdir` with `alloc` 0; `none` is the null pointer.
unfoldable pub walk : Memory → (pgdir va : ℕ) → Option Entry
walk m pgdir va =
    let pde = m.words pgdir (pdx va) in
    if has_bit pde pte_p then some (record { table = pte_addr pde; index = ptx va }) else none

-- A page for a new table, cleared and entered in the directory.
pub add_table : Memory → (pgdir va pgtab : ℕ) → Memory
add_table m pgdir va pgtab =
    write (fill m pgtab 0) (record { table = pgdir; index = pdx va }) (user_pte pgtab)

pub new_table : (pgdir va : ℕ) → Memory × Option ℕ → Memory × Option Entry
unfolding add_table
new_table pgdir va (m, none) = (m, none)
new_table pgdir va (m, some pgtab) =
    (add_table m pgdir va pgtab, some (record { table = pgtab; index = ptx va }))

-- `walkpgdir` with `alloc` 1
unfoldable pub walk_alloc : Memory → (pgdir va : ℕ) → Memory × Option Entry
unfolding walk new_table
walk_alloc m pgdir va = elim (walk m pgdir va) [
  | some e ↦ (m, some e)
  | none ↦ new_table pgdir va (kalloc m)
]
