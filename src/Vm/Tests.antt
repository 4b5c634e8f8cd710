-- ===== src/Vm/Tests.antt =====
-- A page directory with one table, and its theorems there.
use cse314_operating_system.Base.{◌≡◌, refl, true, ◌%◌, ◌&&◌, some, arith, ◌==◌, if◌then◌else◌}
use cse314_operating_system.Base.{has_bit}
use cse314_operating_system.Kalloc.{Memory, kalloc}
use cse314_operating_system.Vm.{pte_addr, Entry, read, write, walk, walk_alloc}
use cse314_operating_system.Vm.Map.{mapped, map_page, enter_pte, walk-map_page}

-- The directory is at 0x400000 and its first table at 0x401000, with no page mapped.
abbrev tables : Memory
tables = record {
  first = 0x300000;
  words = λ q i. if q == 0x400000 && i == 0 then 0x401007 else 0;
  head = 0x80500000;
}

abbrev after : Memory
after = write tables (record { table = 0x401000; index = 3 }) 0x402007

maps : map_page tables 0x400000 0x3000 0x402000 6 ≡ mapped after
unfolding map_page enter_pte walk_alloc walk
maps = refl

walk-map_page_example :
    (e : Entry) × (walk after 0x400000 0x3000 ≡ some e)
    × (has_bit (read after e) 1 ≡ true)
    × (pte_addr (read after e) ≡ 0x402000)
    × (read after e % 4096 ≡ 7)
unfolding kalloc
walk-map_page_example =
    walk-map_page tables after 0x400000 0x3000 0x402000 6 refl (omega arith)
      (λ h e. absurd (omega (arith, e))) (λ q e. ground (arith, e)) maps
