-- ===== src/Paging/Aging/Tests.antt =====
-- The theorems on aging at a process with two pages, of which the second was referenced.
use cse314_operating_system.Base.{
  ℕ, ◌/◌, ◌≤◌, ◌≡◌, refl, true, false, some, ◌∷◌, arith, ◌==◌, if◌then◌else◌, replicate,
}
use cse314_operating_system.Kalloc.{Memory}
use cse314_operating_system.Paging.{PagingMetadata, Process, page, empty_page}
use cse314_operating_system.Paging.Aging.{is_resident, age_pages, next_swapped_aging, scan_ages}
use cse314_operating_system.Paging.Aging.Victim.{referenced, victim_unreferenced}

abbrev in_memory : (va age : ℕ) → PagingMetadata
in_memory va age = record {
  exists_in_memory = true;
  virtual_address = va;
  swap_file_location = va;
  used = true;
  age = age;
}

-- The directory is at 0x400000 and its first table at 0x401000.
abbrev tables : Memory
tables = record {
  first = 0x300000;
  words = λ q i. if q == 0x400000 then 0x401007 else if i == 1 then 0x403027 else 0x402007;
  head = 0;
}

abbrev two_pages : Process
two_pages = record {
  pid = 3;
  pgdir = 0x400000;
  pages = in_memory 0 9 ∷ in_memory 0x1000 4 ∷ replicate 28 empty_page;
  memory_page_count = 2;
  file_page_count = 0;
  start_index = 0;
}

youngest : next_swapped_aging two_pages ≡ some 1
unfolding next_swapped_aging scan_ages
youngest = refl

victim_unreferenced_example :
    (v : ℕ) × (next_swapped_aging
        (record two_pages { pages = (age_pages 0x400000 two_pages.pages tables).0 })
      ≡ some v)
    × (is_resident (page two_pages.pages v) ≡ true)
    × (referenced 0x400000 two_pages.pages tables v ≡ false)
    × ((page two_pages.pages v).age / 2 ≤ 9 / 2)
unfolding age_pages
victim_unreferenced_example = victim_unreferenced two_pages tables 0 refl (omega arith) refl
