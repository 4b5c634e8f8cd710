-- ===== src/Paging/Fifo/Tests.antt =====
-- The theorems on FIFO at a process with three pages, the first of them swapped out.
use cse314_operating_system.Base.{◌≡◌, refl, true, false, some, ◌∷◌, replicate}
use cse314_operating_system.Paging.{PagingMetadata, Process, empty_page}
use cse314_operating_system.Paging.Fifo.{
  get_unused_slot, update_start_index, scan_back, slot_after, scan_forward,
}

abbrev in_memory : PagingMetadata
in_memory = record empty_page { exists_in_memory = true; used = true; virtual_address = 0x5000 }

abbrev three_pages : Process
three_pages = record {
  pid = 3;
  pgdir = 0x400000;
  pages =
      record in_memory { exists_in_memory = false }
      ∷ in_memory
      ∷ in_memory
      ∷ replicate 27 empty_page;
  memory_page_count = 2;
  file_page_count = 1;
  start_index = 0;
}

next_slot : get_unused_slot three_pages ≡ some 3
unfolding get_unused_slot slot_after scan_back
next_slot = refl

next_start : update_start_index 15 three_pages ≡ some (record three_pages { start_index = 1 })
unfolding update_start_index scan_forward
next_start = refl
