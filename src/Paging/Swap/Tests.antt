-- ===== src/Paging/Swap/Tests.antt =====
-- Swapping in a process whose first fifteen pages are in memory.
use cse314_operating_system.Base.{
  has_bit, inl, ◌≢◌, ℕ, zero, suc, ◌+◌, ◌%◌, ◌<◌, ◌≡◌, refl, true, false, some, List, [], ◌∷◌, ◌++◌,
  arith, ◌==◌, if◌then◌else◌, replicate, All,
}
use cse314_operating_system.Kalloc.{Memory}
use cse314_operating_system.Vm.{Entry, walk, read, pte_p, pte_pg}
use cse314_operating_system.Paging.{PagingMetadata, Process, page, empty_page}
use cse314_operating_system.Paging.Aging.{next_swapped_aging, scan_ages}
use cse314_operating_system.Paging.Swap.Lost.{swap_out-lost}
use cse314_operating_system.Paging.Swap.{
  victim, swap_out, fifo, aging, Kernel, find_swapped, add_page, swap_in,
}
use cse314_operating_system.Paging.Swap.In.{
  IsAligned, swap_in-misaligned, swap_in-file, with_file, but_file,
}
use cse314_operating_system.Paging.Swap.Forget.{fifo_forgets}

-- The page at `va`, in memory
abbrev resident : (va : ℕ) → PagingMetadata
resident va = record {
  exists_in_memory = true;
  virtual_address = va;
  swap_file_location = va;
  used = true;
  age = 0;
}

-- The pages from `va` on
abbrev run : (n va : ℕ) → List PagingMetadata
run zero va = []
run (suc n) va = resident va ∷ run n (va + 4096)

abbrev full_process : Process
full_process = record {
  pid = 3;
  pgdir = 0x400000;
  pages = run 15 0 ++ replicate 15 empty_page;
  memory_page_count = 15;
  file_page_count = 0;
  start_index = 0;
}

-- The directory is at 0x400000; every entry of its first table leads to a dirty page.
abbrev full_kernel : Kernel
full_kernel = record {
  proc = full_process;
  mem = record {
    first = 0x300000;
    words = λ q i. if q == 0x400000 then 0x401007 else 0x402047;
    head = 0x80500000;
  };
  file = record { size = 0; words = λ k. 0 };
}

abbrev first_entry : Entry
first_entry = record { table = 0x401000; index = 0 }

used-run :
    (n va : ℕ) (rest : List PagingMetadata) (i : ℕ)
    → i < n
    → (page (run n va ++ rest) i).used ≡ true
used-run zero va rest i lt = absurd (omega arith)
used-run (suc n) va rest zero lt = refl
used-run (suc n) va rest (suc i) lt = used-run n (va + 4096) rest i (omega arith)

IsAligned-empty : (n : ℕ) → All IsAligned (replicate n empty_page)
IsAligned-empty zero = tt
IsAligned-empty (suc n) = (λ e. absurd (grind (arith, e)), IsAligned-empty n)

IsAligned-run : (n va : ℕ) → va % 4096 ≡ 0 → All IsAligned (run n va ++ replicate 15 empty_page)
IsAligned-run zero va e = IsAligned-empty 15
IsAligned-run (suc n) va e = (λ u. e, IsAligned-run n (va + 4096) (omega arith))

fifo_forgets_example :
    (k' : Kernel) × (m : Memory) × (add_page fifo 0xf000 full_kernel ≡ some k')
    × (k'.proc.memory_page_count ≡ 15)
    × (swap_in fifo 0 k' ≡ some (record k' { mem = m }, false))
unfolding walk find_swapped
fifo_forgets_example =
    fifo_forgets full_kernel first_entry 0xf000 0 (omega arith) refl
      (used-run 15 0 (replicate 15 empty_page)) refl refl (omega arith) refl

swap_in-misaligned_example :
    (m : Memory) × (swap_in aging 0x2004 full_kernel ≡ some (record full_kernel { mem = m }, false))
swap_in-misaligned_example =
    swap_in-misaligned aging 0x2004 full_kernel (IsAligned-run 15 0 refl)
      (λ e. absurd (omega (arith, e)))

swap_in-file_example :
    but_file (swap_in fifo 0 (with_file full_kernel (record { size = 4096; words = λ k. 7 })))
    ≡ but_file (swap_in fifo 0 full_kernel)
swap_in-file_example = swap_in-file fifo 0 full_kernel (record { size = 4096; words = λ k. 7 })

-- The first page was referenced not long ago, and the swap file is empty.
abbrev aged_kernel : Kernel
aged_kernel = record full_kernel {
  proc = record full_process {
    pages = record (resident 0) { age = 4 } ∷ run 14 4096 ++ replicate 15 empty_page;
  };
}

abbrev second_entry : Entry
second_entry = record { table = 0x401000; index = 1 }

second_chosen : victim aging aged_kernel.proc ≡ some 1
unfolding victim next_swapped_aging scan_ages
second_chosen = refl

swap_out-lost_example :
    (k' : Kernel) × (swap_out aging aged_kernel ≡ some k')
    × (k'.file ≡ aged_kernel.file)
    × (k'.mem.head ≡ 0x80402000)
    × ((i : ℕ) → i ≢ 0 → k'.mem.words 0x402000 i ≡ 0x01010101)
    × (has_bit (read k'.mem second_entry) pte_p ≡ false)
    × (has_bit (read k'.mem second_entry) pte_pg ≡ true)
    × (page k'.proc.pages 1 ≡ record (resident 4096) { exists_in_memory = false })
unfolding walk
swap_out-lost_example =
    swap_out-lost aging 1 aged_kernel second_entry second_chosen (omega arith) refl refl refl
      (omega arith) (omega arith) (inl (omega arith))
