-- ===== src/Paging/Swap/Lost.antt =====
-- A dirty page that `SwapPageOut` cannot write to the swap file.
use cse314_operating_system.Base.{
  get_or-set_self, ℕ, ◌+◌, ◌<◌, ◌≡◌, refl, ap, ◌∙◌, ◌≢◌, ◌⊎◌, true, false, some, arith, length,
}
use cse314_operating_system.Base.{has_bit, set_bit, clear_bit}
use cse314_operating_system.Kalloc.{Memory, kernbase}
use cse314_operating_system.Kalloc.Laws.{InRange, freed, freed_junk}
use cse314_operating_system.Vm.{Entry, read, write, walk, pte_addr, pte_p, pte_d, pte_pg}
use cse314_operating_system.Paging.{empty_page, PagingMetadata, page}
use cse314_operating_system.Paging.SwapFile.Laws.{write_to_swap_file-lost}
use cse314_operating_system.Paging.Swap.{
  Algorithm, Kernel, victim, mark_out, swap_out_page, swap_out,
}
use cse314_operating_system.Paging.Swap.Out.{
  saved, marked, out_bits, read-write, swap_out_page-saved,
}

-- The write fails, and only the frame is freed.
saved-lost :
    (e : Entry) (g : PagingMetadata) (k : Kernel)
    → has_bit (read k.mem e) pte_d ≡ true
    → (k.file.size < g.swap_file_location) ⊎ (71680 < g.swap_file_location + 1536)
    → saved e g k ≡ record k { mem = freed k.mem (pte_addr (read k.mem e)) }
saved-lost e g k dirty lost =
    let failed =
      write_to_swap_file-lost k.file (k.mem.words (pte_addr (read k.mem e))) g.swap_file_location
        lost in
    rw (dirty, failed) refl

elsewhere :
    (m : Memory) (e : Entry) (pa i w : ℕ) → pa ≢ e.table → (write m e w).words pa i ≡ m.words pa i
elsewhere m e pa i w ne = ground arith

swap_out-chosen :
    (a : Algorithm) (v : ℕ) (k : Kernel)
    → victim a k.proc ≡ some v
    → swap_out a k ≡ swap_out_page v k
unfolding swap_out
swap_out-chosen a v k chosen = rw (chosen, swap_out) refl

-- A dirty page whose place is behind the end of the swap file, or whose first chunk goes beyond the largest file,
-- is lost when `SwapPageOut` chooses it, under either algorithm: there is no panic and the swap file is as it was, but
-- the frame is the first of the free list and filled with ones behind the link, the entry says that the page is paged
-- out and not present, and its slot that it is in the file. It is asked that the entry leads to a frame that
-- `kfree` accepts and does not lie in that frame itself.
pub swap_out-lost :
    (a : Algorithm) (v : ℕ) (k : Kernel) (e : Entry)
    → victim a k.proc ≡ some v
    → v < length k.proc.pages
    → walk k.mem k.proc.pgdir (page k.proc.pages v).virtual_address ≡ some e
    → has_bit (read k.mem e) pte_p ≡ true
    → has_bit (read k.mem e) pte_d ≡ true
    → InRange k.mem.first (pte_addr (read k.mem e))
    → pte_addr (read k.mem e) ≢ e.table
    → (k.file.size < (page k.proc.pages v).swap_file_location)
      ⊎ (71680 < (page k.proc.pages v).swap_file_location + 1536)
    → (k' : Kernel) × (swap_out a k ≡ some k')
      × (k'.file ≡ k.file)
      × (k'.mem.head ≡ pte_addr (read k.mem e) + kernbase)
      × ((i : ℕ) → i ≢ 0 → k'.mem.words (pte_addr (read k.mem e)) i ≡ 0x01010101)
      × (has_bit (read k'.mem e) pte_p ≡ false)
      × (has_bit (read k'.mem e) pte_pg ≡ true)
      × (page k'.proc.pages v
          ≡ record (page k.proc.pages v) { age = 0; used = true; exists_in_memory = false })
unfolding mark_out
swap_out-lost a v k e chosen lt w present dirty r apart lost =
    let pa = pte_addr (read k.mem e) in
    let s : Kernel = record k { mem = freed k.mem pa } in
    let bits = out_bits (read s.mem e) in
    let entry = read-write s.mem e (clear_bit (set_bit (read s.mem e) pte_pg) pte_p) in
    (
      mark_out e v s,
      swap_out-chosen a v k chosen
          ∙ swap_out_page-saved v k e w present r
          ∙ ap (λ x. some (mark_out e v x)) (saved-lost e (page k.proc.pages v) k dirty lost),
      refl,
      refl,
      λ i ne. elsewhere s.mem e pa i _ apart ∙ freed_junk k.mem pa i ne,
      ap (λ w. has_bit w pte_p) entry ∙ bits.0,
      ap (λ w. has_bit w pte_pg) entry ∙ bits.1,
      get_or-set_self k.proc.pages v (marked (page k.proc.pages v)) empty_page lt,
    )
