-- ===== src/Paging/Swap/Out.antt =====
-- What `SwapPageOut` does to the page of the chosen slot.
use cse314_operating_system.Base.{
  get_or-set_self, ℕ, ◌+◌, ◌^◌, ◌<◌, ◌≡◌, refl, ap, ◌∙◌, inl, inr, true, false, some, arith,
  if◌then◌else◌, Bool-cases, length,
}
use cse314_operating_system.Base.{has_bit, set_bit, clear_bit}
use cse314_operating_system.Kalloc.{Memory, kernbase}
use cse314_operating_system.Kalloc.Laws.{InRange, freed, kfree-some}
use cse314_operating_system.Vm.{Entry, read, write, walk, pte_addr, pte_p, pte_d, pte_pg}
use cse314_operating_system.Paging.{empty_page, PagingMetadata, page}
use cse314_operating_system.Paging.SwapFile.{write_to_swap_file}
use cse314_operating_system.Paging.Swap.{Kernel, save, mark_out, save_and_mark, swap_out_page}

-- The kernel once a page has been saved, if it was dirty.
abbrev pub saved : Entry → PagingMetadata → Kernel → Kernel
saved e g k =
    let pa = pte_addr (read k.mem e) in
    let dirty = has_bit (read k.mem e) pte_d in
    record k {
      mem = if dirty then freed k.mem pa else k.mem;
      file =
          if dirty
          then (write_to_swap_file k.file (k.mem.words pa) g.swap_file_location).0
          else k.file;
    }

save-saved :
    (e : Entry) (g : PagingMetadata) (k : Kernel)
    → InRange k.mem.first (pte_addr (read k.mem e))
    → save e g k ≡ some (saved e g k)
unfolding save
save-saved e g k r = elim (Bool-cases (has_bit (read k.mem e) pte_d)) [
  | inl dirty ↦ rw (dirty, kfree-some k.mem (pte_addr (read k.mem e)) r) refl
  | inr clean ↦ rw clean refl
]

-- The bits of an entry that is swapped out.
pub out_bits :
    (w : ℕ)
    → (has_bit (clear_bit (set_bit w pte_pg) pte_p) pte_p ≡ false)
      × (has_bit (clear_bit (set_bit w pte_pg) pte_p) pte_pg ≡ true)
out_bits w = (ground arith, ground arith)

pub read-write : (m : Memory) (e : Entry) (w : ℕ) → read (write m e w) e ≡ w
read-write m e w = ground arith

free_saved :
    (e : Entry) (g : PagingMetadata) (k : Kernel)
    → (saved e g k).mem.head
      ≡ (if has_bit (read k.mem e) pte_d then pte_addr (read k.mem e) + kernbase else k.mem.head)
free_saved e g k = elim (Bool-cases (has_bit (read k.mem e) pte_d)) [
  | inl dirty ↦ rw dirty refl
  | inr clean ↦ rw clean refl
]

-- The metadata of a page that is swapped out.
abbrev pub marked : PagingMetadata → PagingMetadata
marked g = record g { age = 0; used = true; exists_in_memory = false }

pub swap_out_page-saved :
    (v : ℕ) (k : Kernel) (e : Entry)
    → walk k.mem k.proc.pgdir (page k.proc.pages v).virtual_address ≡ some e
    → has_bit (read k.mem e) pte_p ≡ true
    → InRange k.mem.first (pte_addr (read k.mem e))
    → swap_out_page v k ≡ some (mark_out e v (saved e (page k.proc.pages v) k))
unfolding swap_out_page save_and_mark
swap_out_page-saved v k e w present r =
    rw (w, present, save-saved e (page k.proc.pages v) k r, swap_out_page, save_and_mark) refl

-- A page in memory that is swapped out: its entry is not present and paged out, its slot is in use and
-- out of memory, the pages counted are as many as before, and the frame is freed, as the first of the
-- free list, exactly if the page was dirty. It is asked that the slot exists, that the entry leads to a frame that `kfree` accepts,
-- and that the counts do not wrap.
pub swap_out_page_lem :
    (v : ℕ) (k : Kernel) (e : Entry)
    → v < length k.proc.pages
    → walk k.mem k.proc.pgdir (page k.proc.pages v).virtual_address ≡ some e
    → has_bit (read k.mem e) pte_p ≡ true
    → InRange k.mem.first (pte_addr (read k.mem e))
    → 0 < k.proc.memory_page_count
    → k.proc.memory_page_count + k.proc.file_page_count < 2 ^ 32
    → (k' : Kernel) × (swap_out_page v k ≡ some k')
      × (has_bit (read k'.mem e) pte_p ≡ false)
      × (has_bit (read k'.mem e) pte_pg ≡ true)
      × ((page k'.proc.pages v).exists_in_memory ≡ false)
      × ((page k'.proc.pages v).used ≡ true)
      × (k'.proc.memory_page_count + k'.proc.file_page_count
          ≡ k.proc.memory_page_count + k.proc.file_page_count)
      × (k'.mem.head ≡ (
          if has_bit (read k.mem e) pte_d then pte_addr (read k.mem e) + kernbase else k.mem.head))
unfolding mark_out
swap_out_page_lem v k e lt w present r pos fits =
    let s = saved e (page k.proc.pages v) k in
    let bits = out_bits (read s.mem e) in
    let entry = read-write s.mem e (clear_bit (set_bit (read s.mem e) pte_pg) pte_p) in
    let slot = get_or-set_self k.proc.pages v (marked (page k.proc.pages v)) empty_page lt in
    (
      mark_out e v s,
      swap_out_page-saved v k e w present r,
      ap (λ w. has_bit w pte_p) entry ∙ bits.0,
      ap (λ w. has_bit w pte_pg) entry ∙ bits.1,
      ap (λ g. g.exists_in_memory) slot,
      ap (λ g. g.used) slot,
      omega arith,
      free_saved e (page k.proc.pages v) k,
    )
