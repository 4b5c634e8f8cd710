-- ===== src/Paging/Swap/Forget.antt =====
-- `allocuvm` entering a page while MAX_PSYC_PAGES pages are in memory, with FIFO.
use cse314_operating_system.Base.{
  ℕ, zero, suc, ◌+◌, ◌*◌, ◌<◌, ◌≡◌, refl, ap, Bool, true, false, not, ◌&&◌, Option, none, some,
  List, [], ◌∷◌, arith, ◌==◌, if◌then◌else◌, set,
}
use cse314_operating_system.Base.{uint, has_bit, int_ge}
use cse314_operating_system.Kalloc.{Memory}
use cse314_operating_system.Kalloc.Laws.{InRange}
use cse314_operating_system.Vm.{Entry, read, walk, pte_addr, pte_p}
use cse314_operating_system.Paging.{PagingMetadata, Process, page}
use cse314_operating_system.Paging.Fifo.{get_unused_slot, next_swapped_fifo}
use cse314_operating_system.Paging.Fifo.Slot.{get_unused_slot_full}
use cse314_operating_system.Paging.Swap.{
  fifo, Kernel, victim, mark_out, swap_out, find_swapped, enter_new, add_to_slot, add_page, swap_in,
}
use cse314_operating_system.Paging.Swap.Out.{saved, marked, swap_out_page-saved}
use cse314_operating_system.Paging.Swap.In.{swap_in-unrecorded}

set-set :
    (ps : List PagingMetadata) (i : ℕ) (g h : PagingMetadata) → set (set ps i g) i h ≡ set ps i h
set-set [] i g h = refl
set-set (p ∷ ps) zero g h = refl
set-set (p ∷ ps) (suc i) g h = ap (◌∷◌ p) (set-set ps i g h)

abbrev is_out : PagingMetadata → (va : ℕ) → Bool
is_out g va = g.used && (not g.exists_in_memory && g.virtual_address == va)

not_here :
    (b : Bool) (i : ℕ) (rest : Option ℕ)
    → (if b then some i else rest) ≡ none
    → (b ≡ false) × (rest ≡ none)
not_here true i rest e = absurd (ground (arith, e))
not_here false i rest e = (refl, e)

-- A page put in memory is not one that is swapped out.
find_swapped-set :
    (ps : List PagingMetadata) (i s va : ℕ) (g : PagingMetadata)
    → g.exists_in_memory ≡ true
    → find_swapped ps i va ≡ none
    → find_swapped (set ps s g) i va ≡ none
unfolding find_swapped
find_swapped-set [] i s va g e n = refl
find_swapped-set (p ∷ ps) i zero va g e n =
    let (here, rest) = not_here (is_out p va) i (find_swapped ps (i + 1) va) n in
    rw e (ground (arith, rest))
find_swapped-set (p ∷ ps) i (suc s) va g e n =
    let (here, rest) = not_here (is_out p va) i (find_swapped ps (i + 1) va) n in
    rw (here, find_swapped) (find_swapped-set ps (i + 1) s va g e rest)

used-set :
    (ps : List PagingMetadata) (v i : ℕ) (g : PagingMetadata)
    → g.used ≡ true
    → (page ps i).used ≡ true
    → (page (set ps v g) i).used ≡ true
used-set [] v i g e u = u
used-set (p ∷ ps) zero zero g e u = e
used-set (p ∷ ps) zero (suc i) g e u = u
used-set (p ∷ ps) (suc v) zero g e u = u
used-set (p ∷ ps) (suc v) (suc i) g e u = used-set ps v i g e u

-- The metadata that `allocuvm` writes.
abbrev new_page : Process → (addr : ℕ) → PagingMetadata
new_page p addr = record {
  age = 0;
  used = true;
  exists_in_memory = true;
  virtual_address = addr;
  swap_file_location = uint (4096 * (p.file_page_count + p.memory_page_count));
}

abbrev entered : (s addr : ℕ) → Kernel → Kernel
entered s addr k = record k {
  proc = record k.proc {
    pages = set k.proc.pages s (new_page k.proc addr);
    memory_page_count = uint (k.proc.memory_page_count + 1);
  };
}

add_to_slot-entered :
    (s addr : ℕ) (k : Kernel)
    → get_unused_slot k.proc ≡ some s
    → add_to_slot addr k ≡ some (entered s addr k)
unfolding add_to_slot enter_new
add_to_slot-entered s addr k e = rw (e, add_to_slot) refl

-- FIFO loses the page that it swaps out. Let MAX_PSYC_PAGES pages be counted in memory, the first
-- fifteen slots be in use, the entry of the page to leave be present and its frame one that `kfree`
-- accepts. Then `allocuvm` enters a new page, with as many pages counted in memory, but if no
-- swapped-out page was recorded at an address `va` before, a `SwapPageIn` at `va` now returns -1, even
-- where `va` is that of the page that has just left.
pub fifo_forgets :
    (k : Kernel) (e : Entry) (addr va : ℕ)
    → k.proc.start_index < 15
    → k.proc.memory_page_count ≡ 15
    → ((i : ℕ) → i < 15 → (page k.proc.pages i).used ≡ true)
    → walk k.mem k.proc.pgdir (page k.proc.pages k.proc.start_index).virtual_address ≡ some e
    → has_bit (read k.mem e) pte_p ≡ true
    → InRange k.mem.first (pte_addr (read k.mem e))
    → find_swapped k.proc.pages 0 va ≡ none
    → (k' : Kernel) × (m : Memory) × (add_page fifo addr k ≡ some k')
      × (k'.proc.memory_page_count ≡ 15)
      × (swap_in fifo va k' ≡ some (record k' { mem = m }, false))
unfolding add_page swap_out victim mark_out add_to_slot enter_new next_swapped_fifo
fifo_forgets k e addr va hs count full w present r unrecorded =
    let s = k.proc.start_index in
    let out = mark_out e s (saved e (page k.proc.pages s) k) in
    let slot : get_unused_slot out.proc ≡ some s =
      get_unused_slot_full out.proc hs (rw count refl)
        (λ i lt. used-set k.proc.pages s i (marked (page k.proc.pages s)) refl (full i lt)) in
    let none_out : find_swapped (entered s addr out).proc.pages 0 va ≡ none =
      rw (set-set k.proc.pages s (marked (page k.proc.pages s)) (new_page out.proc addr))
        (find_swapped-set k.proc.pages 0 s va (new_page out.proc addr) refl unrecorded) in
    let (m, failed) = swap_in-unrecorded fifo va (entered s addr out) none_out in
    let all_in : int_ge k.proc.memory_page_count 15 ≡ true = rw count refl in
    (
      entered s addr out,
      m,
      rw (all_in, swap_out_page-saved s k e w present r) (add_to_slot-entered s addr out slot),
      rw count refl,
      failed,
    )
