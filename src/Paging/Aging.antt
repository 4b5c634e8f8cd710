-- ===== src/Paging/Aging.antt =====
-- `UpdateAgingState` and `NextSwappedPageAging` of vm.c.
pub mod Victim
mod Tests
use cse314_operating_system.Base.{
  ℕ, zero, suc, ◌+◌, ◌-◌, ◌*◌, ◌/◌, ◌%◌, ◌^◌, ◌≤◌, ◌<◌, min, ◌≡◌, refl, sym, ap, ap₂, subst, ◌∙◌,
  fun_ext, ◌≢◌, ◌↔◌, ◌⊎◌, inl, inr, Bool, true, false, not, ◌&&◌, ◌||◌, Option, none, some, List,
  [], ◌∷◌, ◌++◌, map, append-nil, append_assoc, arith, dec_lt, ℕ_discrete, ltb, leb, ◌==◌,
  if◌then◌else◌, ltb→lt, lt→ltb, leb→le, ==_iff, Bool-cases, Option-cases, length, get_elem?,
  get_or, set, take, drop, replicate, All, length-append, length-set,
}
use cse314_operating_system.Base.{uint, has_bit, clear_bit}
use cse314_operating_system.Kalloc.{Memory}
use cse314_operating_system.Vm.{Entry, read, write, pdx, ptx, pte_addr, pte_a}
use cse314_operating_system.Paging.{PagingMetadata, Process}

abbrev pub is_resident : PagingMetadata → Bool
is_resident g = g.exists_in_memory && g.used

-- `Age >> 1`, with the top bit set for a page that was referenced
pub aged : Bool → ℕ → ℕ
aged referenced age = if referenced then age / 2 + 2 ^ 31 else age / 2

-- The entry that the address leads to; the directory entry is not tested.
abbrev pub entry_of : Memory → (pgdir va : ℕ) → Entry
entry_of m pgdir va = record { table = pte_addr (m.words pgdir (pdx va)); index = ptx va }

-- One round of the inner loop, on one slot.
pub age_page : (pgdir : ℕ) → PagingMetadata → Memory → PagingMetadata × Memory
age_page pgdir g m =
    let e = entry_of m pgdir g.virtual_address in
    if is_resident g
    then (
      record g { age = aged (has_bit (read m e) pte_a) g.age },
      write m e (clear_bit (read m e) pte_a),
    )
    else (g, m)

pub age_pages : (pgdir : ℕ) → List PagingMetadata → Memory → List PagingMetadata × Memory
age_pages pgdir [] m = ([], m)
age_pages pgdir (g ∷ gs) m =
    let (g', m') = age_page pgdir g m in let (gs', m'') = age_pages pgdir gs m' in (g' ∷ gs', m'')

-- `ages` says of each process whether its state is SLEEPING, RUNNABLE or RUNNING.
pub update_aging_state : List (Bool × Process) → Memory → List (Bool × Process) × Memory
update_aging_state [] m = ([], m)
update_aging_state ((ages, p) ∷ ps) m =
    let (gs, m') = age_pages p.pgdir p.pages m in
    let (ps', m'') = update_aging_state ps (if ltb 2 p.pid && ages then m' else m) in
    ((ages, if ltb 2 p.pid && ages then record p { pages = gs } else p) ∷ ps', m'')

-- The loop of `NextSwappedPageAging` from slot `i` on, with the least age and its slot so far;
-- `none` is the index -1.
unfoldable pub scan_ages : List PagingMetadata → (i least : ℕ) → Option ℕ → Option ℕ
scan_ages [] i least best = best
scan_ages (g ∷ gs) i least best =
    let better = is_resident g && ltb g.age least in
    scan_ages gs (i + 1) (if better then g.age else least) (if better then some i else best)

unfoldable pub next_swapped_aging : Process → Option ℕ
next_swapped_aging p = scan_ages p.pages 0 0xffffffff none
