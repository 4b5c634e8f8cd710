-- ===== src/Paging/Fifo.antt =====
-- `GetUnusedMemorySlotFIFO`, `UpdateRemovedStartIndex`, `UpdateStartIndexFIFO` and
-- `NextSwappedPageFIFO` of vm.c. A process pointer is not null.
pub mod Slot
mod Tests
use cse314_operating_system.Base.{
  ℕ, zero, suc, ◌+◌, ◌-◌, ◌*◌, ◌/◌, ◌%◌, ◌^◌, ◌≤◌, ◌<◌, min, ◌≡◌, refl, sym, ap, ap₂, subst, ◌∙◌,
  fun_ext, ◌≢◌, ◌↔◌, ◌⊎◌, inl, inr, Bool, true, false, not, ◌&&◌, ◌||◌, Option, none, some, List,
  [], ◌∷◌, ◌++◌, map, append-nil, append_assoc, arith, dec_lt, ℕ_discrete, ltb, leb, ◌==◌,
  if◌then◌else◌, ltb→lt, lt→ltb, leb→le, ==_iff, Bool-cases, Option-cases, length, get_elem?,
  get_or, set, take, drop, replicate, All, length-append, length-set,
}
use cse314_operating_system.Base.{uint, int_ge}
use cse314_operating_system.Paging.{PagingMetadata, Process, page}

-- How the search for the newest page ends.
pub data Scan : Type 0 where
  found : ℕ → Scan
  all_unused : Scan
  out_of_fuel : Scan

-- The backward loop at index `i`: after index 0 it goes on at 14.
pub scan_back : ℕ → List PagingMetadata → (start i : ℕ) → Scan
scan_back zero ps start i = out_of_fuel
scan_back (suc f) ps start i =
    let rest = scan_back f ps start (if i == 0 then 14 else i - 1) in
    if i == start then all_unused else if (page ps i).used then found ((i + 1) % 15) else rest

-- What is returned after the loop, or from inside it.
pub slot_after : Process → Scan → Option ℕ
slot_after p (found i) = some i
slot_after p _ =
    if (page p.pages p.start_index).used then some ((p.start_index + 1) % 15) else some 0

-- `none` is -1.
pub get_unused_slot : Process → Option ℕ
unfolding slot_after
get_unused_slot p =
    if int_ge p.memory_page_count 15
    then none
    else slot_after p
        (scan_back 15 p.pages p.start_index (if p.start_index == 0 then 14 else p.start_index - 1))

-- The `while` of `UpdateStartIndexFIFO`; `none` when it is still running after that many rounds.
pub scan_forward : ℕ → List PagingMetadata → (i : ℕ) → Option ℕ
scan_forward zero ps i = none
scan_forward (suc f) ps i =
    let rest = scan_forward f ps ((i + 1) % 15) in
    if (page ps i).exists_in_memory then some i else rest

pub update_start_index : ℕ → Process → Option Process
update_start_index fuel p =
    if p.memory_page_count == 0
    then some (record p { start_index = 0 })
    else elim (scan_forward fuel p.pages ((p.start_index + 1) % 15)) [
      | none ↦ none
      | some i ↦ some (record p { start_index = i })
    ]

pub update_removed_start_index : ℕ → Process → Option Process
update_removed_start_index fuel p =
    let updated = update_start_index fuel p in
    if (page p.pages p.start_index).exists_in_memory then some p else updated

unfoldable pub next_swapped_fifo : Process → ℕ
next_swapped_fifo p = p.start_index
