-- ===== src/Paging.antt =====
-- Offline 4/xv6: the replacement of pages by swapping, in vm.c, with the metadata of proc.h.
-- The compiled algorithm, FIFO or AGING, is an argument.
pub mod Fifo
pub mod Aging
pub mod SwapFile
pub mod Swap
use cse314_operating_system.Base.{
  ℕ, zero, suc, ◌+◌, ◌-◌, ◌*◌, ◌/◌, ◌%◌, ◌^◌, ◌≤◌, ◌<◌, min, ◌≡◌, refl, sym, ap, ap₂, subst, ◌∙◌,
  fun_ext, ◌≢◌, ◌↔◌, ◌⊎◌, inl, inr, Bool, true, false, not, ◌&&◌, ◌||◌, Option, none, some, List,
  [], ◌∷◌, ◌++◌, map, append-nil, append_assoc, arith, dec_lt, ℕ_discrete, ltb, leb, ◌==◌,
  if◌then◌else◌, ltb→lt, lt→ltb, leb→le, ==_iff, Bool-cases, Option-cases, length, get_elem?,
  get_or, set, take, drop, replicate, All, length-append, length-set,
}
use cse314_operating_system.Base.{uint, has_bit, set_bit, clear_bit, dec32, int_ge}

-- `struct PagingMetadata`. The two flags are only ever 0 or 1. An address or a file offset is the
-- bits of its `int`.
pub record PagingMetadata : Type 0 where
  pub exists_in_memory : Bool
  pub virtual_address : ℕ
  pub swap_file_location : ℕ
  pub used : Bool
  pub age : ℕ

-- MAX_TOTAL_PAGES and MAX_PSYC_PAGES of mmu.h
abbrev pub max_total_pages : ℕ
max_total_pages = 30

abbrev pub max_psyc_pages : ℕ
max_psyc_pages = 15

-- The fields of `struct proc` that paging uses. The counts are the bits of their `int`s.
pub record Process : Type 0 where
  pub pid : ℕ
  pub pgdir : ℕ
  pub pages : List PagingMetadata
  pub memory_page_count : ℕ
  pub file_page_count : ℕ
  pub start_index : ℕ

-- What `fork`, `wait` and `exec` write into a slot: offset and address are -1.
abbrev pub empty_page : PagingMetadata
empty_page = record {
  exists_in_memory = false;
  virtual_address = 2 ^ 32 - 1;
  swap_file_location = 2 ^ 32 - 1;
  used = false;
  age = 0;
}

-- `process->allPagesOfProcess[i]`, for an index in the array
abbrev pub page : List PagingMetadata → ℕ → PagingMetadata
page ps i = get_or ps i empty_page
