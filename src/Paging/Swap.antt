-- ===== src/Paging/Swap.antt =====
-- `SwapPageOut` and `SwapPageIn` of vm.c, and the part of `allocuvm` that enters a new page.
pub mod Out
pub mod In
pub mod Forget
pub mod Lost
mod Tests
use cse314_operating_system.Base.{
  ℕ, zero, suc, ◌+◌, ◌-◌, ◌*◌, ◌/◌, ◌%◌, ◌^◌, ◌≤◌, ◌<◌, min, ◌≡◌, refl, sym, ap, ap₂, subst, ◌∙◌,
  fun_ext, ◌≢◌, ◌↔◌, ◌⊎◌, inl, inr, Bool, true, false, not, ◌&&◌, ◌||◌, Option, none, some, List,
  [], ◌∷◌, ◌++◌, map, append-nil, append_assoc, arith, dec_lt, ℕ_discrete, ltb, leb, ◌==◌,
  if◌then◌else◌, ltb→lt, lt→ltb, leb→le, ==_iff, Bool-cases, Option-cases, length, get_elem?,
  get_or, set, take, drop, replicate, All, length-append, length-set,
}
use cse314_operating_system.Base.{uint, has_bit, set_bit, clear_bit, dec32, int_ge}
use cse314_operating_system.Kalloc.{Memory, kfree, kalloc}
use cse314_operating_system.Vm.{Entry, read, write, walk, pte_addr, pte_p, pte_d, pte_pg, user_pte}
use cse314_operating_system.Paging.{PagingMetadata, Process, page}
use cse314_operating_system.Paging.SwapFile.{SwapFile, write_to_swap_file}
use cse314_operating_system.Paging.Fifo.{get_unused_slot, next_swapped_fifo}
use cse314_operating_system.Paging.Aging.{next_swapped_aging}

-- `#if FIFO` and `#if AGING`
pub data Algorithm : Type 0 where
  fifo aging : Algorithm

pub record Kernel : Type 0 where
  pub proc : Process
  pub mem : Memory
  pub file : SwapFile

-- `none` is the index -1, which the caller goes on to use.
pub victim : Algorithm → Process → Option ℕ
victim fifo p = some (next_swapped_fifo p)
victim aging p = next_swapped_aging p

-- The write of a dirty page; `none` is the panic of `kfree`.
pub save : Entry → PagingMetadata → Kernel → Option Kernel
save e g k =
    let pa = pte_addr (read k.mem e) in
    if has_bit (read k.mem e) pte_d
    then elim (kfree k.mem pa) [
      | none ↦ none
      | some m ↦ some (record k {
        mem = m;
        file = (write_to_swap_file k.file (k.mem.words pa) g.swap_file_location).0;
      })
    ]
    else some k

-- The entry and the metadata after that.
pub mark_out : Entry → (v : ℕ) → Kernel → Kernel
mark_out e v k =
    let p = k.proc in
    record k {
      mem = write k.mem e (clear_bit (set_bit (read k.mem e) pte_pg) pte_p);
      proc = record p {
        pages =
            set p.pages v
              (record (page p.pages v) { age = 0; used = true; exists_in_memory = false });
        memory_page_count = dec32 p.memory_page_count;
        file_page_count = uint (p.file_page_count + 1);
      };
    }

pub save_and_mark : Entry → (v : ℕ) → Kernel → Option Kernel
save_and_mark e v k = elim (save e (page k.proc.pages v) k) [
  | none ↦ none
  | some k' ↦ some (mark_out e v k')
]

-- `SwapPageOut` once the slot is chosen
pub swap_out_page : (v : ℕ) → Kernel → Option Kernel
swap_out_page v k = elim (walk k.mem k.proc.pgdir (page k.proc.pages v).virtual_address) [
  | none ↦ some k
  | some e ↦ if has_bit (read k.mem e) pte_p then save_and_mark e v k else some k
]

-- `none` is a panic, or an access to the slot -1.
pub swap_out : Algorithm → Kernel → Option Kernel
swap_out a k = elim (victim a k.proc) [ none ↦ none | some v ↦ swap_out_page v k ]

-- The metadata of a new page at `addr`, in the slot found; `none` is an access to the slot -1.
pub enter_new : (addr : ℕ) → Option ℕ → Process → Option Process
enter_new addr none p = none
enter_new addr (some s) p = some (record p {
  pages = set p.pages s (record {
    age = 0;
    used = true;
    exists_in_memory = true;
    virtual_address = addr;
    swap_file_location = uint (4096 * (p.file_page_count + p.memory_page_count));
  });
  memory_page_count = uint (p.memory_page_count + 1);
})

pub add_to_slot : (addr : ℕ) → Kernel → Option Kernel
add_to_slot addr k = elim (enter_new addr (get_unused_slot k.proc) k.proc) [
  | none ↦ none
  | some p ↦ some (record k { proc = p })
]

-- What `allocuvm` does for a process with a pid above 2 once the page is mapped at `addr`.
pub add_page : Algorithm → (addr : ℕ) → Kernel → Option Kernel
add_page a addr k =
    if int_ge k.proc.memory_page_count 15
    then elim (swap_out a k) [ none ↦ none | some k' ↦ add_to_slot addr k' ]
    else add_to_slot addr k

-- The first slot of a swapped-out page of that address, from slot `i` on.
pub find_swapped : List PagingMetadata → (i va : ℕ) → Option ℕ
find_swapped [] i va = none
find_swapped (g ∷ gs) i va =
    if g.used && (not g.exists_in_memory && g.virtual_address == va)
    then some i
    else find_swapped gs (i + 1) va

-- The metadata after the page of slot `j` has moved to slot `s`.
pub move_page : List PagingMetadata → (j s : ℕ) → List PagingMetadata
move_page ps j s =
    let cleared = set ps j (record (page ps j) { used = false; exists_in_memory = false }) in
    set cleared s (record {
      age = 0;
      exists_in_memory = true;
      used = true;
      swap_file_location = (page cleared j).swap_file_location;
      virtual_address = (page cleared j).virtual_address;
    })

-- The end of `SwapPageIn`, with the second slot that it asks for.
pub bring_in : (j : ℕ) → Option ℕ → Kernel → Option (Kernel × Bool)
bring_in j none k = none
bring_in j (some s) k =
    let p = k.proc in
    some (
      record k {
        proc = record p {
          pages = move_page p.pages j s;
          file_page_count = dec32 p.file_page_count;
          memory_page_count = uint (p.memory_page_count + 1);
        };
      },
      true,
    )

-- `slotToSwapIn <= 0`
pub no_slot : Option ℕ → Bool
no_slot none = true
no_slot (some zero) = true
no_slot (some (suc s)) = false

-- The entry is the new page's, and room is made if there is no slot.
pub make_room : Algorithm → (j : ℕ) → Kernel → Option (Kernel × Bool)
make_room a j k =
    if no_slot (get_unused_slot k.proc)
    then elim (swap_out a k) [ none ↦ none | some k' ↦ bring_in j (get_unused_slot k'.proc) k' ]
    else bring_in j (get_unused_slot k.proc) k

pub enter_page : Algorithm → Entry → (pa : ℕ) → Option ℕ → Kernel → Option (Kernel × Bool)
enter_page a e pa none k = some (k, false)
enter_page a e pa (some j) k =
    make_room a j (record k { mem = write k.mem e (clear_bit (user_pte pa) pte_pg) })

pub with_page : Algorithm → Entry → (va : ℕ) → Memory × Option ℕ → Kernel → Option (Kernel × Bool)
with_page a e va (m, none) k = some (record k { mem = m }, false)
with_page a e va (m, some pa) k =
    enter_page a e pa (find_swapped k.proc.pages 0 va) (record k { mem = m })

-- `SwapPageIn`: the flag is false for its result -1, and `none` is as for `swap_out`.
pub swap_in : Algorithm → (va : ℕ) → Kernel → Option (Kernel × Bool)
swap_in a va k = elim (walk k.mem k.proc.pgdir va) [
  | none ↦ some (k, false)
  | some e ↦
      if has_bit (read k.mem e) pte_pg then with_page a e va (kalloc k.mem) k else some (k, false)
]
