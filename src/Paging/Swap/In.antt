-- ===== src/Paging/Swap/In.antt =====
-- What `SwapPageIn` finds, and what it brings in.
use cse314_operating_system.Base.{
  ℕ, ◌+◌, ◌%◌, ◌≡◌, refl, ◌≢◌, inl, inr, Bool, true, false, not, ◌&&◌, Option, none, some, List, [],
  ◌∷◌, arith, ◌==◌, Bool-cases, Option-cases, All,
}
use cse314_operating_system.Base.{has_bit, clear_bit}
use cse314_operating_system.Kalloc.{Memory, kfree, kalloc}
use cse314_operating_system.Vm.{Entry, read, write, walk, pte_addr, pte_p, pte_d, pte_pg, user_pte}
use cse314_operating_system.Paging.{PagingMetadata, Process, page}
use cse314_operating_system.Paging.SwapFile.{SwapFile, write_to_swap_file}
use cse314_operating_system.Paging.Fifo.{get_unused_slot}
use cse314_operating_system.Paging.Swap.{
  Algorithm, Kernel, victim, save, mark_out, save_and_mark, swap_out_page, swap_out, find_swapped,
  bring_in, no_slot, make_room, enter_page, with_page, swap_in,
}

with_page-unrecorded :
    (a : Algorithm) (e : Entry) (va : ℕ) (r : Memory × Option ℕ) (k : Kernel)
    → find_swapped k.proc.pages 0 va ≡ none
    → with_page a e va r k ≡ some (record k { mem = r.0 }, false)
unfolding with_page enter_page
with_page-unrecorded a e va (m, none) k n = refl
with_page-unrecorded a e va (m, some pa) k n = rw (n, with_page) refl

-- If the process has no swapped-out page recorded at the address, `SwapPageIn` returns -1 and leaves
-- the process and its swap file as they were.
pub swap_in-unrecorded :
    (a : Algorithm) (va : ℕ) (k : Kernel)
    → find_swapped k.proc.pages 0 va ≡ none
    → (m : Memory) × (swap_in a va k ≡ some (record k { mem = m }, false))
unfolding swap_in
swap_in-unrecorded a va k n = elim (Option-cases (walk k.mem k.proc.pgdir va)) [
  | inl no_table ↦ (k.mem, rw (no_table, swap_in) refl)
  | inr (e, w) ↦ elim (Bool-cases (has_bit (read k.mem e) pte_pg)) [
    | inl out ↦
        ((kalloc k.mem).0, rw (w, out, swap_in) (with_page-unrecorded a e va (kalloc k.mem) k n))
    | inr here ↦ (k.mem, rw (w, here, swap_in) refl)
  ]
]

-- A page in use is recorded under the address of its first byte.
abbrev pub IsAligned : PagingMetadata → Type 0
IsAligned g = g.used ≡ true → g.virtual_address % 4096 ≡ 0

misaligned :
    (g : PagingMetadata) (va : ℕ)
    → IsAligned g
    → va % 4096 ≢ 0
    → (g.used && (not g.exists_in_memory && g.virtual_address == va)) ≡ false
misaligned g va al off = elim (Bool-cases g.used) [
  | inl used ↦ let start : g.virtual_address % 4096 ≡ 0 = al used in ground arith
  | inr free ↦ rw free refl
]

find_swapped-misaligned :
    (ps : List PagingMetadata) (i va : ℕ)
    → All IsAligned ps
    → va % 4096 ≢ 0
    → find_swapped ps i va ≡ none
unfolding find_swapped
find_swapped-misaligned [] i va al off = refl
find_swapped-misaligned (g ∷ gs) i va al off =
    rw (misaligned g va al.0 off) (find_swapped-misaligned gs (i + 1) va al.1 off)

-- When every page in use is recorded under the address of its first byte, as `allocuvm` does, a fault at
-- any other byte of a page is not resolved: `SwapPageIn` returns -1, and leaves the process and its swap
-- file as they were.
pub swap_in-misaligned :
    (a : Algorithm) (va : ℕ) (k : Kernel)
    → All IsAligned k.proc.pages
    → va % 4096 ≢ 0
    → (m : Memory) × (swap_in a va k ≡ some (record k { mem = m }, false))
swap_in-misaligned a va k al off =
    swap_in-unrecorded a va k (find_swapped-misaligned k.proc.pages 0 va al off)

-- What a result says of memory, process and success.
abbrev pub but_file : Option (Kernel × Bool) → Option (Process × Memory × Bool)
but_file none = none
but_file (some (k, ok)) = some (k.proc, k.mem, ok)

abbrev pub with_file : Kernel → SwapFile → Kernel
with_file k f = record k { file = f }

abbrev set_file : SwapFile → Option Kernel → Option Kernel
set_file f none = none
set_file f (some k) = some (with_file k f)

save-file :
    (e : Entry) (g : PagingMetadata) (k : Kernel) (f : SwapFile)
    → (f' : SwapFile) × (save e g (with_file k f) ≡ set_file f' (save e g k))
unfolding save
save-file e g k f = elim (Bool-cases (has_bit (read k.mem e) pte_d)) [
  | inl dirty ↦
      let pa = pte_addr (read k.mem e) in
      (
        (write_to_swap_file f (k.mem.words pa) g.swap_file_location).0,
        elim (Option-cases (kfree k.mem pa)) [
          | inl bad ↦ rw (dirty, bad) refl
          | inr (m, done) ↦ rw (dirty, done) refl
        ],
      )
  | inr clean ↦ (f, rw clean refl)
]

save_and_mark-file :
    (e : Entry) (v : ℕ) (k : Kernel) (f : SwapFile)
    → (f' : SwapFile) × (save_and_mark e v (with_file k f) ≡ set_file f' (save_and_mark e v k))
unfolding save_and_mark mark_out
save_and_mark-file e v k f =
    let (f', q) = save-file e (page k.proc.pages v) k f in
    (
      f',
      rw (q, save_and_mark)
          (elim (Option-cases (save e (page k.proc.pages v) k)) [
            | inl bad ↦ rw (bad, save_and_mark) refl
            | inr (k', done) ↦ rw (done, save_and_mark) refl
          ]),
    )

swap_out_page-file :
    (v : ℕ) (k : Kernel) (f : SwapFile)
    → (f' : SwapFile) × (swap_out_page v (with_file k f) ≡ set_file f' (swap_out_page v k))
unfolding swap_out_page
swap_out_page-file v k f =
    elim (Option-cases (walk k.mem k.proc.pgdir (page k.proc.pages v).virtual_address)) [
      | inl no_table ↦ (f, rw (no_table, swap_out_page) refl)
      | inr (e, w) ↦ elim (Bool-cases (has_bit (read k.mem e) pte_p)) [
        | inl present ↦
            let (f', q) = save_and_mark-file e v k f in (f', rw (w, present, swap_out_page) q)
        | inr away ↦ (f, rw (w, away, swap_out_page) refl)
      ]
    ]

swap_out-file :
    (a : Algorithm) (k : Kernel) (f : SwapFile)
    → (f' : SwapFile) × (swap_out a (with_file k f) ≡ set_file f' (swap_out a k))
unfolding swap_out
swap_out-file a k f = elim (Option-cases (victim a k.proc)) [
  | inl bad ↦ (f, rw (bad, swap_out) refl)
  | inr (v, w) ↦ let (f', q) = swap_out_page-file v k f in (f', rw (w, swap_out) q)
]

bring_in-file :
    (j : ℕ) (s : Option ℕ) (k : Kernel) (f : SwapFile)
    → but_file (bring_in j s (with_file k f)) ≡ but_file (bring_in j s k)
unfolding bring_in
bring_in-file j none k f = refl
bring_in-file j (some s) k f = refl

make_room-file :
    (a : Algorithm) (j : ℕ) (k : Kernel) (f : SwapFile)
    → but_file (make_room a j (with_file k f)) ≡ but_file (make_room a j k)
unfolding make_room
make_room-file a j k f = elim (Bool-cases (no_slot (get_unused_slot k.proc))) [
  | inl full ↦
      let (f', q) = swap_out-file a k f in
      elim (Option-cases (swap_out a k)) [
        | inl bad ↦ rw (full, q, bad, make_room) refl
        | inr (k', done) ↦
            rw (full, q, done, make_room) (bring_in-file j (get_unused_slot k'.proc) k' f')
      ]
  | inr space ↦ rw (space, make_room) (bring_in-file j (get_unused_slot k.proc) k f)
]

with_page-file :
    (a : Algorithm) (e : Entry) (va : ℕ) (r : Memory × Option ℕ) (k : Kernel) (f : SwapFile)
    → but_file (with_page a e va r (with_file k f)) ≡ but_file (with_page a e va r k)
unfolding with_page enter_page
with_page-file a e va (m, none) k f = refl
with_page-file a e va (m, some pa) k f = elim (Option-cases (find_swapped k.proc.pages 0 va)) [
  | inl bad ↦ rw (bad, with_page) refl
  | inr (j, found) ↦
      rw (found, with_page)
        (make_room-file a j (record k { mem = write m e (clear_bit (user_pte pa) pte_pg) }) f)
]

-- A page that is swapped in does not get its contents back: what `SwapPageIn` leaves in memory and in
-- the process, and whether it succeeds, is the same whatever the swap file holds.
pub swap_in-file :
    (a : Algorithm) (va : ℕ) (k : Kernel) (f : SwapFile)
    → but_file (swap_in a va (with_file k f)) ≡ but_file (swap_in a va k)
unfolding swap_in
swap_in-file a va k f = elim (Option-cases (walk k.mem k.proc.pgdir va)) [
  | inl no_table ↦ rw (no_table, swap_in) refl
  | inr (e, w) ↦ elim (Bool-cases (has_bit (read k.mem e) pte_pg)) [
    | inl out ↦ rw (w, out, swap_in) (with_page-file a e va (kalloc k.mem) k f)
    | inr here ↦ rw (w, here, swap_in) refl
  ]
]
