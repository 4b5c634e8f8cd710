-- ===== src/Kalloc.antt =====
-- Offline 4/xv6/kalloc.c (the same file in Offline 3/xv6): the list of free physical pages.
-- A page is named by its physical address; the kernel's own address of it is that plus KERNBASE.
-- The lock is left out: each function is one critical section.
pub mod Laws
mod Tests
use cse314_operating_system.Base.{
  ℕ, zero, suc, ◌&&◌, ◌+◌, ◌-◌, ◌*◌, ◌/◌, ◌%◌, not, ◌||◌, Option, none, some, ltb, leb, ◌==◌,
  if◌then◌else◌,
}

abbrev pub pgsize : ℕ
pgsize = 4096

-- PHYSTOP of memlayout.h
abbrev pub phystop : ℕ
phystop = 0xE000000

-- KERNBASE of memlayout.h
abbrev pub kernbase : ℕ
kernbase = 0x80000000

-- `first` is V2P(end), `words` are the 32-bit words of each page, and `head` is `kmem.freelist`: 0, or the kernel's
-- address of a page, whose first word is the link `next`.
pub record Memory : Type 0 where
  pub first : ℕ
  pub words : ℕ → ℕ → ℕ
  pub head : ℕ

-- `memset(v, c, PGSIZE)`, for the word that repeats the byte
abbrev pub fill : Memory → ℕ → ℕ → Memory
fill m pa w = record m { words = λ q i. if q == pa then w else m.words q i }

-- `r->next = kmem.freelist; kmem.freelist = r`
abbrev pub link : Memory → ℕ → Memory
link m pa = record m {
  words = λ q i. if q == pa && i == 0 then m.head else m.words q i;
  head = pa + kernbase;
}

-- `none` is a panic.
unfoldable pub kfree : Memory → ℕ → Option Memory
kfree m pa =
    if not (pa % pgsize == 0) || (ltb pa m.first || leb phystop pa)
    then none
    else some (link (fill m pa 0x01010101) pa)

-- The page is `none` where the source returns 0.
unfoldable pub kalloc : Memory → Memory × Option ℕ
kalloc m =
    if m.head == 0
    then (m, none)
    else (record m { head = m.words (m.head - kernbase) 0 }, some (m.head - kernbase))

-- `freerange`, from the rounded start on; `rounds` is `(vend - p) / PGSIZE`.
freerange_from : (rounds : ℕ) → ℕ → Memory → Option Memory
freerange_from zero pa m = some m
freerange_from (suc n) pa m = elim (kfree m pa) [
  | none ↦ none
  | some m' ↦ freerange_from n (pa + pgsize) m'
]

abbrev pub round_up : ℕ → ℕ
round_up a = (a + 4095) / 4096 * 4096

pub freerange : (vstart vend : ℕ) → Memory → Option Memory
unfolding freerange_from
freerange vstart vend = freerange_from ((vend - round_up vstart) / pgsize) (round_up vstart)
