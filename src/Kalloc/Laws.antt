-- ===== src/Kalloc/Laws.antt =====
-- What the page allocator hands out.
use cse314_operating_system.Base.{
  sym, none, subst, ◌≢◌, ℕ, zero, suc, ◌+◌, ◌-◌, ◌*◌, ◌/◌, ◌%◌, ◌≤◌, ◌<◌, ◌≡◌, refl, ◌∙◌, ◌⊎◌, inr,
  Bool, false, ◌||◌, some, List, [], ◌∷◌, arith, ◌==◌, length, All,
}
use cse314_operating_system.Kalloc.{
  link, Memory, fill, kfree, kalloc, freerange_from, freerange, round_up,
}

abbrev pub mem : ℕ → List ℕ → Bool
mem b [] = false
mem b (x ∷ xs) = x == b || mem b xs

abbrev pub Distinct : List ℕ → Type 0
Distinct [] = Unit
Distinct (x ∷ xs) = (mem x xs ≡ false) × Distinct xs

-- A page that can be in use: aligned, behind the kernel, in front of PHYSTOP.
abbrev pub InRange : ℕ → ℕ → Type 0
InRange first pa = (pa % 4096 ≡ 0) × (first ≤ pa) × (pa < 0xE000000)

-- The links lead from `p` to the pages in this order, and then to the null pointer.
abbrev pub Chain : (ℕ → ℕ → ℕ) → (p : ℕ) → List ℕ → Type 0
Chain words p [] = p ≡ 0
Chain words p (x ∷ xs) = (p ≡ x + 0x80000000) × Chain words (words x 0) xs

-- The free list holds these pages, of the right range, each once.
pub record Lists (m : Memory) (free : List ℕ) : Type 0 where
  pub chain : Chain m.words m.head free
  pub distinct : Distinct free
  pub in_range : All (InRange m.first) free

-- Writes to a page that the list does not hold keep the links.
Chain-agree :
    (u w : ℕ → ℕ → ℕ) (pa p : ℕ) (xs : List ℕ)
    → mem pa xs ≡ false
    → ((q : ℕ) → (q == pa) ≡ false → w q 0 ≡ u q 0)
    → Chain u p xs
    → Chain w p xs
Chain-agree u w pa p [] out same c = c
Chain-agree u w pa p (x ∷ xs) out same c =
    let other : (x == pa) ≡ false = ground arith in
    (
      c.0,
      subst (λ q. Chain w q xs) (sym (same x other))
          (Chain-agree u w pa (u x 0) xs (ground arith) same c.1),
    )

abbrev pub freed : Memory → ℕ → Memory
freed m pa = link (fill m pa 0x01010101) pa

pub kfree-some : (m : Memory) (pa : ℕ) → InRange m.first pa → kfree m pa ≡ some (freed m pa)
unfolding kfree
kfree-some m pa r = ground arith

freed_elsewhere :
    (m : Memory) (pa q i : ℕ) → (q == pa) ≡ false → (freed m pa).words q i ≡ m.words q i
freed_elsewhere m pa q i e = rw e refl

freed_link : (m : Memory) (pa : ℕ) → (freed m pa).words pa 0 ≡ m.head
freed_link m pa = ground arith

pub freed_junk : (m : Memory) (pa i : ℕ) → i ≢ 0 → (freed m pa).words pa i ≡ 0x01010101
freed_junk m pa i ne = ground arith

freed-Lists :
    (m : Memory) (pa : ℕ) (free : List ℕ)
    → Lists m free
    → InRange m.first pa
    → mem pa free ≡ false
    → Lists (freed m pa) (pa ∷ free)
freed-Lists m pa free l r out = record {
  chain = (
    refl,
    subst (λ p. Chain (freed m pa).words p free) (sym (freed_link m pa))
        (Chain-agree m.words (freed m pa).words pa m.head free out
          (λ q e. freed_elsewhere m pa q 0 e) l.chain),
  );
  distinct = (out, l.distinct);
  in_range = (r, l.in_range);
}

-- `kalloc` of a free list that holds these pages: the first page, or none, and the list without it
abbrev pub Allocated : (m : Memory) (free : List ℕ) → Type 0
Allocated m [] = kalloc m ≡ (m, none)
Allocated m (x ∷ xs) = (m' : Memory) × (kalloc m ≡ (m', some x)) × Lists m' xs

pub kalloc-Lists : (m : Memory) (free : List ℕ) → Lists m free → Allocated m free
unfolding kalloc
kalloc-Lists m [] l = rw (l.chain, kalloc) refl
kalloc-Lists m (x ∷ xs) l =
    let at : m.head - 0x80000000 ≡ x = omega (arith, l.chain.0) in
    let there : (m.head == 0) ≡ false = ground (arith, l.chain.0) in
    (
      record m { head = m.words x 0 },
      rw (there, at, kalloc) refl,
      record { chain = l.chain.1; distinct = l.distinct.1; in_range = l.in_range.1 },
    )

-- A page in range that is not free can be freed with no panic: the links then lead to it and from it to the pages
-- that were free before, its words behind the link are filled with ones, and no other page is changed. It is the
-- next to be handed out, and the links then lead to the pages that were free before.
pub kalloc-kfree :
    (m : Memory) (pa : ℕ) (free : List ℕ)
    → Lists m free
    → InRange m.first pa
    → mem pa free ≡ false
    → (m' : Memory) × (kfree m pa ≡ some m')
      × Lists m' (pa ∷ free)
      × ((i : ℕ) → i ≢ 0 → m'.words pa i ≡ 0x01010101)
      × ((q i : ℕ) → (q == pa) ≡ false → m'.words q i ≡ m.words q i)
      × (m'' : Memory) × (kalloc m' ≡ (m'', some pa))
      × Lists m'' free
kalloc-kfree m pa free l r out =
    let l' = freed-Lists m pa free l r out in
    let (m'', e, l'') = kalloc-Lists (freed m pa) (pa ∷ free) l' in
    (freed m pa, kfree-some m pa r, l', freed_junk m pa, freed_elsewhere m pa, m'', e, l'')

-- Every free page lies in front of `pa`.
abbrev pub Before : ℕ → List ℕ → Type 0
Before pa = All (λ q. q < pa)

Before-mono : (a b : ℕ) (xs : List ℕ) → a ≤ b → Before a xs → Before b xs
Before-mono a b [] h p = tt
Before-mono a b (x ∷ xs) h p = (omega arith, Before-mono a b xs h p.1)

Before-not-mem : (pa : ℕ) (xs : List ℕ) → Before pa xs → mem pa xs ≡ false
Before-not-mem pa [] h = refl
Before-not-mem pa (x ∷ xs) h = ground (arith, Before-not-mem pa xs h.1)

freerange_from-suc :
    (n pa : ℕ) (m m' : Memory)
    → kfree m pa ≡ some m'
    → freerange_from (suc n) pa m ≡ freerange_from n (pa + 4096) m'
unfolding freerange_from
freerange_from-suc n pa m m' e = rw (e, freerange_from)

freerange_from-Lists :
    (n pa : ℕ) (m : Memory) (free : List ℕ)
    → Lists m free
    → Before pa free
    → pa % 4096 ≡ 0
    → m.first ≤ pa
    → (n ≡ 0) ⊎ (pa + n * 4096 ≤ 0xE000000)
    → (m' : Memory) × (freerange_from n pa m ≡ some m')
      × (free' : List ℕ) × Lists m' free'
      × (length free' ≡ n + length free)
unfolding freerange_from
freerange_from-Lists zero pa m free l b al lo hi = (m, refl, free, l, omega arith)
freerange_from-Lists (suc n) pa m free l b al lo hi =
    let l' = freed-Lists m pa free l (al, lo, omega arith) (Before-not-mem pa free b) in
    let (m', e, free', last, len) =
      freerange_from-Lists n (pa + 4096) (freed m pa) (pa ∷ free) l'
        (omega arith, Before-mono pa (pa + 4096) free (omega arith) b) (omega arith) (omega arith)
        (inr (omega arith)) in
    (
      m',
      freerange_from-suc n pa m (freed m pa) (kfree-some m pa (al, lo, omega arith)) ∙ e,
      free',
      last,
      omega arith,
    )

-- `freerange` over pages behind the kernel and in front of PHYSTOP, with no page free before, does not
-- panic, and leaves exactly the whole pages of the range free, each once.
pub freerange_lem :
    (vstart vend : ℕ) (m : Memory)
    → m.head ≡ 0
    → m.first ≤ vstart
    → vend ≤ 0xE000000
    → (m' : Memory) × (freerange vstart vend m ≡ some m')
      × (free : List ℕ) × Lists m' free
      × (length free ≡ (vend - round_up vstart) / 4096)
unfolding freerange
freerange_lem vstart vend m e lo hi =
    let (m', q, free, l, len) =
      freerange_from-Lists ((vend - round_up vstart) / 4096) (round_up vstart) m []
        (record { chain = e; distinct = tt; in_range = tt }) tt (omega arith) (omega arith)
        (omega arith) in
    (m', q, free, l, omega (arith, len))
