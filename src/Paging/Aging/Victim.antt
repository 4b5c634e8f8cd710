-- ===== src/Paging/Aging/Victim.antt =====
-- Which page the aging algorithm gives up.
use cse314_operating_system.Base.{
  has_bit, ℕ, zero, suc, ◌+◌, ◌/◌, ◌^◌, ◌≤◌, ◌<◌, ◌≡◌, refl, sym, ap, subst, ◌∙◌, ◌⊎◌, inl, inr,
  Bool, true, false, ◌&&◌, Option, none, some, List, [], ◌∷◌, arith, ltb, if◌then◌else◌, Bool-cases,
  take,
}
use cse314_operating_system.Kalloc.{Memory}
use cse314_operating_system.Vm.{read, pte_a}
use cse314_operating_system.Paging.{PagingMetadata, Process, page}
use cse314_operating_system.Paging.Aging.{
  is_resident, aged, entry_of, age_page, age_pages, scan_ages, next_swapped_aging,
}

-- No slot has a page in memory younger than `least`.
NoneBelow : List PagingMetadata → (least : ℕ) → Type 0
NoneBelow gs least = (k : ℕ) → is_resident (page gs k) ≡ true → least ≤ (page gs k).age

-- Slot `d` of `gs` has a page in memory, younger than `least`, and no other has a younger one.
Least : List PagingMetadata → (least d : ℕ) → Type 0
Least gs least d =
    (is_resident (page gs d) ≡ true) × ((page gs d).age < least) × NoneBelow gs (page gs d).age

NoneBelow-cons :
    (g : PagingMetadata) (gs : List PagingMetadata) (least : ℕ)
    → (is_resident g ≡ true → least ≤ g.age)
    → NoneBelow gs least
    → NoneBelow (g ∷ gs) least
unfolding NoneBelow
NoneBelow-cons g gs least h n zero e = h e
NoneBelow-cons g gs least h n (suc k) e = n k e

Least-cons :
    (g : PagingMetadata) (gs : List PagingMetadata) (least below d : ℕ)
    → (is_resident g ≡ true → below ≤ g.age)
    → below ≤ least
    → Least gs below d
    → Least (g ∷ gs) least (suc d)
unfolding Least
Least-cons g gs least below d h le l =
    let young : (page gs d).age < below = l.1 in
    (
      l.0,
      omega arith,
      NoneBelow-cons g gs (page gs d).age (λ e. let lower : below ≤ g.age = h e in omega arith) l.2,
    )

is_better :
    (g : PagingMetadata) (least : ℕ)
    → (is_resident g && ltb g.age least) ≡ true
    → (is_resident g ≡ true) × (g.age < least)
is_better g least better = ground arith

Least-here :
    (g : PagingMetadata) (gs : List PagingMetadata) (least : ℕ)
    → (is_resident g && ltb g.age least) ≡ true
    → NoneBelow gs g.age
    → Least (g ∷ gs) least 0
unfolding Least NoneBelow
Least-here g gs least better n = (
  (is_better g least better).0,
  (is_better g least better).1,
  NoneBelow-cons g gs g.age (λ _. omega arith) n,
)

not_better :
    (g : PagingMetadata) (least : ℕ)
    → (is_resident g && ltb g.age least) ≡ false
    → is_resident g ≡ true
    → least ≤ g.age
not_better g least worse e = ground arith

scan_ages_lem :
    (gs : List PagingMetadata) (i least : ℕ) (best : Option ℕ)
    → ((scan_ages gs i least best ≡ best) × NoneBelow gs least)
      ⊎ ((d : ℕ) × (scan_ages gs i least best ≡ some (i + d)) × Least gs least d)
unfolding scan_ages NoneBelow
scan_ages_lem [] i least best = inl (refl, λ k e. absurd (grind (arith, e)))
scan_ages_lem (g ∷ gs) i least best = elim (Bool-cases (is_resident g && ltb g.age least)) [
  | inl better ↦ elim (scan_ages_lem gs (i + 1) g.age (some i)) [
    | inl (q, n) ↦ inr (0, rw (better, q) (ap some (omega arith)), Least-here g gs least better n)
    | inr (d, q, l) ↦ inr (
      suc d,
      rw (better, q) (ap some (omega arith)),
      Least-cons g gs least g.age d (λ _. omega arith) (omega (arith, (is_better g least better).1))
          l,
    )
  ]
  | inr worse ↦ elim (scan_ages_lem gs (i + 1) least best) [
    | inl (q, n) ↦ inl (rw worse q, NoneBelow-cons g gs least (not_better g least worse) n)
    | inr (d, q, l) ↦ inr (
      suc d,
      rw (worse, q) (ap some (omega arith)),
      Least-cons g gs least least d (not_better g least worse) (omega arith) l,
    )
  ]
]

-- If a page in memory has an age below the largest that is possible, `NextSwappedPageAging` finds a
-- page in memory that is no older than that one.
pub next_swapped_aging_lem :
    (p : Process) (k : ℕ)
    → is_resident (page p.pages k) ≡ true
    → (page p.pages k).age < 0xffffffff
    → (v : ℕ) × (next_swapped_aging p ≡ some v)
      × (is_resident (page p.pages v) ≡ true)
      × ((page p.pages v).age ≤ (page p.pages k).age)
unfolding next_swapped_aging Least NoneBelow
next_swapped_aging_lem p k e lt = elim (scan_ages_lem p.pages 0 0xffffffff none) [
  | inl (q, n) ↦ absurd (let above : 0xffffffff ≤ (page p.pages k).age = n k e in omega arith)
  | inr (d, q, l) ↦ (d, q ∙ ap some (omega arith), l.0, l.2 k e)
]

-- The memory when the round comes to slot `k`.
abbrev pub memory_at : (pgdir : ℕ) → List PagingMetadata → Memory → (k : ℕ) → Memory
memory_at pgdir gs m k = (age_pages pgdir (take k gs) m).1

-- Whether the round finds the page of slot `k` referenced.
abbrev pub referenced : (pgdir : ℕ) → List PagingMetadata → Memory → (k : ℕ) → Bool
referenced pgdir gs m k =
    let m' = memory_at pgdir gs m k in
    has_bit (read m' (entry_of m' pgdir (page gs k).virtual_address)) pte_a

page-age_pages :
    (pgdir : ℕ) (gs : List PagingMetadata) (m : Memory) (k : ℕ)
    → page (age_pages pgdir gs m).0 k ≡ (age_page pgdir (page gs k) (memory_at pgdir gs m k)).0
unfolding age_pages age_page
page-age_pages pgdir [] m k = refl
page-age_pages pgdir (g ∷ gs) m zero = refl
page-age_pages pgdir (g ∷ gs) m (suc k) = page-age_pages pgdir gs (age_page pgdir g m).1 k

-- What the round does to the page of a slot that is in memory.
resident_aged :
    (pgdir : ℕ) (g : PagingMetadata) (m : Memory)
    → is_resident g ≡ true
    → (age_page pgdir g m).0
      ≡ record g { age = aged (has_bit (read m (entry_of m pgdir g.virtual_address)) pte_a) g.age }
unfolding age_page
resident_aged pgdir g m e = rw e refl

resident_kept :
    (b : Bool) (g : PagingMetadata) (a : ℕ) (m m' : Memory)
    → is_resident
        (if◌then◌else◌ {A = PagingMetadata × Memory} b (record g { age = a }, m') (g, m)).0
      ≡ is_resident g
resident_kept true g a m m' = refl
resident_kept false g a m m' = refl

is_resident-age_pages :
    (pgdir : ℕ) (gs : List PagingMetadata) (m : Memory) (k : ℕ)
    → is_resident (page (age_pages pgdir gs m).0 k) ≡ is_resident (page gs k)
unfolding age_page
is_resident-age_pages pgdir gs m k =
    ap is_resident (page-age_pages pgdir gs m k)
    ∙ resident_kept (is_resident (page gs k)) (page gs k) _ (memory_at pgdir gs m k) _

age-age_pages :
    (pgdir : ℕ) (gs : List PagingMetadata) (m : Memory) (k : ℕ)
    → is_resident (page gs k) ≡ true
    → (page (age_pages pgdir gs m).0 k).age ≡ aged (referenced pgdir gs m k) (page gs k).age
age-age_pages pgdir gs m k e =
    ap (λ g. g.age)
      (page-age_pages pgdir gs m k ∙ resident_aged pgdir (page gs k) (memory_at pgdir gs m k) e)

aged_order :
    (r s : Bool) (age bound : ℕ)
    → s ≡ false
    → bound < 2 ^ 32
    → aged r age ≤ aged s bound
    → (r ≡ false) × (age / 2 ≤ bound / 2)
unfolding aged
aged_order r true age bound e lt le = absurd (grind (arith, e))
aged_order true false age bound e lt le = absurd (omega (arith, le))
aged_order false false age bound e lt le = (refl, le)

aged_below : (s : Bool) (age : ℕ) → s ≡ false → age < 2 ^ 32 → aged s age < 0xffffffff
unfolding aged
aged_below true age e lt = absurd (grind (arith, e))
aged_below false age e lt = omega arith

-- After a round of aging, with 32-bit ages: if a page in memory was found unreferenced in the round,
-- then the page to swap out is in memory too, was found unreferenced in the round, and was no older
-- before it, less the bit that is shifted out.
pub victim_unreferenced :
    (p : Process) (m : Memory) (k : ℕ)
    → is_resident (page p.pages k) ≡ true
    → (page p.pages k).age < 2 ^ 32
    → referenced p.pgdir p.pages m k ≡ false
    → (v : ℕ) × (next_swapped_aging (record p { pages = (age_pages p.pgdir p.pages m).0 }) ≡ some v)
      × (is_resident (page p.pages v) ≡ true)
      × (referenced p.pgdir p.pages m v ≡ false)
      × ((page p.pages v).age / 2 ≤ (page p.pages k).age / 2)
victim_unreferenced p m k e lt unref =
    let is_aged : (page (age_pages p.pgdir p.pages m).0 k).age
        ≡ aged (referenced p.pgdir p.pages m k) (page p.pages k).age =
      age-age_pages p.pgdir p.pages m k e in
    let (v, q, res, le) =
      next_swapped_aging_lem (record p { pages = (age_pages p.pgdir p.pages m).0 }) k
        (is_resident-age_pages p.pgdir p.pages m k ∙ e)
        (rw is_aged (aged_below (referenced p.pgdir p.pages m k) (page p.pages k).age unref lt)) in
    let here : is_resident (page p.pages v) ≡ true =
      sym (is_resident-age_pages p.pgdir p.pages m v) ∙ res in
    let (r, old) =
      aged_order (referenced p.pgdir p.pages m v) (referenced p.pgdir p.pages m k)
        (page p.pages v).age (page p.pages k).age unref lt
        (subst (λ a. a ≤ aged (referenced p.pgdir p.pages m k) (page p.pages k).age)
          (age-age_pages p.pgdir p.pages m v here)
          (subst (λ a. (page (age_pages p.pgdir p.pages m).0 v).age ≤ a) is_aged le)) in
    (v, q, here, r, old)
