-- ===== src/Vm/Map.antt =====
-- `mappages`, `uva2ka`, `clearpteu`, `allocuvm` and `copyuvm` of Offline 3/xv6/vm.c.
use cse314_operating_system.Base.{
  ◌<◌, ℕ, zero, suc, ◌+◌, ◌-◌, ◌/◌, ◌%◌, ◌≡◌, refl, sym, ap, ◌∙◌, ◌≢◌, ◌⊎◌, inl, inr, true, false,
  not, Option, none, some, arith, ◌==◌, if◌then◌else◌, Bool-cases, Option-cases,
}
use cse314_operating_system.Base.{has_bit, set_bit, clear_bit, bit_or, bit_or_page}
use cse314_operating_system.Kalloc.{Memory, fill, kalloc}
use cse314_operating_system.Vm.{
  Entry, read, write, walk, walk_alloc, add_table, new_table, pdx, ptx, pte_addr, pte_p, pte_u,
  user_pte, pg_round_down,
}

-- How `mappages` ends
pub data Mapped : Type 0 where
  mapped : Memory → Mapped
  no_memory : Memory → Mapped
  remap : Mapped

-- One round, with the entry that `walkpgdir` finds, which becomes `pa | perm | PTE_P`
unfoldable pub enter_pte : (pa perm : ℕ) → Memory × Option Entry → Mapped
enter_pte pa perm (m, none) = no_memory m
enter_pte pa perm (m, some e) =
    if has_bit (read m e) pte_p then remap else mapped (write m e (set_bit (bit_or pa perm) pte_p))

unfoldable pub map_page : Memory → (pgdir a pa perm : ℕ) → Mapped
map_page m pgdir a pa perm = enter_pte pa perm (walk_alloc m pgdir a)

-- The loop; `rounds` is one more than the pages from `a` to `last`.
pub map_from : (rounds : ℕ) → Memory → (pgdir a pa perm : ℕ) → Mapped
map_from zero m pgdir a pa perm = mapped m
map_from (suc n) m pgdir a pa perm = elim (map_page m pgdir a pa perm) [
  | mapped m' ↦ map_from n m' pgdir (a + 4096) (pa + 4096) perm
  | no_memory m' ↦ no_memory m'
  | remap ↦ remap
]

-- `mappages`, of a region that does not wrap
pub map_pages : Memory → (pgdir va size pa perm : ℕ) → Mapped
map_pages m pgdir va size pa perm =
    map_from ((pg_round_down (va + size - 1) - pg_round_down va) / 4096 + 1) m pgdir
      (pg_round_down va) pa perm

-- `uva2ka` for an address whose table is there; `none` is the null pointer.
pub uva2ka_entry : ℕ → Option ℕ
uva2ka_entry pte =
    if not (has_bit pte pte_p)
    then none
    else if not (has_bit pte pte_u)
    then none
    else some (pte_addr pte)

-- `clearpteu`; `none` is its panic.
pub clear_pte_u : Memory → (pgdir uva : ℕ) → Option Memory
clear_pte_u m pgdir uva = elim (walk m pgdir uva) [
  | none ↦ none
  | some e ↦ some (write m e (clear_bit (read m e) pte_u))
]

-- An entry of the table of `a` that the directory leads to
Leads : Memory → (pgdir a : ℕ) → Entry → Type 0
Leads m pgdir a e = (walk m pgdir a ≡ some e) × (e.table ≢ pgdir)

found_entry :
    (m : Memory) (pgdir a : ℕ)
    → has_bit (m.words pgdir (pdx a)) pte_p ≡ true
    → walk m pgdir a ≡ some (record { table = pte_addr (m.words pgdir (pdx a)); index = ptx a })
unfolding walk
found_entry m pgdir a e = rw (e, walk) refl

-- A write outside the directory does not change what `walkpgdir` finds.
walk-write :
    (m : Memory) (pgdir a : ℕ) (e : Entry) (w : ℕ)
    → e.table ≢ pgdir
    → walk (write m e w) pgdir a ≡ walk m pgdir a
unfolding walk
walk-write m pgdir a e w ne =
    let other : (pgdir == e.table) ≡ false = ground arith in rw (other, walk) refl

read-write : (m : Memory) (e : Entry) (w : ℕ) → read (write m e w) e ≡ w
read-write m e w = ground arith

enter_pte-mapped :
    (m m' : Memory) (pgdir a pa perm : ℕ) (e : Entry)
    → Leads m pgdir a e
    → enter_pte pa perm (m, some e) ≡ mapped m'
    → (walk m' pgdir a ≡ some e) × (read m' e ≡ set_bit (bit_or pa perm) pte_p)
unfolding enter_pte Leads
enter_pte-mapped m m' pgdir a pa perm e l ok = elim (Bool-cases (has_bit (read m e) pte_p)) [
  | inl taken ↦ absurd (grind (arith, ok, taken))
  | inr free ↦
      let done : enter_pte pa perm (m, some e)
          ≡ mapped (write m e (set_bit (bit_or pa perm) pte_p)) =
        rw (free, enter_pte) refl in
      let same : write m e (set_bit (bit_or pa perm) pte_p) ≡ m' = cc in
      (
        ap (λ x. walk x pgdir a) (sym same)
            ∙ walk-write m pgdir a e (set_bit (bit_or pa perm) pte_p) l.1
            ∙ l.0,
        ap (λ x. read x e) (sym same) ∙ read-write m e (set_bit (bit_or pa perm) pte_p),
      )
]

user_pte_bits :
    (q : ℕ) → q % 4096 ≡ 0 → (has_bit (user_pte q) pte_p ≡ true) × (pte_addr (user_pte q) ≡ q)
user_pte_bits q al =
    let bits : user_pte q ≡ q + 7 = ground arith in rw bits (ground arith, omega arith)

-- A table that has been added is found.
Leads-add_table :
    (m : Memory) (pgdir a q : ℕ)
    → q ≢ pgdir
    → q % 4096 ≡ 0
    → Leads (add_table m pgdir a q) pgdir a (record { table = q; index = ptx a })
unfolding Leads add_table
Leads-add_table m pgdir a q ne al =
    let (present, addr) = user_pte_bits q al in
    let here = read-write (fill m q 0) (record { table = pgdir; index = pdx a }) (user_pte q) in
    let on : has_bit ((add_table m pgdir a q).words pgdir (pdx a)) pte_p ≡ true =
      ap (λ w. has_bit w pte_p) here ∙ present in
    (
      found_entry (add_table m pgdir a q) pgdir a on
          ∙ ap (λ t. some (record { table = t; index = ptx a })) (ap pte_addr here ∙ addr),
      ne,
    )

walk_alloc-found :
    (m : Memory) (pgdir a : ℕ) (e : Entry)
    → walk m pgdir a ≡ some e
    → walk_alloc m pgdir a ≡ (m, some e)
unfolding walk_alloc
walk_alloc-found m pgdir a e q = rw (q, walk_alloc) refl

walk_alloc-new :
    (m m1 : Memory) (pgdir a q : ℕ)
    → walk m pgdir a ≡ none
    → kalloc m ≡ (m1, some q)
    → walk_alloc m pgdir a ≡ (add_table m1 pgdir a q, some (record { table = q; index = ptx a }))
unfolding walk_alloc new_table
walk_alloc-new m m1 pgdir a q e k = rw (e, walk_alloc) (ap (new_table pgdir a) k)

walk_alloc-full :
    (m m1 : Memory) (pgdir a : ℕ)
    → walk m pgdir a ≡ none
    → kalloc m ≡ (m1, none)
    → walk_alloc m pgdir a ≡ (m1, none)
unfolding walk_alloc new_table
walk_alloc-full m m1 pgdir a e k = rw (e, walk_alloc) (ap (new_table pgdir a) k)

not_found :
    (m : Memory) (pgdir a : ℕ)
    → has_bit (m.words pgdir (pdx a)) pte_p ≡ false
    → walk m pgdir a ≡ none
unfolding walk
not_found m pgdir a e = rw (e, walk) refl

-- `walkpgdir` with `alloc` 1 fails, or finds an entry that the directory leads to.
walk_alloc-Leads :
    (m : Memory) (pgdir a : ℕ)
    → (has_bit (m.words pgdir (pdx a)) pte_p ≡ true → pte_addr (m.words pgdir (pdx a)) ≢ pgdir)
    → ((q : ℕ) → (kalloc m).1 ≡ some q → (q ≢ pgdir) × (q % 4096 ≡ 0))
    → ((m1 : Memory) × (walk_alloc m pgdir a ≡ (m1, none)))
      ⊎ ((m1 : Memory) × (e : Entry) × (walk_alloc m pgdir a ≡ (m1, some e)) × Leads m1 pgdir a e)
unfolding Leads
walk_alloc-Leads m pgdir a apart fresh = elim (Bool-cases (has_bit (m.words pgdir (pdx a)) pte_p)) [
  | inl present ↦
      let e : Entry = record { table = pte_addr (m.words pgdir (pdx a)); index = ptx a } in
      let found = found_entry m pgdir a present in
      inr (m, e, walk_alloc-found m pgdir a e found, (found, apart present))
  | inr absent ↦
      let missing = not_found m pgdir a absent in
      elim (Option-cases ((kalloc m).1)) [
        | inl full ↦ inl (
          (kalloc m).0,
          walk_alloc-full m (kalloc m).0 pgdir a missing (ap (λ o. ((kalloc m).0, o)) full),
        )
        | inr (q, got) ↦
            let (ne, al) = fresh q got in
            inr (
              add_table (kalloc m).0 pgdir a q,
              record { table = q; index = ptx a },
              walk_alloc-new m (kalloc m).0 pgdir a q missing (ap (λ o. ((kalloc m).0, o)) got),
              Leads-add_table (kalloc m).0 pgdir a q ne al,
            )
      ]
]

-- The parts of an entry that `pa | perm | PTE_P` makes
entry_bits :
    (pa perm : ℕ)
    → pa % 4096 ≡ 0
    → perm < 4096
    → (has_bit (set_bit (bit_or pa perm) pte_p) pte_p ≡ true)
      × (pte_addr (set_bit (bit_or pa perm) pte_p) ≡ pa)
      × (set_bit (bit_or pa perm) pte_p % 4096 ≡ set_bit perm pte_p)
entry_bits pa perm al below =
    let sum : bit_or pa perm ≡ pa + perm = bit_or_page pa perm al below in
    rw sum (ground arith, ground arith, ground arith)

no_mapping : (m1 : Memory) (pa perm : ℕ) (m' : Memory) → enter_pte pa perm (m1, none) ≢ mapped m'
unfolding enter_pte
no_mapping m1 pa perm m' e = grind (arith, e)

-- The entry of a page that one round of `mappages` maps is found by `walkpgdir` again, present, with the frame
-- and the permissions given. It is asked that the frame is aligned and the permissions lie in the twelve bits
-- below it, that no page table is in the page of the directory, neither the one that is there nor one that is
-- allocated, and that a page allocated for it is aligned.
pub walk-map_page :
    (m m' : Memory) (pgdir a pa perm : ℕ)
    → pa % 4096 ≡ 0
    → perm < 4096
    → (has_bit (m.words pgdir (pdx a)) pte_p ≡ true → pte_addr (m.words pgdir (pdx a)) ≢ pgdir)
    → ((q : ℕ) → (kalloc m).1 ≡ some q → (q ≢ pgdir) × (q % 4096 ≡ 0))
    → map_page m pgdir a pa perm ≡ mapped m'
    → (e : Entry) × (walk m' pgdir a ≡ some e)
      × (has_bit (read m' e) pte_p ≡ true)
      × (pte_addr (read m' e) ≡ pa)
      × (read m' e % 4096 ≡ set_bit perm pte_p)
unfolding map_page
walk-map_page m m' pgdir a pa perm al below apart fresh ok =
    elim (walk_alloc-Leads m pgdir a apart fresh) [
      | inl (m1, full) ↦ absurd (no_mapping m1 pa perm m' (sym (ap (enter_pte pa perm) full) ∙ ok))
      | inr (m1, e, got, leads) ↦
          let (found, entry) =
            enter_pte-mapped m1 m' pgdir a pa perm e leads
              (sym (ap (enter_pte pa perm) got) ∙ ok) in
          let (present, frame, bits) = entry_bits pa perm al below in
          (e, found, rw entry present, rw entry frame, rw entry bits)
    ]
