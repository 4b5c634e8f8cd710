-- ===== src/Paging/Fifo/Slot.antt =====
-- Which slot of the metadata a new page gets, and which page is the oldest.
use cse314_operating_system.Base.{
  ℕ, zero, suc, ◌+◌, ◌-◌, ◌%◌, ◌≤◌, ◌<◌, ◌≡◌, refl, ap, ◌∙◌, ◌≢◌, ◌⊎◌, inl, inr, true, false, some,
  List, arith, dec_lt, ℕ_discrete, ◌==◌, if◌then◌else◌, ==_iff, Bool-cases,
}
use cse314_operating_system.Base.{int_ge}
use cse314_operating_system.Paging.{PagingMetadata, Process, page}
use cse314_operating_system.Paging.Fifo.{
  Scan, found, all_unused, out_of_fuel, scan_back, slot_after, get_unused_slot, scan_forward,
  update_start_index,
}

-- Slots are counted from the start, going round at 15: those after the `d`-th are unused.
abbrev pub UnusedAfter : List PagingMetadata → (start d : ℕ) → Type 0
UnusedAfter ps start d = (j : ℕ) → d < j → j < 15 → (page ps ((start + j) % 15)).used ≡ false

-- What the backward search finds.
abbrev Newest : List PagingMetadata → (start : ℕ) → Scan → Type 0
Newest ps start (found s) = (s < 15) × ((s ≡ start) ⊎ ((page ps s).used ≡ false))
Newest ps start all_unused = UnusedAfter ps start 0
Newest ps start out_of_fuel = ⊥

not_start : (i start : ℕ) → (i == start) ≡ false → i ≢ start
not_start i start h e = ground arith

next_unused :
    (ps : List PagingMetadata) (start i d : ℕ)
    → start < 15
    → d < 15
    → i ≡ (start + d) % 15
    → UnusedAfter ps start d
    → ((i + 1) % 15 ≡ start) ⊎ ((page ps ((i + 1) % 15)).used ≡ false)
next_unused ps start i d hs hd e u = elim (dec_lt d 14) [
  | yes lo ↦ inr (
      ap (λ k. (page ps k).used) {x = (i + 1) % 15} (omega arith)
      ∙ u (d + 1) (omega arith) (omega arith))
  | no hi ↦ inl (omega arith)
]

unused_from :
    (ps : List PagingMetadata) (start i d : ℕ)
    → start < 15
    → d < 15
    → i ≡ (start + d) % 15
    → (page ps i).used ≡ false
    → UnusedAfter ps start d
    → UnusedAfter ps start (d - 1)
unused_from ps start i d hs hd e free u j lo hi = elim (ℕ_discrete j d) [
  | yes same ↦ ap (λ k. (page ps k).used) {x = (start + j) % 15} (omega arith) ∙ free
  | no other ↦ u j (omega arith) hi
]

scan_back-Newest :
    (f : ℕ) (ps : List PagingMetadata) (start i d : ℕ)
    → start < 15
    → d < 15
    → d < f
    → i ≡ (start + d) % 15
    → UnusedAfter ps start d
    → Newest ps start (scan_back f ps start i)
unfolding scan_back
scan_back-Newest zero ps start i d hs hd hf e u = absurd (omega arith)
scan_back-Newest (suc f) ps start i d hs hd hf e u = elim (Bool-cases (i == start)) [
  | inl done ↦ rw done (λ j lo hi. u j (omega (arith, (==_iff i start).0 done)) hi)
  | inr on ↦ elim (Bool-cases ((page ps i).used)) [
    | inl used ↦ rw (on, used) (omega arith, next_unused ps start i d hs hd e u)
    | inr free ↦
        let later : d ≢ 0 = λ z. not_start i start on (omega arith) in
        rw (on, free)
          (scan_back-Newest f ps start (if i == 0 then 14 else i - 1) (d - 1) hs (omega arith)
            (omega arith) (ground arith) (unused_from ps start i d hs hd e free u))
  ]
]

slot_after_lem :
    (p : Process) (r : Scan)
    → p.start_index < 15
    → Newest p.pages p.start_index r
    → (s : ℕ) × (slot_after p r ≡ some s)
      × (s < 15)
      × ((s ≡ p.start_index) ⊎ ((page p.pages s).used ≡ false))
unfolding slot_after
slot_after_lem p (found s) hs n = (s, refl, n.0, n.1)
slot_after_lem p out_of_fuel hs n = absurd n
slot_after_lem p all_unused hs u = elim (Bool-cases ((page p.pages p.start_index).used)) [
  | inl used ↦
      ((p.start_index + 1) % 15, rw used, omega arith, inr (u 1 (omega arith) (omega arith)))
  | inr free ↦ (
    0,
    rw free,
    omega arith,
    elim (ℕ_discrete 0 p.start_index) [
      | yes same ↦ inl same
      | no other ↦ inr (
          ap (λ k. (page p.pages k).used) {x = 0} (omega arith)
          ∙ u (15 - p.start_index) (omega arith) (omega arith))
    ],
  )
]

-- With the start in range and fewer than MAX_PSYC_PAGES pages counted in memory, the search for a slot
-- ends with a slot among the first fifteen, and that slot is unused unless it is the start itself.
get_unused_slot_lem :
    (p : Process)
    → p.start_index < 15
    → int_ge p.memory_page_count 15 ≡ false
    → (s : ℕ) × (get_unused_slot p ≡ some s)
      × (s < 15)
      × ((s ≡ p.start_index) ⊎ ((page p.pages s).used ≡ false))
unfolding get_unused_slot
get_unused_slot_lem p hs h = rw h (
    slot_after_lem p _ hs (
      scan_back-Newest 15 p.pages p.start_index
        (if p.start_index == 0 then 14 else p.start_index - 1) 14 hs (omega arith) (omega arith)
        (ground arith) (λ j lo hi. absurd (omega arith))))

scan_forward_lem :
    (f : ℕ) (ps : List PagingMetadata) (i d : ℕ)
    → i < 15
    → d < 15
    → d < f
    → (page ps ((i + d) % 15)).exists_in_memory ≡ true
    → (s : ℕ) × (scan_forward f ps i ≡ some s)
      × (s < 15)
      × ((page ps s).exists_in_memory ≡ true)
      × ((s + 15 - i) % 15 ≤ d)
unfolding scan_forward
scan_forward_lem zero ps i d hi hd hf e = absurd (omega arith)
scan_forward_lem (suc f) ps i d hi hd hf e = elim (Bool-cases ((page ps i).exists_in_memory)) [
  | inl here ↦ (i, rw here, hi, here, omega arith)
  | inr away ↦
      let later : d ≢ 0 = λ z. stays ps i d hi z e away in
      let (s, q, lt, there, near) =
        scan_forward_lem f ps ((i + 1) % 15) (d - 1) (omega arith) (omega arith) (omega arith) (
          ap (λ k. (page ps k).exists_in_memory) {x = ((i + 1) % 15 + (d - 1)) % 15} (omega arith)
          ∙ e) in
      (s, rw away q, lt, there, omega arith)
]
  where
    stays :
        (ps : List PagingMetadata) (i d : ℕ)
        → i < 15
        → d ≡ 0
        → (page ps ((i + d) % 15)).exists_in_memory ≡ true
        → (page ps i).exists_in_memory ≡ false
        → ⊥
    stays ps i d hi z e away =
        let same : (page ps i).exists_in_memory ≡ true =
          ap (λ k. (page ps k).exists_in_memory) {x = i} (omega arith) ∙ e in
        cc

-- If any of the first fifteen slots holds a page in memory and a page is counted, `UpdateStartIndexFIFO`
-- ends within fifteen rounds: the new start is the first slot after the old one, going round, that
-- holds a page in memory.
pub update_start_index_lem :
    (p : Process) (d : ℕ)
    → p.memory_page_count ≢ 0
    → d < 15
    → (page p.pages ((p.start_index + 1 + d) % 15)).exists_in_memory ≡ true
    → (s : ℕ) × (update_start_index 15 p ≡ some (record p { start_index = s }))
      × (s < 15)
      × ((page p.pages s).exists_in_memory ≡ true)
      × ((s + 15 - (p.start_index + 1) % 15) % 15 ≤ d)
unfolding update_start_index
update_start_index_lem p d n hd e =
    let (s, q, lt, there, near) =
      scan_forward_lem 15 p.pages ((p.start_index + 1) % 15) d (omega arith) hd hd (
        ap (λ k. (page p.pages k).exists_in_memory) {x = ((p.start_index + 1) % 15 + d) % 15}
          (omega arith)
        ∙ e) in
    (s, ground (arith, q), lt, there, near)

-- With the first fifteen slots in use and fewer pages counted in memory, the slot found is the start.
pub get_unused_slot_full :
    (p : Process)
    → p.start_index < 15
    → int_ge p.memory_page_count 15 ≡ false
    → ((i : ℕ) → i < 15 → (page p.pages i).used ≡ true)
    → get_unused_slot p ≡ some p.start_index
unfolding get_unused_slot slot_after scan_back
get_unused_slot_full p hs h full =
    let i = if p.start_index == 0 then 14 else p.start_index - 1 in
    let on : (i == p.start_index) ≡ false = ground arith in
    rw (h, on, full i (ground arith)) (ap some (ground arith))
