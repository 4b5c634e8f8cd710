-- ===== src/Icache/Search.antt =====
-- What the loop of `iget` finds.
use cse314_operating_system.Base.{
  ℕ, zero, suc, ◌+◌, ◌<◌, ◌≡◌, refl, ◌⊎◌, inl, inr, true, false, Option, none, some, List, [], ◌∷◌,
  arith, ◌==◌, if◌then◌else◌, Bool-cases, length,
}
use cse314_operating_system.Icache.{
  Slot, at, is_inode, Scan, cached, empty_slot, full, remember, scan,
}

-- One for an inode that a slot holds
abbrev pub holds : (dev inum : ℕ) → Slot → ℕ
holds dev inum s = if is_inode dev inum s then 1 else 0

-- How many slots hold an inode
abbrev pub copies : (dev inum : ℕ) → List Slot → ℕ
copies dev inum [] = 0
copies dev inum (s ∷ ss) = holds dev inum s + copies dev inum ss

-- No free slot
unfoldable pub AllUsed : List Slot → Type 0
AllUsed ss = (j : ℕ) → j < length ss → 0 < (at ss j).ref

-- What the end of the loop says of the slots from `i` on
unfoldable pub Scanned : (dev inum i : ℕ) → Option ℕ → List Slot → Scan → Type 0
Scanned dev inum i empty ss (cached k) =
    (j : ℕ) × (k ≡ i + j) × (j < length ss) × (is_inode dev inum (at ss j) ≡ true)
Scanned dev inum i empty ss (empty_slot k) =
    (copies dev inum ss ≡ 0)
    × ((empty ≡ some k) ⊎ ((j : ℕ) × (k ≡ i + j) × (j < length ss) × ((at ss j).ref ≡ 0)))
Scanned dev inum i empty ss full = (copies dev inum ss ≡ 0) × (empty ≡ none) × AllUsed ss

remember-some :
    (empty : Option ℕ) (i k : ℕ) (s : Slot)
    → remember empty i s ≡ some k
    → (empty ≡ some k) ⊎ ((k ≡ i) × (s.ref ≡ 0))
unfolding remember
remember-some (some e) i k s h = inl h
remember-some none i k s h = elim (Bool-cases (s.ref == 0)) [
  | inl t ↦
      let yes : remember none i s ≡ some i = rw (t, remember) refl in
      inr (cc (h, yes), ground (arith, t))
  | inr t ↦ let no : remember none i s ≡ none = rw (t, remember) refl in absurd (cc (h, no))
]

remember-none :
    (empty : Option ℕ) (i : ℕ) (s : Slot) → remember empty i s ≡ none → (empty ≡ none) × (0 < s.ref)
unfolding remember
remember-none (some e) i s h = absurd (cc h)
remember-none none i s h = elim (Bool-cases (s.ref == 0)) [
  | inl t ↦ let yes : remember none i s ≡ some i = rw (t, remember) refl in absurd (cc (h, yes))
  | inr t ↦ (refl, ground (arith, t))
]

AllUsed-∷ : (s : Slot) (ss : List Slot) → 0 < s.ref → AllUsed ss → AllUsed (s ∷ ss)
unfolding AllUsed
AllUsed-∷ s ss here used zero h = here
AllUsed-∷ s ss here used (suc j) h = used j (omega (arith, h))

Scanned-∷ :
    (dev inum i : ℕ) (empty : Option ℕ) (s : Slot) (ss : List Slot) (r : Scan)
    → is_inode dev inum s ≡ false
    → Scanned dev inum (i + 1) (remember empty i s) ss r
    → Scanned dev inum i empty (s ∷ ss) r
unfolding Scanned AllUsed
Scanned-∷ dev inum i empty s ss (cached k) miss (j, e, h, t) =
    (suc j, omega (arith, e), omega (arith, h), t)
Scanned-∷ dev inum i empty s ss (empty_slot k) miss (z, inr (j, e, h, t)) =
    (rw miss (omega (arith, z)), inr (suc j, omega (arith, e), omega (arith, h), t))
Scanned-∷ dev inum i empty s ss (empty_slot k) miss (z, inl e) = (
  rw miss (omega (arith, z)),
  elim (remember-some empty i k s e) [
    | inl before ↦ inl before
    | inr (here, free) ↦ inr (0, omega (arith, here), omega arith, free)
  ],
)
Scanned-∷ dev inum i empty s ss full miss (z, e, used) =
    let (before, here) = remember-none empty i s e in
    (rw miss (omega (arith, z)), before, AllUsed-∷ s ss here used)

pub scan-Scanned :
    (dev inum i : ℕ) (empty : Option ℕ) (ss : List Slot)
    → Scanned dev inum i empty ss (scan dev inum i empty ss)
unfolding scan Scanned AllUsed
scan-Scanned dev inum i none [] = (refl, refl, λ j h. absurd (omega (arith, h)))
scan-Scanned dev inum i (some e) [] = (refl, inl refl)
scan-Scanned dev inum i empty (s ∷ ss) = elim (Bool-cases (is_inode dev inum s)) [
  | inl t ↦ rw (t, scan) (0, omega arith, omega arith, t)
  | inr t ↦
      rw (t, scan)
        (Scanned-∷ dev inum i empty s ss (scan dev inum (i + 1) (remember empty i s) ss) t
          (scan-Scanned dev inum (i + 1) (remember empty i s) ss))
]
