-- ===== src/Icache/Unique.antt =====
-- An inode has one slot, and its counter is the number of references.
use cse314_operating_system.Base.{
  get_or-set_self, ℕ, zero, suc, ◌+◌, ◌≤◌, ◌<◌, ◌≡◌, sym, ap, ap₂, subst, ◌∙◌, inl, inr, true, ◌&&◌,
  Option, none, some, List, [], ◌∷◌, arith, ◌==◌, if◌then◌else◌, Bool-cases, length, set,
}
use cse314_operating_system.Icache.{
  no_inode, iget_at, Slot, at, is_inode, Scan, cached, empty_slot, full, scan, idup, recycle, iget,
}
use cse314_operating_system.Icache.Search.{holds, copies, AllUsed, Scanned, scan-Scanned}

-- The references to an inode by a slot, and by all
abbrev pub held : (dev inum : ℕ) → Slot → ℕ
held dev inum s = if s.inode.dev == dev && s.inode.inum == inum then s.ref else 0

abbrev pub refs_of : (dev inum : ℕ) → List Slot → ℕ
refs_of dev inum [] = 0
refs_of dev inum (s ∷ ss) = held dev inum s + refs_of dev inum ss

-- One when both are the same inode
abbrev pub same : (dev inum d k : ℕ) → ℕ
same dev inum d k = if dev == d && inum == k then 1 else 0

abbrev pub Unique : List Slot → Type 0
Unique ss = (dev inum : ℕ) → copies dev inum ss ≤ 1

pub copies-set :
    (d k i : ℕ) (s : Slot) (ss : List Slot)
    → i < length ss
    → copies d k (set ss i s) + holds d k (at ss i) ≡ copies d k ss + holds d k s
copies-set d k i s [] h = absurd (omega (arith, h))
copies-set d k zero s (x ∷ ss) h = omega arith
copies-set d k (suc i) s (x ∷ ss) h = omega (arith, copies-set d k i s ss (omega (arith, h)))

pub refs_of-set :
    (d k i : ℕ) (s : Slot) (ss : List Slot)
    → i < length ss
    → refs_of d k (set ss i s) + held d k (at ss i) ≡ refs_of d k ss + held d k s
refs_of-set d k i s [] h = absurd (omega (arith, h))
refs_of-set d k zero s (x ∷ ss) h = omega arith
refs_of-set d k (suc i) s (x ∷ ss) h = omega (arith, refs_of-set d k i s ss (omega (arith, h)))

-- What `iget` may answer: a panic with all slots in use for other inodes; else the slot that now holds the inode, and
-- the inode's references are one more, all else as they were
unfoldable pub Got : (dev inum : ℕ) → List Slot → Option (ℕ × List Slot) → Type 0
Got dev inum ss none = (copies dev inum ss ≡ 0) × AllUsed ss
Got dev inum ss (some (i, ss')) =
    (i < length ss)
    × (is_inode dev inum (at ss' i) ≡ true)
    × ((d k : ℕ) → refs_of d k ss' ≡ refs_of d k ss + same dev inum d k)
    × Unique ss'

pub at-set_self : (ss : List Slot) (i : ℕ) (s : Slot) → i < length ss → at (set ss i s) i ≡ s
at-set_self ss i s h = get_or-set_self ss i s (record { ref = 0; inode = no_inode }) h

-- A slot put in the place of another, with a reference to an inode more
set-Got :
    (dev inum i : ℕ) (s : Slot) (ss : List Slot)
    → i < length ss
    → is_inode dev inum s ≡ true
    → ((d k : ℕ) → held d k s ≡ held d k (at ss i) + same dev inum d k)
    → ((d k : ℕ) → copies d k (set ss i s) ≤ 1)
    → Got dev inum ss (some (i, set ss i s))
unfolding Got
set-Got dev inum i s ss h t more one = (
  h,
  ap (is_inode dev inum) (at-set_self ss i s h) ∙ t,
  λ d k. omega (arith, refs_of-set d k i s ss h, more d k),
  one,
)

holds-used : (d k : ℕ) (s : Slot) → s.ref ≡ 0 → holds d k s ≡ 0
unfolding is_inode
holds-used d k s e = ground (arith, e)

holds-recycle : (d k dev inum : ℕ) (s : Slot) → holds d k (recycle dev inum s) ≡ same dev inum d k
unfolding is_inode recycle
holds-recycle d k dev inum s = ground arith

more-recycle :
    (d k dev inum : ℕ) (s : Slot)
    → s.ref ≡ 0
    → held d k (recycle dev inum s) ≡ held d k s + same dev inum d k
unfolding recycle
more-recycle d k dev inum s e = ground (arith, e)

is_inode-recycle : (dev inum : ℕ) (s : Slot) → is_inode dev inum (recycle dev inum s) ≡ true
unfolding is_inode recycle
is_inode-recycle dev inum s = ground arith

is_inode-idup :
    (dev inum : ℕ) (s : Slot)
    → is_inode dev inum s ≡ true
    → is_inode dev inum (record s { ref = s.ref + 1 }) ≡ true
unfolding is_inode
is_inode-idup dev inum s t = ground (arith, t)

still_one :
    (dev inum d k : ℕ) (ss : List Slot)
    → copies dev inum ss ≡ 0
    → copies d k ss ≤ 1
    → copies d k ss + same dev inum d k ≤ 1
still_one dev inum d k ss z one = elim (Bool-cases (dev == d && inum == k)) [
  | inr other ↦ rw other (omega (arith, one))
  | inl here ↦
      let is : (dev ≡ d) × (inum ≡ k) = ground (arith, here) in
      let nowhere : copies d k ss ≡ 0 = sym (ap₂ (λ x y. copies x y ss) is.0 is.1) ∙ z in
      rw here (omega (arith, nowhere))
]

more-idup :
    (dev inum d k : ℕ) (s : Slot)
    → is_inode dev inum s ≡ true
    → held d k (record s { ref = s.ref + 1 }) ≡ held d k s + same dev inum d k
unfolding is_inode
more-idup dev inum d k s t = ground (arith, t)

holds-idup :
    (dev inum d k : ℕ) (s : Slot)
    → is_inode dev inum s ≡ true
    → holds d k (record s { ref = s.ref + 1 }) ≡ holds d k s
unfolding is_inode
holds-idup dev inum d k s t = ground (arith, t)

Got-scan :
    (dev inum : ℕ) (ss : List Slot) (r : Scan)
    → Unique ss
    → Scanned dev inum 0 none ss r
    → Got dev inum ss (iget_at dev inum ss r)
unfolding Scanned Got iget_at idup
Got-scan dev inum ss (cached k) u (j, e, h, t) =
    let place : k ≡ j = omega (arith, e) in
    let there : is_inode dev inum (at ss k) ≡ true =
      subst (λ x. is_inode dev inum (at ss x) ≡ true) (sym place) t in
    let inside : k < length ss = omega (arith, e, h) in
    let s' : Slot = record (at ss k) { ref = (at ss k).ref + 1 } in
    set-Got dev inum k s' ss inside (is_inode-idup dev inum (at ss k) there)
      (λ d n. more-idup dev inum d n (at ss k) there)
      (λ d n.
        omega
          (arith, copies-set d n k s' ss inside, holds-idup dev inum d n (at ss k) there, u d n))
Got-scan dev inum ss (empty_slot k) u (z, inl e) = absurd (cc e)
Got-scan dev inum ss (empty_slot k) u (z, inr (j, e, h, free)) =
    let place : k ≡ j = omega (arith, e) in
    let unused : (at ss k).ref ≡ 0 = subst (λ x. (at ss x).ref ≡ 0) (sym place) free in
    let inside : k < length ss = omega (arith, e, h) in
    let s' = recycle dev inum (at ss k) in
    set-Got dev inum k s' ss inside (is_inode-recycle dev inum (at ss k))
      (λ d n. more-recycle d n dev inum (at ss k) unused)
      (λ d n. omega (
        arith,
        copies-set d n k s' ss inside,
        holds-used d n (at ss k) unused,
        holds-recycle d n dev inum (at ss k),
        still_one dev inum d n ss z (u d n),
      ))
Got-scan dev inum ss full u (z, e, used) = (z, used)

-- In a cache with at most one slot for each inode, `iget` panics only with every slot in use for another inode. Else it
-- answers a slot that holds the inode, which has a reference more; all other inodes have as many as before, and each
-- inode still has at most one slot.
pub iget-Got : (dev inum : ℕ) (ss : List Slot) → Unique ss → Got dev inum ss (iget dev inum ss)
unfolding iget
iget-Got dev inum ss u =
    Got-scan dev inum ss (scan dev inum 0 none ss) u (scan-Scanned dev inum 0 none ss)
