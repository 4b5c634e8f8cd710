-- ===== src/Icache/Steps.antt =====
-- The calls on the cache of inodes by any users in any order.
use cse314_operating_system.Base.{
  ℕ, zero, suc, ◌+◌, ◌^◌, ◌≤◌, ◌<◌, ◌≡◌, refl, sym, subst, inl, inr, none, some, List, arith, ltb,
  Bool-cases, Option-cases, length, set, replicate,
}
use cse314_operating_system.Fs.{Blocks, Superblock}
use cse314_operating_system.Fs.Inode.{Inode, load}
use cse314_operating_system.Fs.Inode.Named.{Named, load-Named}
use cse314_operating_system.Icache.{Slot, no_inode, at, is_inode, idup, iget, ilock, iput, ialloc}
use cse314_operating_system.Icache.Search.{holds, copies}
use cse314_operating_system.Icache.Unique.{Unique, Got, iget-Got, copies-set}
use cse314_operating_system.Icache.Put.{Put, iput-Put}
use cse314_operating_system.Icache.Alloc.{Allocated, ialloc-Allocated}

-- The cache and the disk
pub record State : Type 0 where
  pub slots : List Slot
  pub disk : Blocks

-- A call that does not panic, by a user with a reference where it takes one. A user of a locked inode may change it,
-- but for its device and its number, and the disk.
pub data Step (sb : Superblock) (s : State) : State → Type 0 where
  gets :
      (dev inum i : ℕ) (ss : List Slot)
      → iget dev inum s.slots ≡ some (i, ss)
      → Step sb s (record s { slots = ss })
  dups :
      (i : ℕ)
      → i < length s.slots
      → 0 < (at s.slots i).ref
      → Step sb s (record s { slots = idup i s.slots })
  locks :
      (i : ℕ) (ss : List Slot)
      → i < length s.slots
      → ilock sb i s.slots s.disk ≡ some ss
      → Step sb s (record s { slots = ss })
  changes :
      (i : ℕ) (ip : Inode) (d : Blocks)
      → i < length s.slots
      → Named (at s.slots i).inode ip
      → Step sb s
          (record { slots = set s.slots i (record (at s.slots i) { inode = ip }); disk = d })
  puts :
      (i : ℕ) (ss : List Slot) (d : Blocks)
      → i < length s.slots
      → 0 < (at s.slots i).ref
      → iput sb i s.slots s.disk ≡ some (ss, d)
      → Step sb s (record { slots = ss; disk = d })
  allocs :
      (dev type i : ℕ) (ss : List Slot) (d : Blocks)
      → type < 2 ^ 16
      → ialloc sb dev type s.slots s.disk ≡ some (i, ss, d)
      → Step sb s (record { slots = ss; disk = d })

-- NINODE empty slots
abbrev pub booted : Blocks → State
booted d = record { slots = replicate 50 (record { ref = 0; inode = no_inode }); disk = d }

pub data Reach (sb : Superblock) : State → Type 0 where
  start : (d : Blocks) → Reach sb (booted d)
  later : {s t : State} → Reach sb s → Step sb s t → Reach sb t

empty-Unique :
    (n dev inum : ℕ) → copies dev inum (replicate n (record { ref = 0; inode = no_inode })) ≡ 0
unfolding is_inode
empty-Unique zero dev inum = refl
empty-Unique (suc n) dev inum = omega (arith, empty-Unique n dev inum)

-- A slot put in the place of one that holds the same inode
set-Unique :
    (i : ℕ) (s : Slot) (ss : List Slot)
    → i < length ss
    → ((dev inum : ℕ) → holds dev inum s ≤ holds dev inum (at ss i))
    → Unique ss
    → Unique (set ss i s)
set-Unique i s ss h le u dev inum =
    omega (arith, copies-set dev inum i s ss h, le dev inum, u dev inum)

holds-ref :
    (dev inum : ℕ) (s : Slot)
    → 0 < s.ref
    → holds dev inum (record s { ref = s.ref + 1 }) ≤ holds dev inum s
unfolding is_inode
holds-ref dev inum s h = ground (arith, h)

holds-Named :
    (dev inum : ℕ) (s : Slot) (ip : Inode)
    → Named s.inode ip
    → holds dev inum (record s { inode = ip }) ≤ holds dev inum s
unfolding is_inode
holds-Named dev inum s ip (e, e') = ground (arith, e, e')

ilock-Unique :
    (sb : Superblock) (i : ℕ) (ss ss' : List Slot) (d : Blocks)
    → i < length ss
    → ilock sb i ss d ≡ some ss'
    → Unique ss
    → Unique ss'
unfolding ilock
ilock-Unique sb i ss ss' d h e u = elim (Bool-cases (ltb (at ss i).ref 1)) [
  | inl t ↦ let panic : ilock sb i ss d ≡ none = rw (t, ilock) refl in absurd (cc (e, panic))
  | inr t ↦ elim (Option-cases (load sb (at ss i).inode d)) [
    | inl q ↦ let panic : ilock sb i ss d ≡ none = rw (t, q, ilock) refl in absurd (cc (e, panic))
    | inr (ip, q) ↦
        let done : ilock sb i ss d ≡ some (set ss i (record (at ss i) { inode = ip })) =
          rw (t, q, ilock) refl in
        let same : ss' ≡ set ss i (record (at ss i) { inode = ip }) = cc (e, done) in
        subst Unique (sym same) (
          set-Unique i (record (at ss i) { inode = ip }) ss h
            (λ dev inum. holds-Named dev inum (at ss i) ip (load-Named sb (at ss i).inode ip d q))
            u)
  ]
]

pub Step-Unique : (sb : Superblock) (s t : State) → Step sb s t → Unique s.slots → Unique t.slots
unfolding idup Got Put Allocated
Step-Unique sb s t (gets dev inum i ss e) u =
    let got : Got dev inum s.slots (some (i, ss)) =
      subst (Got dev inum s.slots) e (iget-Got dev inum s.slots u) in
    got.3
Step-Unique sb s t (dups i h p) u =
    set-Unique i (record (at s.slots i) { ref = (at s.slots i).ref + 1 }) s.slots h
      (λ dev inum. holds-ref dev inum (at s.slots i) p) u
Step-Unique sb s t (locks i ss h e) u = ilock-Unique sb i s.slots ss s.disk h e u
Step-Unique sb s t (changes i ip d h named) u =
    set-Unique i (record (at s.slots i) { inode = ip }) s.slots h
      (λ dev inum. holds-Named dev inum (at s.slots i) ip named) u
Step-Unique sb s t (puts i ss d h p e) u =
    let put : Put sb i s.slots s.disk (some (ss, d)) =
      subst (Put sb i s.slots s.disk) e (iput-Put sb i s.slots s.disk u h p) in
    put.1
Step-Unique sb s t (allocs dev type i ss d small e) u =
    let all : Allocated sb dev type s.slots s.disk (some (i, ss, d)) =
      subst (Allocated sb dev type s.slots s.disk) e
        (ialloc-Allocated sb dev type s.slots s.disk u small) in
    all.2.3

Reach-Unique : (sb : Superblock) (s : State) → Reach sb s → Unique s.slots
Reach-Unique sb s (start d) = λ dev inum. omega (arith, empty-Unique 50 dev inum)
Reach-Unique sb s (later {s = before} r st) = Step-Unique sb before s st (Reach-Unique sb before r)

-- In every cache that calls can lead to, by any users in any order, each inode has at most one slot. `iget` panics
-- there only with every slot in use for another inode; else it answers the slot that holds the inode, which has a
-- reference more, while all other inodes have as many as before.
pub Reach-Got :
    (sb : Superblock) (s : State) (dev inum : ℕ)
    → Reach sb s
    → Unique s.slots × Got dev inum s.slots (iget dev inum s.slots)
Reach-Got sb s dev inum r = let u = Reach-Unique sb s r in (u, iget-Got dev inum s.slots u)
