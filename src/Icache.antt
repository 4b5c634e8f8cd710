-- ===== src/Icache.antt =====
-- The cache of inodes of Offline 4/xv6/fs.c (the same in Offline 3/xv6), with the allocation of inodes on disk. An
-- inode of the cache is named by its place in `icache.inode`.
pub mod Search
pub mod Unique
pub mod Put
pub mod Alloc
pub mod Steps
mod Tests
use cse314_operating_system.Base.{
  ℕ, zero, suc, ◌+◌, ◌-◌, ◌*◌, ◌/◌, ◌%◌, ◌^◌, ◌≤◌, ◌<◌, min, ◌≡◌, refl, sym, ap, ap₂, subst, ◌∙◌,
  fun_ext, ◌≢◌, ◌↔◌, ◌⊎◌, inl, inr, Bool, true, false, not, ◌&&◌, ◌||◌, Option, none, some, List,
  [], ◌∷◌, ◌++◌, map, append-nil, append_assoc, arith, dec_lt, ℕ_discrete, ltb, leb, ◌==◌,
  if◌then◌else◌, ltb→lt, lt→ltb, leb→le, ==_iff, Bool-cases, Option-cases, length, get_elem?,
  get_or, set, take, drop, replicate, All, length-append, length-set,
}
use cse314_operating_system.Fs.{Blocks, Superblock}
use cse314_operating_system.Fs.Inode.{
  Inode, half_at, put_half, put_words, iblock, dinode_offset, iupdate, load, itrunc,
}

-- `struct inode`, with its counter; the sleep lock is left out.
pub record Slot : Type 0 where
  pub ref : ℕ
  pub inode : Inode

abbrev pub no_inode : Inode
no_inode = record {
  dev = 0;
  inum = 0;
  valid = false;
  type = 0;
  major = 0;
  minor = 0;
  nlink = 0;
  size = 0;
  addrs = [];
}

abbrev pub at : List Slot → (i : ℕ) → Slot
at ss i = get_or ss i (record { ref = 0; inode = no_inode })

-- The test of the loop of `iget`
pub is_inode : (dev inum : ℕ) → Slot → Bool
is_inode dev inum s = ltb 0 s.ref && s.inode.dev == dev && s.inode.inum == inum

-- How the loop of `iget` ends: at the inode, at its end with an empty slot seen, or with none
pub data Scan : Type 0 where
  cached : (i : ℕ) → Scan
  empty_slot : (i : ℕ) → Scan
  full : Scan

-- `empty` after slot `i`
pub remember : Option ℕ → (i : ℕ) → Slot → Option ℕ
remember (some e) i s = some e
remember none i s = if s.ref == 0 then some i else none

-- The loop of `iget`, from slot `i` on
pub scan : (dev inum i : ℕ) → Option ℕ → List Slot → Scan
scan dev inum i none [] = full
scan dev inum i (some e) [] = empty_slot e
scan dev inum i empty (s ∷ ss) = elim (is_inode dev inum s) [
  | true ↦ cached i
  | false ↦ scan dev inum (i + 1) (remember empty i s) ss
]

-- `idup`
pub idup : (i : ℕ) → List Slot → List Slot
idup i ss = set ss i (record (at ss i) { ref = (at ss i).ref + 1 })

-- A slot taken for an inode, whose other fields are left for `ilock` to read
pub recycle : (dev inum : ℕ) → Slot → Slot
recycle dev inum s = record {
  ref = 1;
  inode = record (s.inode) { dev = dev; inum = inum; valid = false };
}

-- What `iget` does at the end of its loop
pub iget_at : (dev inum : ℕ) → List Slot → Scan → Option (ℕ × List Slot)
iget_at dev inum ss (cached i) = some (i, idup i ss)
iget_at dev inum ss (empty_slot i) = some (i, set ss i (recycle dev inum (at ss i)))
iget_at dev inum ss full = none

-- `iget`; `none` is the panic.
pub iget : (dev inum : ℕ) → List Slot → Option (ℕ × List Slot)
iget dev inum ss = iget_at dev inum ss (scan dev inum 0 none ss)

-- `ilock` with the sleep lock free; `none` is a panic.
pub ilock : Superblock → (i : ℕ) → List Slot → Blocks → Option (List Slot)
ilock sb i ss d = if ltb (at ss i).ref 1 then none else elim (load sb (at ss i).inode d) [
  | none ↦ none
  | some ip ↦ some (set ss i (record (at ss i) { inode = ip }))
]

-- What `iput` does under the sleep lock: an inode with no link and no other reference is freed. `none` is a panic.
pub free_inode : Superblock → Slot → Blocks → Option (Inode × Blocks)
free_inode sb s d = elim (s.inode.valid && s.inode.nlink == 0 && s.ref == 1) [
  | true ↦ elim (itrunc sb s.inode d) [
    | none ↦ none
    | some (ip, d') ↦
        let freed : Inode = record ip { type = 0 } in
        some (record freed { valid = false }, iupdate sb freed d')
  ]
  | false ↦ some (s.inode, d)
]

-- The end of `iput`, which drops the reference
pub drop_ref : (i : ℕ) → List Slot → Option (Inode × Blocks) → Option (List Slot × Blocks)
drop_ref i ss none = none
drop_ref i ss (some (ip, d)) = some (set ss i (record { ref = (at ss i).ref - 1; inode = ip }), d)

-- `iput` by a caller with a reference
pub iput : Superblock → (i : ℕ) → List Slot → Blocks → Option (List Slot × Blocks)
iput sb i ss d = drop_ref i ss (free_inode sb (at ss i) d)

-- The loop of `ialloc`, for `n` inodes from `inum` on: the free inode it takes, or none
pub ialloc_from : Superblock → (type n inum : ℕ) → Blocks → Option (ℕ × Blocks)
ialloc_from sb type zero inum d = none
ialloc_from sb type (suc n) inum d = elim (half_at d (iblock sb inum) (dinode_offset inum) == 0) [
  | true ↦
      let zeroed = put_words (replicate 16 0) d (iblock sb inum) (dinode_offset inum) in
      some (inum, put_half zeroed (iblock sb inum) (dinode_offset inum) type)
  | false ↦ ialloc_from sb type n (inum + 1) d
]

-- `ialloc`; `none` is a panic, of its own or of `iget`.
pub ialloc : Superblock → (dev type : ℕ) → List Slot → Blocks → Option (ℕ × List Slot × Blocks)
ialloc sb dev type ss d = elim (ialloc_from sb type (sb.ninodes - 1) 1 d) [
  | none ↦ none
  | some (inum, d') ↦ elim (iget dev inum ss) [ none ↦ none | some (i, ss') ↦ some (i, ss', d') ]
]
