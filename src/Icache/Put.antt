-- ===== src/Icache/Put.antt =====
-- `iput` on the counters of the cache.
use cse314_operating_system.Base.{
  sym, ℕ, ◌+◌, ◌-◌, ◌≤◌, ◌<◌, ◌≡◌, refl, ap, ◌∙◌, ◌⊎◌, inl, inr, Bool, true, false, ◌&&◌, Option,
  none, some, List, arith, ◌==◌, Bool-cases, Option-cases, length,
}
use cse314_operating_system.Fs.{Blocks, Superblock}
use cse314_operating_system.Fs.Inode.{Inode, half_at, iblock, dinode_offset, iupdate, itrunc}
use cse314_operating_system.Fs.Inode.Update.{iupdate-type}
use cse314_operating_system.Fs.Inode.Named.{Named, itrunc-Named}
use cse314_operating_system.Icache.{Slot, at, is_inode, free_inode, drop_ref, iput}
use cse314_operating_system.Icache.Search.{holds}
use cse314_operating_system.Icache.Unique.{
  held, refs_of, same, Unique, copies-set, refs_of-set, at-set_self,
}

-- Whether `iput` of a slot frees its inode
abbrev pub is_last : Slot → Bool
is_last s = s.inode.valid && s.inode.nlink == 0 && s.ref == 1

-- The type of an inode on disk, which is 0 for a free one
abbrev pub type_on_disk : Superblock → (inum : ℕ) → Blocks → ℕ
type_on_disk sb inum d = half_at d (iblock sb inum) (dinode_offset inum)

-- What the first half of `iput` may do: a panic of `bfree`, for an inode that is to be freed; else the same inode with
-- the disk as it was, or freed
pub Freed : Superblock → Slot → Blocks → Option (Inode × Blocks) → Type 0
Freed sb s d none = (is_last s ≡ true) × (itrunc sb s.inode d ≡ none)
Freed sb s d (some (ip, d')) =
    Named s.inode ip
    × (((is_last s ≡ false) × (ip ≡ s.inode) × (d' ≡ d))
        ⊎ ((is_last s ≡ true) × (ip.valid ≡ false) × (type_on_disk sb s.inode.inum d' ≡ 0)))

free_inode-Freed : (sb : Superblock) (s : Slot) (d : Blocks) → Freed sb s d (free_inode sb s d)
unfolding free_inode Freed
free_inode-Freed sb s d = elim (Bool-cases (is_last s)) [
  | inr t ↦ rw (t, free_inode) ((refl, refl), inl (t, refl, refl))
  | inl t ↦ elim (Option-cases (itrunc sb s.inode d)) [
    | inl q ↦ rw (t, q, free_inode) (t, q)
    | inr ((ip, d'), q) ↦
        let named = itrunc-Named sb s.inode ip d d' q in
        let freed : Inode = record ip { type = 0 } in
        let zero_type =
          ap (λ n. type_on_disk sb n (iupdate sb freed d')) (sym named.1)
          ∙ iupdate-type sb freed d' (omega arith) in
        rw (t, q, free_inode) (named, inr (t, refl, zero_type))
  ]
]

held-drop :
    (d k : ℕ) (s : Slot) (ip : Inode)
    → Named s.inode ip
    → 0 < s.ref
    → held d k (record { ref = s.ref - 1; inode = ip }) + same s.inode.dev s.inode.inum d k
      ≡ held d k s
held-drop d k s ip (e, e') h = ground (arith, e, e', h)

holds-drop :
    (d k : ℕ) (s : Slot) (ip : Inode)
    → Named s.inode ip
    → holds d k (record { ref = s.ref - 1; inode = ip }) ≤ holds d k s
unfolding is_inode
holds-drop d k s ip (e, e') = ground (arith, e, e')

-- What `iput` of slot `i` may do: a panic as above; else the inode of the slot has a reference less and all others have
-- as many, each has at most one slot, and the disk changes only for a last reference to an inode with no link, which
-- is then free on disk, while its slot is not valid
unfoldable pub Put :
    Superblock → (i : ℕ) → List Slot → Blocks → Option (List Slot × Blocks) → Type 0
Put sb i ss d none = (is_last (at ss i) ≡ true) × (itrunc sb (at ss i).inode d ≡ none)
Put sb i ss d (some (ss', d')) =
    ((n k : ℕ)
      → refs_of n k ss' + same (at ss i).inode.dev (at ss i).inode.inum n k ≡ refs_of n k ss)
    × Unique ss'
    × (((is_last (at ss i) ≡ false) × (d' ≡ d))
        ⊎ ((is_last (at ss i) ≡ true)
            × ((at ss' i).inode.valid ≡ false)
            × (type_on_disk sb (at ss i).inode.inum d' ≡ 0)))

Put-drop_ref :
    (sb : Superblock) (i : ℕ) (ss : List Slot) (d : Blocks) (r : Option (Inode × Blocks))
    → Unique ss
    → i < length ss
    → 0 < (at ss i).ref
    → Freed sb (at ss i) d r
    → Put sb i ss d (drop_ref i ss r)
unfolding Freed Put drop_ref
Put-drop_ref sb i ss d none u h p f = f
Put-drop_ref sb i ss d (some (ip, d')) u h p (named, how) =
    let s' : Slot = record { ref = (at ss i).ref - 1; inode = ip } in
    (
      λ n k. omega (arith, refs_of-set n k i s' ss h, held-drop n k (at ss i) ip named p),
      λ n k. omega (arith, copies-set n k i s' ss h, holds-drop n k (at ss i) ip named, u n k),
      elim how [
        | inl (t, same_inode, same_disk) ↦ inl (t, same_disk)
        | inr (t, invalid, free) ↦
            inr (t, ap (λ s. s.inode.valid) (at-set_self ss i s' h) ∙ invalid, free)
      ],
    )

-- `iput` by a caller that has a reference, in a cache with at most one slot for each inode: it panics only in the
-- `itrunc` of an inode with no link whose last reference this is. Else the inode has a reference less and the others
-- as many as before, and each inode has at most one slot still. The disk is as it was, unless this is such a last
-- reference: then the inode is free on disk, with type 0, and its slot is not valid.
pub iput-Put :
    (sb : Superblock) (i : ℕ) (ss : List Slot) (d : Blocks)
    → Unique ss
    → i < length ss
    → 0 < (at ss i).ref
    → Put sb i ss d (iput sb i ss d)
unfolding iput
iput-Put sb i ss d u h p =
    Put-drop_ref sb i ss d (free_inode sb (at ss i) d) u h p (free_inode-Freed sb (at ss i) d)
