-- ===== src/Icache/Alloc.antt =====
-- `ialloc` takes the first inode that is free on disk.
use cse314_operating_system.Base.{
  ℕ, zero, suc, ◌+◌, ◌-◌, ◌^◌, ◌≤◌, ◌<◌, ◌≡◌, refl, sym, ap, subst, ◌∙◌, ◌≢◌, ◌⊎◌, inl, inr, Option,
  none, some, List, arith, ◌==◌, Bool-cases, Option-cases, replicate,
}
use cse314_operating_system.Fs.{Blocks, Superblock}
use cse314_operating_system.Fs.Inode.{put_half, put_words, iblock, dinode_offset}
use cse314_operating_system.Fs.Inode.Update.{put_half-away, put_words-away, half_at-put_half}
use cse314_operating_system.Icache.{Slot, iget, ialloc_from, ialloc}
use cse314_operating_system.Icache.Search.{copies, AllUsed}
use cse314_operating_system.Icache.Unique.{Unique, Got, iget-Got}
use cse314_operating_system.Icache.Put.{type_on_disk}

-- The disk with inode `m` taken: all its fields are 0 but for the type.
abbrev taken : Superblock → (type m : ℕ) → Blocks → Blocks
taken sb type m d =
    put_half (put_words (replicate 16 0) d (iblock sb m) (dinode_offset m)) (iblock sb m)
      (dinode_offset m) type

-- What the loop of `ialloc` may find in `n` inodes from `inum` on
Found : Superblock → (type n inum : ℕ) → Blocks → Option (ℕ × Blocks) → Type 0
Found sb type n inum d none = (k : ℕ) → k < n → type_on_disk sb (inum + k) d ≢ 0
Found sb type n inum d (some (m, d')) =
    (j : ℕ) × (j < n)
    × (m ≡ inum + j)
    × (type_on_disk sb m d ≡ 0)
    × ((k : ℕ) → k < j → type_on_disk sb (inum + k) d ≢ 0)
    × (d' ≡ taken sb type m d)

passed :
    (sb : Superblock) (d : Blocks) (inum n : ℕ)
    → type_on_disk sb inum d ≢ 0
    → ((k : ℕ) → k < n → type_on_disk sb (inum + 1 + k) d ≢ 0)
    → (k : ℕ) → k < suc n
    → type_on_disk sb (inum + k) d ≢ 0
passed sb d inum n here rest zero h = λ e. here (ap (λ x. type_on_disk sb x d) (omega arith) ∙ e)
passed sb d inum n here rest (suc k) h =
    λ e. rest k (omega (arith, h)) (ap (λ x. type_on_disk sb x d) (omega arith) ∙ e)

Found-next :
    (sb : Superblock) (type n inum : ℕ) (d : Blocks) (r : Option (ℕ × Blocks))
    → type_on_disk sb inum d ≢ 0
    → Found sb type n (inum + 1) d r
    → Found sb type (suc n) inum d r
unfolding Found
Found-next sb type n inum d none here f = passed sb d inum n here f
Found-next sb type n inum d (some (m, d')) here (j, h, e, free, before, same) =
    (suc j, omega (arith, h), omega (arith, e), free, passed sb d inum j here before, same)

ialloc_from-Found :
    (sb : Superblock) (type n inum : ℕ) (d : Blocks)
    → Found sb type n inum d (ialloc_from sb type n inum d)
unfolding ialloc_from Found
ialloc_from-Found sb type zero inum d = λ k h. absurd (omega (arith, h))
ialloc_from-Found sb type (suc n) inum d = elim (Bool-cases (type_on_disk sb inum d == 0)) [
  | inl t ↦
      rw (t, ialloc_from)
        (0, omega arith, omega arith, ground (arith, t), λ k h. absurd (omega (arith, h)), refl)
  | inr t ↦
      rw (t, ialloc_from)
        (Found-next sb type n inum d (ialloc_from sb type n (inum + 1) d)
          (λ e. absurd (ground (arith, t, e))) (ialloc_from-Found sb type n (inum + 1) d))
]

-- Inode `m` is the first free one, and `d'` differs from `d` in its 64 bytes only, where it has the type.
pub record Taken (sb : Superblock) (type m : ℕ) (d d' : Blocks) : Type 0 where
  pub positive : 0 < m
  pub in_range : m < sb.ninodes
  pub free : type_on_disk sb m d ≡ 0
  pub before : (k : ℕ) → 0 < k → k < m → type_on_disk sb k d ≢ 0
  pub typed : type_on_disk sb m d' ≡ type
  pub others :
      (b j : ℕ)
      → (b ≢ iblock sb m) ⊎ ((j < dinode_offset m) ⊎ (dinode_offset m + 64 ≤ j))
      → d' b j ≡ d b j

-- What `ialloc` may do: a panic with no inode free on disk, or with no slot for the first free one; or the slot of that
-- inode, taken as above
unfoldable pub Allocated :
    Superblock → (dev type : ℕ) → List Slot → Blocks → Option (ℕ × List Slot × Blocks) → Type 0
Allocated sb dev type ss d none =
    ((m : ℕ) → 0 < m → m < sb.ninodes → type_on_disk sb m d ≢ 0)
    ⊎ ((m : ℕ) × (type_on_disk sb m d ≡ 0) × (copies dev m ss ≡ 0) × AllUsed ss)
Allocated sb dev type ss d (some (i, ss', d')) =
    (m : ℕ) × Taken sb type m d d' × Got dev m ss (some (i, ss'))

from_one :
    (sb : Superblock) (d : Blocks) (n : ℕ)
    → ((k : ℕ) → k < n → type_on_disk sb (1 + k) d ≢ 0)
    → (k : ℕ) → 0 < k
    → k < n + 1
    → type_on_disk sb k d ≢ 0
from_one sb d n all zero pos h = absurd (omega (arith, pos))
from_one sb d n all (suc k) pos h =
    λ e. all k (omega (arith, h)) (ap (λ x. type_on_disk sb x d) (omega arith) ∙ e)

Taken-taken :
    (sb : Superblock) (type j m : ℕ) (d : Blocks)
    → type < 2 ^ 16
    → j < sb.ninodes - 1
    → m ≡ 1 + j
    → type_on_disk sb m d ≡ 0
    → ((k : ℕ) → k < j → type_on_disk sb (1 + k) d ≢ 0)
    → Taken sb type m d (taken sb type m d)
Taken-taken sb type j m d small h e free before =
    let zeroed = put_words (replicate 16 0) d (iblock sb m) (dinode_offset m) in
    record {
      positive = omega (arith, e);
      in_range = omega (arith, e, h);
      free = free;
      before = λ k pos lt. from_one sb d j before k pos (omega (arith, lt, e));
      typed = half_at-put_half zeroed (iblock sb m) (dinode_offset m) type small;
      others = λ b i away.
          put_half-away zeroed (iblock sb m) (dinode_offset m) type b i (ground (arith, away))
          ∙ put_words-away (replicate 16 0) d (iblock sb m) (dinode_offset m) b i
              (ground (arith, away));
    }

-- In a cache with at most one slot for each inode, `ialloc` takes the first inode that is free on disk: it gets the type,
-- and no byte outside its place on disk changes. The answer is the slot that now holds the inode, as of `iget`.
-- There is a panic only when no inode is free, or when all slots are in use for others.
pub ialloc-Allocated :
    (sb : Superblock) (dev type : ℕ) (ss : List Slot) (d : Blocks)
    → Unique ss
    → type < 2 ^ 16
    → Allocated sb dev type ss d (ialloc sb dev type ss d)
unfolding ialloc Allocated Found Got
ialloc-Allocated sb dev type ss d u small =
    let n : ℕ = sb.ninodes - 1 in
    let found = ialloc_from-Found sb type n 1 d in
    elim (Option-cases (ialloc_from sb type n 1 d)) [
      | inl q ↦
          let all : Found sb type n 1 d none = subst (Found sb type n 1 d) q found in
          rw (q, ialloc) (inl (λ m pos lt. from_one sb d n all m pos (omega (arith, lt))))
      | inr ((m, d'), q) ↦
          let (j, h, e, free, before, same) = subst (Found sb type n 1 d) q found in
          let got = iget-Got dev m ss u in
          elim (Option-cases (iget dev m ss)) [
            | inl r ↦
                let full : Got dev m ss none = subst (Got dev m ss) r got in
                rw (q, r, ialloc) (inr (m, free, full.0, full.1))
            | inr ((i, ss'), r) ↦
                rw (q, r, ialloc)
                  (
                    m,
                    subst (Taken sb type m d) (sym same)
                        (Taken-taken sb type j m d small h e free before),
                    subst (Got dev m ss) r got,
                  )
          ]
    ]
