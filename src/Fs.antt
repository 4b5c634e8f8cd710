-- ===== src/Fs.antt =====
-- Offline 4/xv6/fs.c (the same in Offline 3/xv6) and fs.h: the file system over the blocks of one disk. A block
-- is what `bread` returns, the last contents that were logged or written; locks and transactions are left out.
pub mod Alloc
pub mod Bits
pub mod Bitmap
pub mod Inode
pub mod Content
mod Tests
use cse314_operating_system.Base.{
  ℕ, zero, suc, ◌+◌, ◌-◌, ◌*◌, ◌/◌, ◌%◌, ◌^◌, ◌≤◌, ◌<◌, min, ◌≡◌, refl, sym, ap, ap₂, subst, ◌∙◌,
  fun_ext, ◌≢◌, ◌↔◌, ◌⊎◌, inl, inr, Bool, true, false, not, ◌&&◌, ◌||◌, Option, none, some, List,
  [], ◌∷◌, ◌++◌, map, append-nil, append_assoc, arith, dec_lt, ℕ_discrete, ltb, leb, ◌==◌,
  if◌then◌else◌, ltb→lt, lt→ltb, leb→le, ==_iff, Bool-cases, Option-cases, length, get_elem?,
  get_or, set, take, drop, replicate, All, length-append, length-set,
}
use cse314_operating_system.Base.{has_bit, set_bit, clear_bit}

-- The bytes of each block
abbrev pub Blocks : Type 0
Blocks = ℕ → ℕ → ℕ

-- `struct superblock`
pub record Superblock : Type 0 where
  pub size : ℕ
  pub nblocks : ℕ
  pub ninodes : ℕ
  pub nlog : ℕ
  pub logstart : ℕ
  pub inodestart : ℕ
  pub bmapstart : ℕ

-- BSIZE
abbrev pub bsize : ℕ
bsize = 512

-- BPB
abbrev pub bpb : ℕ
bpb = 4096

-- BBLOCK
abbrev pub bblock : Superblock → ℕ → ℕ
bblock sb b = b / bpb + sb.bmapstart

abbrev pub put_byte : Blocks → (b i v : ℕ) → Blocks
put_byte d b i v x j = if x == b && j == i then v else d x j

-- `bzero`
pub bzero : Blocks → (b : ℕ) → Blocks
bzero d b x j = if x == b then 0 else d x j

-- The inner loop of `balloc`, with `n` rounds left: the block it finds
pub find_free : Superblock → Blocks → (n bi b : ℕ) → Option ℕ
find_free sb d zero bi b = none
find_free sb d (suc n) bi b = elim (ltb (b + bi) sb.size) [
  | false ↦ none
  | true ↦ elim (has_bit (d (bblock sb b) (bi / 8)) (2 ^ (bi % 8))) [
    | false ↦ some (b + bi)
    | true ↦ find_free sb d n (bi + 1) b
  ]
]

-- The outer loop, with `n` rounds left
pub find_free_from : Superblock → Blocks → (n b : ℕ) → Option ℕ
find_free_from sb d zero b = none
find_free_from sb d (suc n) b = elim (find_free sb d bpb 0 b) [
  | some r ↦ some r
  | none ↦ find_free_from sb d n (b + bpb)
]

-- The bit of a block set in the bitmap
pub mark_used : Superblock → Blocks → (b : ℕ) → Blocks
mark_used sb d b =
    let i = b % bpb / 8 in
    put_byte d (bblock sb b) i (set_bit (d (bblock sb b) i) (2 ^ (b % bpb % 8)))

-- `balloc`; `none` is the panic. The outer loop has a round for each block of the bitmap.
pub balloc : Superblock → Blocks → Option (ℕ × Blocks)
balloc sb d = elim (find_free_from sb d ((sb.size + (bpb - 1)) / bpb) 0) [
  | none ↦ none
  | some b ↦ some (b, bzero (mark_used sb d b) b)
]

-- `bfree`; `none` is the panic.
pub bfree : Superblock → Blocks → (b : ℕ) → Option Blocks
bfree sb d b =
    let i = b % bpb / 8 in
    let m = 2 ^ (b % bpb % 8) in
    let byte = d (bblock sb b) i in
    if has_bit byte m then some (put_byte d (bblock sb b) i (clear_bit byte m)) else none
