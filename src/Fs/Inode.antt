-- ===== src/Fs/Inode.antt =====
-- Inodes of Offline 4/xv6/fs.c: their copy on disk, the blocks of a file, and reading and writing it. An inode
-- is locked while its operations run.
pub mod Owning
pub mod Lookup
pub mod Logs
pub mod Growing
pub mod Bmap
pub mod Entry
pub mod Mapping
pub mod There
pub mod Trunc
pub mod TruncDirect
pub mod TruncIndirect
pub mod TruncAll
pub mod Update
pub mod Named
use cse314_operating_system.Base.{
  ℕ, zero, suc, ◌+◌, ◌-◌, ◌*◌, ◌/◌, ◌%◌, ◌^◌, ◌≤◌, ◌<◌, min, ◌≡◌, refl, sym, ap, ap₂, subst, ◌∙◌,
  fun_ext, ◌≢◌, ◌↔◌, ◌⊎◌, inl, inr, Bool, true, false, not, ◌&&◌, ◌||◌, Option, none, some, List,
  [], ◌∷◌, ◌++◌, map, append-nil, append_assoc, arith, dec_lt, ℕ_discrete, ltb, leb, ◌==◌,
  if◌then◌else◌, ltb→lt, lt→ltb, leb→le, ==_iff, Bool-cases, Option-cases, length, get_elem?,
  get_or, set, take, drop, replicate, All, length-append, length-set,
}
use cse314_operating_system.Base.{uint}
use cse314_operating_system.Strings.{Bytes}
use cse314_operating_system.Fs.{Blocks, Superblock, bsize, put_byte, balloc, bfree}

-- `struct inode` without the counter and the lock. A `short` is its 16 bits.
pub record Inode : Type 0 where
  pub dev : ℕ
  pub inum : ℕ
  pub valid : Bool
  pub type : ℕ
  pub major : ℕ
  pub minor : ℕ
  pub nlink : ℕ
  pub size : ℕ
  pub addrs : List ℕ

-- NDIRECT, NINDIRECT and MAXFILE
abbrev pub ndirect : ℕ
ndirect = 12

abbrev pub nindirect : ℕ
nindirect = 128

abbrev pub maxfile : ℕ
maxfile = 140

-- A `short` and a `uint` in a block, little-endian
abbrev pub half_at : Blocks → (b i : ℕ) → ℕ
half_at d b i = d b i + d b (i + 1) * 2 ^ 8

abbrev pub word_at : Blocks → (b i : ℕ) → ℕ
word_at d b i = d b i + d b (i + 1) * 2 ^ 8 + d b (i + 2) * 2 ^ 16 + d b (i + 3) * 2 ^ 24

pub put_half : Blocks → (b i v : ℕ) → Blocks
put_half d b i v = put_byte (put_byte d b i (v % 256)) b (i + 1) (v / 2 ^ 8 % 256)

pub put_word : Blocks → (b i v : ℕ) → Blocks
put_word d b i v =
    put_byte
      (put_byte (put_byte (put_byte d b i (v % 256)) b (i + 1) (v / 2 ^ 8 % 256)) b (i + 2)
        (v / 2 ^ 16 % 256))
      b (i + 3) (v / 2 ^ 24 % 256)

-- `memmove` to `dip->addrs`, word by word
pub put_words : List ℕ → Blocks → (b i : ℕ) → Blocks
put_words [] d b i = d
put_words (w ∷ ws) d b i = put_words ws (put_word d b i w) b (i + 4)

pub words_at : (n : ℕ) → Blocks → (b i : ℕ) → List ℕ
words_at zero d b i = []
words_at (suc n) d b i = word_at d b i ∷ words_at n d b (i + 4)

-- IBLOCK, and the place of the `struct dinode` in it, of 64 bytes
abbrev pub iblock : Superblock → ℕ → ℕ
iblock sb inum = inum / 8 + sb.inodestart

abbrev pub dinode_offset : ℕ → ℕ
dinode_offset inum = inum % 8 * 64

-- `iupdate`
pub iupdate : Superblock → Inode → Blocks → Blocks
iupdate sb ip d =
    let b = iblock sb ip.inum in
    let o = dinode_offset ip.inum in
    put_words ip.addrs
      (put_word
        (put_half
          (put_half (put_half (put_half d b o ip.type) b (o + 2) ip.major) b (o + 4) ip.minor) b
          (o + 6) ip.nlink)
        b (o + 8) ip.size)
      b (o + 12)

-- What `ilock` does once it has the lock; `none` is the panic.
pub load : Superblock → Inode → Blocks → Option Inode
load sb ip d =
    let b = iblock sb ip.inum in
    let o = dinode_offset ip.inum in
    let read : Inode = record ip {
      valid = true;
      type = half_at d b o;
      major = half_at d b (o + 2);
      minor = half_at d b (o + 4);
      nlink = half_at d b (o + 6);
      size = word_at d b (o + 8);
      addrs = words_at 13 d b (o + 12);
    } in
    if ip.valid then some ip else if read.type == 0 then none else some read

-- The address in a slot of `ip->addrs`, allocated when there is none
pub slot : Superblock → Inode → Blocks → (i : ℕ) → Option (ℕ × Inode × Blocks)
slot sb ip d i =
    let addr = get_or ip.addrs i 0 in
    if addr == 0
    then elim (balloc sb d) [
      | none ↦ none
      | some (r, d') ↦ some (r, record ip { addrs = set ip.addrs i r }, d')
    ]
    else some (addr, ip, d)

-- The address in entry `bn` of the indirect block, allocated when there is none
pub entry : Superblock → (bn : ℕ) → ℕ × Inode × Blocks → Option (ℕ × Inode × Blocks)
entry sb bn (ind, ip, d) =
    let addr = word_at d ind (4 * bn) in
    if addr == 0
    then elim (balloc sb d) [
      | none ↦ none
      | some (r, d') ↦ some (r, ip, put_word d' ind (4 * bn) r)
    ]
    else some (addr, ip, d)

-- `bmap`; `none` is a panic, of its own or of `balloc`.
pub bmap : Superblock → Inode → Blocks → (bn : ℕ) → Option (ℕ × Inode × Blocks)
bmap sb ip d bn =
    if ltb bn ndirect
    then slot sb ip d bn
    else if ltb (bn - ndirect) nindirect
    then elim (slot sb ip d ndirect) [ none ↦ none | some r ↦ entry sb (bn - ndirect) r ]
    else none

-- The first loop of `itrunc`, from slot `i` on
pub free_direct : Superblock → (n i : ℕ) → Inode × Blocks → Option (Inode × Blocks)
free_direct sb zero i r = some r
free_direct sb (suc n) i (ip, d) = elim (get_or ip.addrs i 0 == 0) [
  | true ↦ free_direct sb n (i + 1) (ip, d)
  | false ↦ elim (bfree sb d (get_or ip.addrs i 0)) [
    | none ↦ none
    | some d' ↦ free_direct sb n (i + 1) (record ip { addrs = set ip.addrs i 0 }, d')
  ]
]

-- The second loop, over the entries of the indirect block, from `j` on
pub free_entries : Superblock → (n j ind : ℕ) → Blocks → Option Blocks
free_entries sb zero j ind d = some d
free_entries sb (suc n) j ind d = elim (word_at d ind (4 * j) == 0) [
  | true ↦ free_entries sb n (j + 1) ind d
  | false ↦ elim (bfree sb d (word_at d ind (4 * j))) [
    | none ↦ none
    | some d' ↦ free_entries sb n (j + 1) ind d'
  ]
]

-- The indirect block, after its entries
pub free_indirect : Superblock → Inode × Blocks → Option (Inode × Blocks)
free_indirect sb (ip, d) =
    let ind = get_or ip.addrs ndirect 0 in
    if ind == 0 then some (ip, d) else elim (free_entries sb nindirect 0 ind d) [
      | none ↦ none
      | some d1 ↦ elim (bfree sb d1 ind) [
        | none ↦ none
        | some d2 ↦ some (record ip { addrs = set ip.addrs ndirect 0 }, d2)
      ]
    ]

pub emptied : Superblock → Inode × Blocks → Inode × Blocks
emptied sb (ip, d) = let ip' : Inode = record ip { size = 0 } in (ip', iupdate sb ip' d)

-- `itrunc`; `none` is a panic of `bfree`.
pub itrunc : Superblock → Inode → Blocks → Option (Inode × Blocks)
itrunc sb ip d = elim (free_direct sb ndirect 0 (ip, d)) [
  | none ↦ none
  | some r ↦ elim (free_indirect sb r) [ none ↦ none | some r' ↦ some (emptied sb r') ]
]
