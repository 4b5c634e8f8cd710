-- ===== src/Fs/Content.antt =====
-- `readi` and `stati` of Offline 4/xv6/fs.c, and what `writei` does to the file and the disk, to which
-- Fs/Content/Logged.antt adds the log. The memory of the caller is a byte at each address.
pub mod View
pub mod Round
pub mod Write
pub mod Read
pub mod Stored
pub mod RoundTrip
pub mod Logged
use cse314_operating_system.Base.{
  ℕ, zero, suc, ◌+◌, ◌-◌, ◌*◌, ◌/◌, ◌%◌, ◌^◌, ◌≤◌, ◌<◌, min, ◌≡◌, refl, sym, ap, ap₂, subst, ◌∙◌,
  fun_ext, ◌≢◌, ◌↔◌, ◌⊎◌, inl, inr, Bool, true, false, not, ◌&&◌, ◌||◌, Option, none, some, List,
  [], ◌∷◌, ◌++◌, map, append-nil, append_assoc, arith, dec_lt, ℕ_discrete, ltb, leb, ◌==◌,
  if◌then◌else◌, ltb→lt, lt→ltb, leb→le, ==_iff, Bool-cases, Option-cases, length, get_elem?,
  get_or, set, take, drop, replicate, All, length-append, length-set,
}
use cse314_operating_system.Base.{uint}
use cse314_operating_system.Strings.{Bytes}
use cse314_operating_system.Fs.{Blocks, Superblock, bsize}
use cse314_operating_system.Fs.Inode.{Inode, maxfile, bmap, iupdate}

-- `struct stat`
pub record Stat : Type 0 where
  pub type : ℕ
  pub dev : ℕ
  pub ino : ℕ
  pub nlink : ℕ
  pub size : ℕ

pub stati : Inode → Stat
stati ip = record { type = ip.type; dev = ip.dev; ino = ip.inum; nlink = ip.nlink; size = ip.size }

-- T_DIR, T_FILE, T_DEV and NDEV
abbrev pub t_dir : ℕ
t_dir = 1

abbrev pub t_file : ℕ
t_file = 2

abbrev pub t_dev : ℕ
t_dev = 3

abbrev pub ndev : ℕ
ndev = 10

-- `memmove(dst, bp->data + o, m)` out of block `a`
abbrev pub copy_out : Blocks → (a o dst m : ℕ) → Bytes → Bytes
copy_out d a o dst m mem x = if leb dst x && ltb x (dst + m) then d a (o + (x - dst)) else mem x

-- `memmove(bp->data + o, src, m)` into block `a`
abbrev pub copy_in : Blocks → (a o src m : ℕ) → Bytes → Blocks
copy_in d a o src m mem b j =
    if b == a && leb o j && ltb j (o + m) then mem (src + (j - o)) else d b j

-- The bytes of one round: `min(n - tot, BSIZE - off%BSIZE)`
abbrev pub chunk : (left off : ℕ) → ℕ
chunk left off = min left (bsize - off % bsize)

-- The loop of `readi`, with `left` bytes to go; `none` is a panic. There are at most as many rounds as bytes.
pub read_from :
    Superblock
    → (rounds : ℕ) → (off left dst : ℕ) → Inode × Blocks × Bytes
    → Option (Inode × Blocks × Bytes)
read_from sb zero off left dst r = some r
read_from sb (suc k) off left dst (ip, d, mem) = elim (left == 0) [
  | true ↦ some (ip, d, mem)
  | false ↦ elim (bmap sb ip d (off / bsize)) [
    | none ↦ none
    | some (a, ip', d') ↦
        let m = chunk left off in
        read_from sb k (off + m) (left - m) (dst + m)
          (ip', d', copy_out d' a (off % bsize) dst m mem)
  ]
]

-- How a read or a write ends: with -1, in the routine of a device, in a panic, or with the number of bytes
-- and the state after it
pub data Moved : Type 0 where
  refused : Moved
  device : (major : ℕ) → Moved
  panics : Moved
  moved : (n : ℕ) → Inode × Blocks × Bytes → Moved

pub finish : (n : ℕ) → Option (Inode × Blocks × Bytes) → Moved
finish n none = panics
finish n (some r) = moved n r

-- `readi`; `has_read` tells of a major number whether `devsw` has a routine. A `short` of 2^15 or more is negative.
pub readi : Superblock → (has_read : ℕ → Bool) → Inode → Blocks → (dst off n : ℕ) → Bytes → Moved
readi sb has_read ip d dst off n mem =
    if ip.type == t_dev
    then if leb (2 ^ 15) ip.major || leb ndev ip.major || not (has_read ip.major)
      then refused
      else device ip.major
    else if ltb ip.size off || ltb (uint (off + n)) off
    then refused
    else let count = if ltb ip.size (uint (off + n)) then ip.size - off else n in
      finish count (read_from sb count off count dst (ip, d, mem))

-- What the loop of `writei` does to the file and the disk when the log takes every block
pub store_from :
    Superblock
    → (rounds : ℕ) → (off left src : ℕ) → Bytes
    → Inode × Blocks
    → Option (Inode × Blocks)
store_from sb zero off left src mem r = some r
store_from sb (suc k) off left src mem (ip, d) = elim (left == 0) [
  | true ↦ some (ip, d)
  | false ↦ elim (bmap sb ip d (off / bsize)) [
    | none ↦ none
    | some (a, ip', d') ↦
        let m = chunk left off in
        store_from sb k (off + m) (left - m) (src + m) mem
          (ip', copy_in d' a (off % bsize) src m mem)
  ]
]

-- The end of `writei`, with `off` behind the bytes written
pub extend : Superblock → (n off : ℕ) → Inode × Blocks → Inode × Blocks
extend sb n off (ip, d) =
    let ip' : Inode = record ip { size = off } in
    if ltb 0 n && ltb ip.size off then (ip', iupdate sb ip' d) else (ip, d)

pub store_end : Superblock → (n off : ℕ) → Bytes → Option (Inode × Blocks) → Moved
store_end sb n off mem none = panics
store_end sb n off mem (some r) = let (ip, d) = extend sb n off r in moved n (ip, d, mem)

-- What `writei` does to the file and the disk when the log takes every block
pub store : Superblock → (has_write : ℕ → Bool) → Inode → Blocks → (src off n : ℕ) → Bytes → Moved
store sb has_write ip d src off n mem =
    if ip.type == t_dev
    then if leb (2 ^ 15) ip.major || leb ndev ip.major || not (has_write ip.major)
      then refused
      else device ip.major
    else if ltb ip.size off || ltb (uint (off + n)) off || ltb (maxfile * bsize) (uint (off + n))
    then refused
    else store_end sb n (off + n) mem (store_from sb n off n src mem (ip, d))
