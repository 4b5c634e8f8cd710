-- ===== src/Fs/Content/Logged.antt =====
-- `writei` of Offline 4/xv6/fs.c in a transaction: what `store` does to the file and the disk, with each `log_write` on
-- the way, that of `balloc`, `bmap` and `iupdate` included.
pub mod Room
pub mod Kept
pub mod Ends
use cse314_operating_system.Base.{
  ℕ, zero, suc, ◌+◌, ◌-◌, ◌*◌, ◌/◌, ◌%◌, ◌^◌, Bool, true, false, not, ◌&&◌, ◌||◌, Option, none,
  some, List, [], ◌∷◌, ◌++◌, ltb, leb, ◌==◌, if◌then◌else◌, get_or,
}
use cse314_operating_system.Base.{uint}
use cse314_operating_system.Strings.{Bytes}
use cse314_operating_system.Log.{Log, log_write}
use cse314_operating_system.Fs.{Blocks, Superblock, bsize, bblock, balloc}
use cse314_operating_system.Fs.Inode.{Inode, ndirect, maxfile, word_at, iblock, slot, bmap}
use cse314_operating_system.Fs.Inode.Logs.{bmap_logs}
use cse314_operating_system.Fs.Content.{
  Moved, refused, device, panics, moved, t_dev, ndev, chunk, copy_in, extend,
}

-- `log_write` of some blocks; `none` is its panic.
pub log_all : List ℕ → Log → Option Log
log_all [] l = some l
log_all (b ∷ bs) l = elim (log_write l b) [ none ↦ none | some l' ↦ log_all bs l' ]

-- The loop of `writei`
pub write_from :
    Superblock
    → (rounds : ℕ) → (off left src : ℕ) → Bytes
    → Inode × Blocks × Log
    → Option (Inode × Blocks × Log)
write_from sb zero off left src mem r = some r
write_from sb (suc k) off left src mem (ip, d, l) = elim (left == 0) [
  | true ↦ some (ip, d, l)
  | false ↦ elim (bmap sb ip d (off / bsize)) [
    | none ↦ none
    | some (a, ip', d') ↦ elim (log_all (bmap_logs sb ip d (off / bsize) ++ (a ∷ [])) l) [
      | none ↦ none
      | some l' ↦
          let m = chunk left off in
          write_from sb k (off + m) (left - m) (src + m) mem
            (ip', copy_in d' a (off % bsize) src m mem, l')
    ]
  ]
]

-- The block that `iupdate` gives to `log_write` at the end of `writei`
pub extend_logs : Superblock → (n off : ℕ) → Inode → List ℕ
extend_logs sb n off ip = if ltb 0 n && ltb ip.size off then iblock sb ip.inum ∷ [] else []

pub written : Superblock → (n off : ℕ) → Bytes → Log → Option (Inode × Blocks × Log) → Moved × Log
written sb n off mem old none = (panics, old)
written sb n off mem old (some (ip, d, l)) = elim (log_all (extend_logs sb n off ip) l) [
  | none ↦ (panics, old)
  | some l' ↦ let (ip', d') = extend sb n off (ip, d) in (moved n (ip', d', mem), l')
]

-- `writei`, with the log after it; in a panic the log is of no use.
pub writei :
    Superblock
    → (has_write : ℕ → Bool) → Inode
    → Blocks
    → Log
    → (src off n : ℕ) → Bytes
    → Moved × Log
writei sb has_write ip d l src off n mem =
    if ip.type == t_dev
    then if leb (2 ^ 15) ip.major || leb ndev ip.major || not (has_write ip.major)
      then (refused, l)
      else (device ip.major, l)
    else if ltb ip.size off || ltb (uint (off + n)) off || ltb (maxfile * bsize) (uint (off + n))
    then (refused, l)
    else written sb n (off + n) mem l (write_from sb n off n src mem (ip, d, l))
