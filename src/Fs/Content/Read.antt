-- ===== src/Fs/Content/Read.antt =====
-- `readi` on a file with no holes: it reads the bytes of the file and changes nothing.
use cse314_operating_system.Base.{
  ℕ, zero, suc, ◌+◌, ◌-◌, ◌*◌, ◌/◌, ◌%◌, ◌≤◌, ◌<◌, ◌≡◌, ap, ◌∙◌, fun_ext, ◌≢◌, false, ◌&&◌, some,
  arith, dec_lt, ℕ_discrete, ltb, leb, ◌==◌, if◌then◌else◌,
}
use cse314_operating_system.Strings.{Bytes}
use cse314_operating_system.Fs.{Blocks, Superblock, bsize}
use cse314_operating_system.Fs.Inode.{Inode, maxfile}
use cse314_operating_system.Fs.Inode.Lookup.{lookup}
use cse314_operating_system.Fs.Content.{copy_out, chunk, read_from}
use cse314_operating_system.Fs.Content.View.{byte_at, byte_at-there}
use cse314_operating_system.Fs.Inode.There.{bmap-there}

-- The bytes of a round and those of the rounds behind it: `view` is the file, and `block` the block of the round.
receive :
    (off left m dst x : ℕ) (view block mem : ℕ → ℕ)
    → m ≤ left
    → ((y : ℕ) → off ≤ y → y < off + m → view y ≡ block (off % bsize + (y - off)))
    → (if leb (dst + m) x && ltb x (dst + m + (left - m))
        then view (off + m + (x - (dst + m)))
        else if leb dst x && ltb x (dst + m)
        then block (off % bsize + (x - dst))
        else mem x)
      ≡ (if leb dst x && ltb x (dst + left) then view (off + (x - dst)) else mem x)
receive off left m dst x view block mem h same = elim (dec_lt x dst) [
  | Dec.yes below ↦ ground (arith, below, h)
  | Dec.no above ↦ elim (dec_lt x (dst + m)) [
    | Dec.yes now ↦
        let at : view (off + (x - dst)) ≡ block (off % bsize + (x - dst)) =
          same (off + (x - dst)) (omega arith) (omega (arith, now, above))
          ∙ ap (λ k. block (off % bsize + k)) {x = off + (x - dst) - off} {y = x - dst}
              (omega arith) in
        rw at (ground (arith, now, above, h))
    | Dec.no later ↦
        let at : off + m + (x - (dst + m)) ≡ off + (x - dst) = omega (arith, later) in
        rw at (ground (arith, later, above, h))
  ]
]

module _ (sb : Superblock) (ip : Inode) (d : Blocks) where
  -- The memory after reading `left` bytes from offset `off` on
  abbrev pub received : (off left dst : ℕ) → Bytes → Bytes
  received off left dst mem x =
      if leb dst x && ltb x (dst + left) then byte_at ip d (off + (x - dst)) else mem x

  pub read_from_lem :
      (k off left dst : ℕ) (mem : Bytes)
      → left ≤ k
      → off + left ≤ maxfile * bsize
      → ((x : ℕ) → off ≤ x → x < off + left → lookup ip d (x / bsize) ≢ 0)
      → read_from sb k off left dst (ip, d, mem) ≡ some (ip, d, received off left dst mem)
  unfolding read_from
  read_from_lem zero off left dst mem enough fits there =
      ap (λ f. some (ip, d, f)) (fun_ext λ x. ground (arith, enough))
  read_from_lem (suc k) off left dst mem enough fits there = elim (ℕ_discrete left 0) [
    | Dec.yes e ↦ rw (e, read_from) (ap (λ f. some (ip, d, f)) (fun_ext λ x. ground arith))
    | Dec.no ne ↦
        let more : (left == 0) ≡ false = ground (arith, ne) in
        let n = off / bsize in
        let c = chunk left off in
        let here = there off (omega arith) (omega (arith, ne)) in
        let next =
          read_from_lem k (off + c) (left - c) (dst + c)
            (copy_out d (lookup ip d n) (off % bsize) dst c mem) (omega (arith, enough, ne))
            (omega (arith, fits)) (λ x lo hi. there x (omega (arith, lo)) (omega (arith, hi))) in
        rw (more, bmap-there sb ip d n (omega (arith, fits, ne)) here, read_from)
          (next
            ∙ ap (λ f. some (ip, d, f))
                (fun_ext λ x.
                  receive off left c dst x (byte_at ip d) (d (lookup ip d n)) mem (omega arith)
                    (λ y lo hi.
                      let same : y / bsize ≡ n = omega (arith, lo, hi) in
                      byte_at-there ip d y (lookup ip d n) (ap (lookup ip d) same) here
                      ∙ ap (d (lookup ip d n)) (omega (arith, lo, hi)))))
  ]
