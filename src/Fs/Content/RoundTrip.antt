-- ===== src/Fs/Content/RoundTrip.antt =====
-- What `writei` wrote is read back by `readi`.
use cse314_operating_system.Base.{
  length, ℕ, ◌+◌, ◌-◌, ◌*◌, ◌^◌, ◌≤◌, ◌<◌, ◌≡◌, refl, ap, ap₂, ◌∙◌, fun_ext, inl, inr, Bool, true,
  false, ◌&&◌, ◌||◌, arith, ltb, leb, if◌then◌else◌, Bool-cases,
}
use cse314_operating_system.Strings.{Bytes}
use cse314_operating_system.Fs.{Blocks, Superblock, bsize}
use cse314_operating_system.Fs.Inode.{Inode, maxfile}
use cse314_operating_system.Fs.Inode.Growing.{free_count}
use cse314_operating_system.Fs.Content.{readi, store, Moved, refused, device, panics, moved}
use cse314_operating_system.Log.{Log}
use cse314_operating_system.Fs.Content.Logged.{writei}
use cse314_operating_system.Fs.Content.Logged.Ends.{writei-Room}
use cse314_operating_system.Fs.Content.View.{byte_at}
use cse314_operating_system.Fs.Content.Round.{span}
use cse314_operating_system.Fs.Content.Stored.{
  Sound, Stored, Ends, store-Ends, readi_lem, available,
}

if_both {ℓ} :
    {A : Type ℓ} (x y : A) (s t : Bool) → s ≡ true → t ≡ true → (if s && t then x else y) ≡ x
if_both x y s t e f = rw (e, f) refl

module _ (sb : Superblock) where
  -- Reading the bytes of a stored write
  readi_back :
      (has_read : ℕ → Bool) (ip ip' : Inode) (d d' : Blocks) (src dst off n : ℕ) (mem mem2 : Bytes)
      → n < 2 ^ 32
      → off + n ≤ maxfile * bsize
      → Stored sb ip d src off n mem ip' d'
      → readi sb has_read ip' d' dst off n mem2
        ≡ moved n
            (ip', d', λ x. if leb dst x && ltb x (dst + n) then mem (src + (x - dst)) else mem2 x)
  readi_back has_read ip ip' d d' src dst off n mem mem2 small hi s =
      let within : off + n ≤ ip'.size = ground (arith, s.size) in
      let open_range : (ltb ip'.size off || leb (2 ^ 32) (off + n)) ≡ false =
        ground (arith, within, hi) in
      let all : available sb ip' off n ≡ n = ground (arith, within) in
      readi_lem sb has_read ip' d' dst off n mem2 s.sound small
      ∙ rw (open_range, all)
          (ap (λ f. moved n (ip', d', f))
            (fun_ext λ x. elim (Bool-cases (leb dst x && ltb x (dst + n))) [
              | inr t ↦ rw t refl
              | inl t ↦
                  let inside : x < dst + n = ground (arith, t) in
                  let above : dst ≤ x = ground (arith, t) in
                  rw t (
                    s.bytes (off + (x - dst)) (omega (arith, inside, above, hi))
                    ∙ if_both (mem (src + (off + (x - dst) - off))) (byte_at ip d (off + (x - dst)))
                        (leb off (off + (x - dst))) (ltb (off + (x - dst)) (off + n)) (ground arith)
                        (ground (arith, inside, above))
                    ∙ ap (λ k. mem (src + k)) {x = off + (x - dst) - off} {y = x - dst}
                        (omega arith))
            ]))

  -- The same of `store`, which leaves the log out
  readi-store :
      (has_read has_write : ℕ → Bool) (ip : Inode) (d : Blocks) (src off n : ℕ) (mem : Bytes)
      → Sound sb ip d
      → off ≤ ip.size
      → off + n ≤ maxfile * bsize
      → 2 * span off n ≤ free_count sb d
      → (ip' : Inode) × (d' : Blocks) × (store sb has_write ip d src off n mem
          ≡ moved n (ip', d', mem))
        × ((dst : ℕ) (mem2 : Bytes)
            → readi sb has_read ip' d' dst off n mem2
              ≡ moved n (
                ip',
                d',
                λ x. if leb dst x && ltb x (dst + n) then mem (src + (x - dst)) else mem2 x,
              ))
  readi-store has_read has_write ip d src off n mem ok lo hi room =
      stored (store sb has_write ip d src off n mem)
        (store-Ends sb has_write ip d src off n mem ok (omega (arith, hi)))
    where
      stored :
          (r : Moved)
          → Ends sb ip d src off n mem r
          → (ip' : Inode) × (d' : Blocks) × (r ≡ moved n (ip', d', mem))
            × ((dst : ℕ) (mem2 : Bytes)
                → readi sb has_read ip' d' dst off n mem2
                  ≡ moved n (
                    ip',
                    d',
                    λ x. if leb dst x && ltb x (dst + n) then mem (src + (x - dst)) else mem2 x,
                  ))
      stored refused (inl out) = absurd (omega (arith, out, lo))
      stored refused (inr out) = absurd (omega (arith, out, hi))
      stored (device major) short = elim short [ ]
      stored panics short = absurd (omega (arith, short, room))
      stored (moved count (ip', d', mem')) (same, kept, _, s) = (
        ip',
        d',
        ap₂ (λ k f. moved k (ip', d', f)) same kept,
        λ dst mem2. readi_back has_read ip ip' d d' src dst off n mem mem2 (omega (arith, hi)) hi s,
      )

  -- What was written is read back. With an operation under way, with room in the log for six blocks for each block
  -- that the write touches and that of the inode, an offset within a regular file, an end within the largest file,
  -- and twice as many free blocks as the write touches, `writei` stores all `n` bytes; and then `readi` of `n` bytes
  -- at that offset returns `n` and has copied exactly them to `dst`, whatever the memory was.
  pub readi-writei :
      (has_read has_write : ℕ → Bool) (ip : Inode) (d : Blocks) (l : Log) (src off n : ℕ)
      (mem : Bytes)
      → Sound sb ip d
      → off ≤ ip.size
      → off + n ≤ maxfile * bsize
      → 2 * span off n ≤ free_count sb d
      → 0 < l.outstanding
      → length l.blocks + (6 * span off n + 1) ≤ 30
      → length l.blocks + (6 * span off n + 1) < l.size
      → (ip' : Inode) × (d' : Blocks) × (l' : Log) × (writei sb has_write ip d l src off n mem
          ≡ (moved n (ip', d', mem), l'))
        × ((dst : ℕ) (mem2 : Bytes)
            → readi sb has_read ip' d' dst off n mem2
              ≡ moved n (
                ip',
                d',
                λ x. if leb dst x && ltb x (dst + n) then mem (src + (x - dst)) else mem2 x,
              ))
  readi-writei has_read has_write ip d l src off n mem ok lo hi room busy few fits =
      let (ip', d', e, back) = readi-store has_read has_write ip d src off n mem ok lo hi room in
      let (l', f) = writei-Room sb has_write ip d l src off n mem (busy, few, fits) in
      (ip', d', l', f ∙ ap (λ m. (m, l')) e, back)
