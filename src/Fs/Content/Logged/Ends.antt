-- ===== src/Fs/Content/Logged/Ends.antt =====
-- How `writei` ends on a regular file, with the log.
use cse314_operating_system.Base.{
  subst, dec_lt, ℕ, ◌+◌, ◌*◌, ◌^◌, ◌≤◌, ◌<◌, ◌≡◌, refl, ap, ◌⊎◌, inl, inr, Bool, not, ◌||◌, Option,
  none, some, arith, ltb, leb, ◌==◌, Bool-cases, length,
}
use cse314_operating_system.Base.{uint}
use cse314_operating_system.Strings.{Bytes}
use cse314_operating_system.Log.{Log}
use cse314_operating_system.Fs.{Blocks, Superblock, bsize}
use cse314_operating_system.Fs.Inode.{Inode, maxfile}
use cse314_operating_system.Fs.Inode.Growing.{free_count}
use cse314_operating_system.Fs.Content.{
  Moved, refused, device, panics, moved, t_dev, ndev, extend, store_from, store_end, store,
}
use cse314_operating_system.Fs.Content.Round.{span}
use cse314_operating_system.Fs.Content.Stored.{Sound, Stored, Ends, store-Ends}
use cse314_operating_system.Fs.Content.Logged.{log_all, write_from, extend_logs, written, writei}
use cse314_operating_system.Fs.Content.Logged.Kept.{KeptBy, KeptMoved, writei-KeptMoved}
use cse314_operating_system.Fs.Content.Logged.Room.{
  Room, Takes, log_all-Takes, Logged, write_from-Logged,
}

module _ (sb : Superblock) where
  -- `writei` stops in a panic of the log, for which it needs more than `need` blocks, or does what `store` does.
  abbrev Followed : Log → (need : ℕ) → Moved → Moved × Log → Type 0
  Followed l need m r =
      ((r ≡ (panics, l)) × (Room l need → ⊥))
      ⊎ ((l' : Log) × (r ≡ (m, l')) × ((k : ℕ) → Room l (need + k) → Room l' k))

  Followed-same : (l : Log) (need : ℕ) (m : Moved) → Followed l need m (m, l)
  Followed-same l need m = inr (l, refl, λ k room. omega (arith, room.0, room.1, room.2))

  extend_logs-few : (n off : ℕ) (ip : Inode) → length (extend_logs sb n off ip) ≤ 1
  unfolding extend_logs
  extend_logs-few n off ip = ground arith

  -- The log takes the block of the inode too.
  Followed-extend :
      (l l' : Log) (need few : ℕ) (m : Moved) (o : Option Log)
      → few ≤ 1
      → ((k : ℕ) → Room l (need + k) → Room l' k)
      → Takes l' few o
      → Followed l (need + 1) m (elim o [ none ↦ (panics, l) | some l'' ↦ (m, l'') ])
  Followed-extend l l' need few m none small keeps t =
      inl (refl, λ room. t (let r = keeps 1 room in omega (arith, r.0, r.1, r.2, small)))
  Followed-extend l l' need few m (some l'') small keeps t = inr (
    l'',
    refl,
    λ k room.
        let r = keeps (1 + k) (omega (arith, room.0, room.1, room.2)) in
        t k (omega (arith, r.0, r.1, r.2, small)),
  )

  Followed-written :
      (n off need : ℕ) (mem : Bytes) (l : Log) (r : Option (Inode × Blocks))
      (o : Option (Inode × Blocks × Log))
      → Logged sb l need r o
      → Followed l (need + 1) (store_end sb n off mem r) (written sb n off mem l o)
  unfolding written store_end
  Followed-written n off need mem l r o (inl (e, stop)) =
      inl (ap (written sb n off mem l) e, λ room. stop (omega (arith, room.0, room.1, room.2)))
  Followed-written n off need mem l none o (inr (l', e, keeps)) =
      rw e (Followed-same l (need + 1) panics)
  Followed-written n off need mem l (some (ip, d)) o (inr (l', e, keeps)) =
      let bs = extend_logs sb n off ip in
      let (ip', d') = extend sb n off (ip, d) in
      rw e (
        Followed-extend l l' need (length bs) (moved n (ip', d', mem)) (log_all bs l')
          (extend_logs-few n off ip) keeps (log_all-Takes bs l'))

  writei-Followed :
      (has_write : ℕ → Bool) (ip : Inode) (d : Blocks) (l : Log) (src off n need : ℕ) (mem : Bytes)
      → 6 * span off n ≤ need
      → Followed l
          (need + 1)
          (store sb has_write ip d src off n mem)
          (writei sb has_write ip d l src off n mem)
  unfolding writei store
  writei-Followed has_write ip d l src off n need mem enough =
      elim (Bool-cases (ip.type == t_dev)) [
        | inl dev ↦
            elim (Bool-cases
              (leb (2 ^ 15) ip.major || leb ndev ip.major || not (has_write ip.major))) [
                | inl bad ↦ rw (dev, bad, writei, store) (Followed-same l (need + 1) refused)
                | inr good ↦
                    rw (dev, good, writei, store) (Followed-same l (need + 1) (device ip.major))
              ]
        | inr regular ↦
            elim (Bool-cases (
              ltb ip.size off
              || ltb (uint (off + n)) off
              || ltb (maxfile * bsize) (uint (off + n)))) [
                | inl out ↦ rw (regular, out, writei, store) (Followed-same l (need + 1) refused)
                | inr inside ↦
                    rw (regular, inside, writei, store)
                      (Followed-written n (off + n) need mem l
                        (store_from sb n off n src mem (ip, d))
                        (write_from sb n off n src mem (ip, d, l))
                        (write_from-Logged sb n off n src need mem ip d l enough))
              ]
      ]

  -- The ends of a write in the log `l`: the same as those of `store`, but that it panics also when the log has no
  -- room for six blocks for each block written to and one more, or no operation is under way.
  abbrev pub LoggedEnds :
      (ip : Inode) (d : Blocks) (l : Log) (src off n : ℕ) (mem : Bytes) → Moved × Log → Type 0
  LoggedEnds ip d l src off n mem (refused, l') = (ip.size < off) ⊎ (maxfile * bsize < off + n)
  LoggedEnds ip d l src off n mem (device major, l') = ⊥
  LoggedEnds ip d l src off n mem (panics, l') =
      (free_count sb d < 2 * span off n)
      ⊎ ((l.outstanding ≡ 0)
          ⊎ ((30 < length l.blocks + (6 * span off n + 1))
              ⊎ (l.size ≤ length l.blocks + (6 * span off n + 1))))
  LoggedEnds ip d l src off n mem (moved count (ip', d', mem'), l') =
      (count ≡ n)
      × (mem' ≡ mem)
      × (off ≤ ip.size)
      × Stored sb ip d src off n mem ip' d'
      × KeptBy l d l' d'

  LoggedEnds-Ends :
      (ip : Inode) (d : Blocks) (l l' : Log) (src off n : ℕ) (mem : Bytes) (m : Moved)
      → Ends sb ip d src off n mem m
      → KeptMoved l d (m, l')
      → LoggedEnds ip d l src off n mem (m, l')
  LoggedEnds-Ends ip d l l' src off n mem refused e k = e
  LoggedEnds-Ends ip d l l' src off n mem (device major) e k = e
  LoggedEnds-Ends ip d l l' src off n mem panics e k = inl e
  LoggedEnds-Ends ip d l l' src off n mem (moved count (ip', d', mem')) (counted, same, lo, stored)
        k =
      (counted, same, lo, stored, k)

  -- Each way a write to a regular file can end, and what it leaves behind. It is refused only for an offset behind
  -- the end of the file or an end behind the largest file. It panics only with fewer free blocks than twice the
  -- blocks it writes to, outside a transaction, or when the blocks in the header of the log, six for each block
  -- written to and that of the inode are more than LOGSIZE or fill the log. Else all its bytes are stored: the
  -- file stays well-formed, is as long as it has to be and has no hole, its other bytes are as before, and no block
  -- of another file changes. Each block of the disk that it changes is in the header of the log behind it, and so are
  -- the blocks that were there before.
  pub writei-LoggedEnds :
      (has_write : ℕ → Bool) (ip : Inode) (d : Blocks) (l : Log) (src off n : ℕ) (mem : Bytes)
      → Sound sb ip d
      → n < 2 ^ 32
      → LoggedEnds ip d l src off n mem (writei sb has_write ip d l src off n mem)
  writei-LoggedEnds has_write ip d l src off n mem ok small =
      elim (writei-Followed has_write ip d l src off n (6 * span off n) mem (omega arith)) [
        | inl (e, full) ↦ rw e (inr (no_room l (6 * span off n + 1) full))
        | inr (l', e, keeps) ↦ rw e (
            LoggedEnds-Ends ip d l l' src off n mem (store sb has_write ip d src off n mem)
              (store-Ends sb has_write ip d src off n mem ok small)
              (subst (KeptMoved l d) e (writei-KeptMoved sb has_write ip d l src off n mem)))
      ]
    where
      no_room :
          (l : Log) (k : ℕ)
          → (Room l k → ⊥)
          → (l.outstanding ≡ 0) ⊎ ((30 < length l.blocks + k) ⊎ (l.size ≤ length l.blocks + k))
      no_room l k full = elim (dec_lt 0 l.outstanding) [
        | Dec.no idle ↦ inl (omega (arith, idle))
        | Dec.yes busy ↦ elim (dec_lt 30 (length l.blocks + k)) [
          | Dec.yes over ↦ inr (inl over)
          | Dec.no within ↦ elim (dec_lt (length l.blocks + k) l.size) [
            | Dec.yes fits ↦ absurd (full (busy, omega (arith, within), fits))
            | Dec.no fills ↦ inr (inr (omega (arith, fills)))
          ]
        ]
      ]

  -- With room in the log and free blocks enough, `writei` does what `store` does.
  pub writei-Room :
      (has_write : ℕ → Bool) (ip : Inode) (d : Blocks) (l : Log) (src off n : ℕ) (mem : Bytes)
      → Room l (6 * span off n + 1)
      → (l' : Log) × (writei sb has_write ip d l src off n mem
          ≡ (store sb has_write ip d src off n mem, l'))
  writei-Room has_write ip d l src off n mem room =
      elim (writei-Followed has_write ip d l src off n (6 * span off n) mem (omega arith)) [
        | inl (e, full) ↦ absurd (full room)
        | inr (l', e, keeps) ↦ (l', e)
      ]
