-- ===== src/Fs/Content/Logged/Room.antt =====
-- How `writei` and the log go together: with room in the log it does what `store` does.
use cse314_operating_system.Base.{
  ℕ, zero, suc, ◌+◌, ◌-◌, ◌*◌, ◌/◌, ◌%◌, ◌≤◌, ◌<◌, ◌≡◌, refl, ◌⊎◌, inl, inr, ◌||◌, Option, none,
  some, List, [], ◌∷◌, ◌++◌, arith, ltb, leb, ◌==◌, Bool-cases, Option-cases, length, length-append,
}
use cse314_operating_system.Strings.{Bytes}
use cse314_operating_system.Log.{Log, log_write}
use cse314_operating_system.Log.Reserve.{length-absorb}
use cse314_operating_system.Fs.{Blocks, Superblock, bsize}
use cse314_operating_system.Fs.Inode.{Inode, bmap}
use cse314_operating_system.Fs.Inode.Logs.{bmap_logs, bmap_logs-few}
use cse314_operating_system.Fs.Content.{chunk, copy_in, store_from}
use cse314_operating_system.Fs.Content.Round.{span, span_round}
use cse314_operating_system.Fs.Content.Logged.{log_all, write_from}

-- An operation is under way and the log has room for `n` blocks more.
abbrev pub Room : Log → (n : ℕ) → Type 0
Room l n = (0 < l.outstanding) × (length l.blocks + n ≤ 30) × (length l.blocks + n < l.size)

-- How the log takes `n` blocks: it panics only without room for them, and else keeps the room behind them.
abbrev pub Takes : Log → (n : ℕ) → Option Log → Type 0
Takes l n none = Room l n → ⊥
Takes l n (some l') = (k : ℕ) → Room l (n + k) → Room l' k

log_write-Takes : (l : Log) (b : ℕ) → Takes l 1 (log_write l b)
unfolding log_write
log_write-Takes l b =
    elim (Bool-cases (leb 30 (length l.blocks) || leb (l.size - 1) (length l.blocks))) [
      | inl full ↦ rw (full, log_write) (λ room. ground (arith, full, room))
      | inr fits ↦ elim (Bool-cases (ltb l.outstanding 1)) [
        | inl idle ↦ rw (fits, idle, log_write) (λ room. ground (arith, idle, room))
        | inr busy ↦
            rw (fits, busy, log_write) (λ k room. ground (arith, room, length-absorb l.blocks b))
      ]
    ]

pub log_all-Takes : (bs : List ℕ) (l : Log) → Takes l (length bs) (log_all bs l)
unfolding log_all
log_all-Takes [] l = λ k room. omega (arith, room.0, room.1, room.2)
log_all-Takes (b ∷ bs) l = first (log_write l b) (log_write-Takes l b) (log_all-Takes bs)
  where
    behind :
        (l' : Log) (o : Option Log)
        → ((k : ℕ) → Room l (1 + k) → Room l' k)
        → Takes l' (length bs) o
        → Takes l (suc (length bs)) o
    behind l' none t u = λ room. u (t (length bs) (ground (arith, room)))
    behind l' (some l'') t u = λ k room. u k (t (length bs + k) (ground (arith, room)))

    first :
        (o : Option Log)
        → Takes l 1 o
        → ((l' : Log) → Takes l' (length bs) (log_all bs l'))
        → Takes l (suc (length bs)) (elim o [ none ↦ none | some l' ↦ log_all bs l' ])
    first none t rest = λ room. t (ground (arith, room))
    first (some l') t rest = behind l' (log_all bs l') t (rest l')

module _ (sb : Superblock) where
  abbrev pub with_log : Log → Option (Inode × Blocks) → Option (Inode × Blocks × Log)
  with_log l none = none
  with_log l (some (ip, d)) = some (ip, d, l)

  -- The loop stops in a panic of the log, for which it needs more than `n` blocks, or does what it does without a log.
  abbrev pub Logged :
      Log → (n : ℕ) → Option (Inode × Blocks) → Option (Inode × Blocks × Log) → Type 0
  Logged l n r o =
      ((o ≡ none) × (Room l n → ⊥))
      ⊎ ((l' : Log) × (o ≡ with_log l' r) × ((k : ℕ) → Room l (n + k) → Room l' k))

  -- A round, with what the loop does behind it
  Logged-round :
      (bs : List ℕ) (l : Log) (behind need : ℕ) (r : Option (Inode × Blocks))
      (f : Log → Option (Inode × Blocks × Log)) (o : Option Log)
      → length bs ≤ 6
      → 6 + behind ≤ need
      → Takes l (length bs) o
      → ((l' : Log) → Logged l' behind r (f l'))
      → Logged l need r (elim o [ none ↦ none | some l' ↦ f l' ])
  Logged-round bs l behind need r f none few enough t next =
      inl (refl, λ room. t (omega (arith, room.0, room.1, room.2, few, enough)))
  Logged-round bs l behind need r f (some l') few enough t next = elim (next l') [
    | inl (e, stop) ↦
        inl (e, λ room. stop (t behind (omega (arith, room.0, room.1, room.2, few, enough))))
    | inr (l'', e, keeps) ↦ inr (
      l'',
      e,
      λ k room. keeps k (t (behind + k) (omega (arith, room.0, room.1, room.2, few, enough))),
    )
  ]

  pub write_from-Logged :
      (k off left src need : ℕ) (mem : Bytes) (ip : Inode) (d : Blocks) (l : Log)
      → 6 * span off left ≤ need
      → Logged l need
          (store_from sb k off left src mem (ip, d))
          (write_from sb k off left src mem (ip, d, l))
  unfolding write_from store_from
  write_from-Logged zero off left src need mem ip d l enough =
      inr (l, refl, λ k room. omega (arith, room.0, room.1, room.2))
  write_from-Logged (suc k) off left src need mem ip d l enough = elim (Bool-cases (left == 0)) [
    | inl e ↦
        rw (e, write_from, store_from)
          (inr (l, refl, λ k room. omega (arith, room.0, room.1, room.2)))
    | inr more ↦ elim (Option-cases (bmap sb ip d (off / bsize))) [
      | inl e ↦
          rw (more, e, write_from, store_from)
            (inr (l, refl, λ k room. omega (arith, room.0, room.1, room.2)))
      | inr ((a, ip', d'), e) ↦
          let bs = bmap_logs sb ip d (off / bsize) ++ (a ∷ []) in
          let m = chunk left off in
          let few : length bs ≤ 6 = omega (
            arith,
            bmap_logs-few sb ip d (off / bsize),
            length-append (bmap_logs sb ip d (off / bsize)) (a ∷ []),
          ) in
          let one_more = span_round off left (ground (arith, more)) in
          rw (more, e, write_from, store_from)
            (Logged-round bs l (6 * span (off + m) (left - m)) need
              (store_from sb k (off + m) (left - m) (src + m) mem
                (ip', copy_in d' a (off % bsize) src m mem))
              (λ l'.
                write_from sb k (off + m) (left - m) (src + m) mem
                  (ip', copy_in d' a (off % bsize) src m mem, l'))
              (log_all bs l) few (omega (arith, enough, one_more)) (log_all-Takes bs l)
              (λ l'.
                write_from-Logged k (off + m) (left - m) (src + m) (6 * span (off + m) (left - m))
                  mem ip' (copy_in d' a (off % bsize) src m mem) l' (omega arith)))
    ]
  ]
