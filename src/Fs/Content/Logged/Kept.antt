-- ===== src/Fs/Content/Logged/Kept.antt =====
-- `writei` changes no block that is not in the header of the log behind it.
use cse314_operating_system.Base.{
  ℕ, zero, suc, ◌+◌, ◌-◌, ◌*◌, ◌/◌, ◌%◌, ◌^◌, ◌≡◌, refl, sym, subst, ◌∙◌, inl, inr, Bool, false,
  not, ◌&&◌, ◌||◌, Option, none, some, List, [], ◌∷◌, ◌++◌, arith, ltb, leb, ◌==◌, Bool-cases,
  Option-cases, length,
}
use cse314_operating_system.Base.{uint}
use cse314_operating_system.Strings.{Bytes}
use cse314_operating_system.Log.{Log, log_write}
use cse314_operating_system.Log.Disk.Plan.{mem}
use cse314_operating_system.Log.Reserve.Absorb.{mem-absorb}
use cse314_operating_system.Fs.{Blocks, Superblock, bsize}
use cse314_operating_system.Fs.Inode.{Inode, maxfile, bmap}
use cse314_operating_system.Fs.Inode.Logs.{bmap_logs, Within, Within-append, Found, bmap-Found}
use cse314_operating_system.Fs.Inode.Update.{iupdate-away}
use cse314_operating_system.Fs.Content.{
  Moved, refused, device, panics, moved, t_dev, ndev, chunk, copy_in, extend,
}
use cse314_operating_system.Fs.Content.Logged.{log_all, write_from, extend_logs, written, writei}

-- The header keeps its blocks and gets these.
abbrev Heads : Log → List ℕ → Option Log → Type 0
Heads l bs none = Unit
Heads l bs (some l') =
    (b : ℕ) → mem b l'.blocks ≡ false → (mem b bs ≡ false) × (mem b l.blocks ≡ false)

log_write-Heads : (l : Log) (b : ℕ) → Heads l (b ∷ []) (log_write l b)
unfolding log_write
log_write-Heads l b =
    elim (Bool-cases (leb 30 (length l.blocks) || leb (l.size - 1) (length l.blocks))) [
      | inl full ↦ rw (full, log_write) tt
      | inr fits ↦ elim (Bool-cases (ltb l.outstanding 1)) [
        | inl idle ↦ rw (fits, idle, log_write) tt
        | inr busy ↦
            rw (fits, busy, log_write)
              (λ c out.
                let away : (mem c l.blocks || b == c) ≡ false =
                  sym (mem-absorb l.blocks b c) ∙ out in
                (ground (arith, away), ground (arith, away)))
      ]
    ]

log_all-Heads : (bs : List ℕ) (l : Log) → Heads l bs (log_all bs l)
unfolding log_all
log_all-Heads [] l = λ b out. (refl, out)
log_all-Heads (x ∷ bs) l = first (log_write l x) (log_write-Heads l x) (log_all-Heads bs)
  where
    behind :
        (l' : Log) (o : Option Log)
        → Heads l (x ∷ []) (some l')
        → Heads l' bs o
        → Heads l (x ∷ bs) o
    behind l' none t u = tt
    behind l' (some l'') t u = λ b out.
        let (away, out') = u b out in let (one, old) = t b out' in (ground (arith, away, one), old)

    first :
        (o : Option Log)
        → Heads l (x ∷ []) o
        → ((l' : Log) → Heads l' bs (log_all bs l'))
        → Heads l (x ∷ bs) (elim o [ none ↦ none | some l' ↦ log_all bs l' ])
    first none t rest = tt
    first (some l') t rest = behind l' (log_all bs l') t (rest l')

-- The blocks out of the header were out of it before, and have not changed.
abbrev pub KeptBy : (l : Log) (d : Blocks) (l' : Log) (d' : Blocks) → Type 0
KeptBy l d l' d' =
    (b : ℕ) → mem b l'.blocks ≡ false → (mem b l.blocks ≡ false) × ((j : ℕ) → d' b j ≡ d b j)

abbrev Kept : Log → Blocks → Option (Inode × Blocks × Log) → Type 0
Kept l d none = Unit
Kept l d (some (ip', d', l')) = KeptBy l d l' d'

abbrev pub KeptMoved : Log → Blocks → Moved × Log → Type 0
KeptMoved l d (refused, l') = Unit
KeptMoved l d (device major, l') = Unit
KeptMoved l d (panics, l') = Unit
KeptMoved l d (moved n (ip', d', mem'), l') = KeptBy l d l' d'

module _ (sb : Superblock) where
  KeptBy-next :
      (bs : List ℕ) (l l' l'' : Log) (d d1 d2 : Blocks)
      → Heads l bs (some l')
      → Within sb d bs d1
      → KeptBy l' d1 l'' d2
      → KeptBy l d l'' d2
  KeptBy-next bs l l' l'' d d1 d2 t w k b out =
      let (out', same) = k b out in let (away, old) = t b out' in (old, λ j. same j ∙ w b away j)

  Kept-next :
      (bs : List ℕ) (l l' : Log) (d d1 : Blocks) (r : Option (Inode × Blocks × Log))
      → Heads l bs (some l')
      → Within sb d bs d1
      → Kept l' d1 r
      → Kept l d r
  Kept-next bs l l' d d1 none t w k = tt
  Kept-next bs l l' d d1 (some (ip2, d2, l2)) t w k = KeptBy-next bs l l' l2 d d1 d2 t w k

  Kept-round :
      (bs : List ℕ) (l : Log) (d d1 : Blocks) (f : Log → Option (Inode × Blocks × Log))
      (o : Option Log)
      → Heads l bs o
      → Within sb d bs d1
      → ((l' : Log) → Kept l' d1 (f l'))
      → Kept l d (elim o [ none ↦ none | some l' ↦ f l' ])
  Kept-round bs l d d1 f none t w next = tt
  Kept-round bs l d d1 f (some l') t w next = Kept-next bs l l' d d1 (f l') t w (next l')

  copy_in-Within :
      (d : Blocks) (a o src m : ℕ) (mem' : Bytes) → Within sb d (a ∷ []) (copy_in d a o src m mem')
  copy_in-Within d a o src m mem' b out j =
      let away : (b == a) ≡ false = ground (arith, out) in rw away refl

  write_from-Kept :
      (k off left src : ℕ) (mem' : Bytes) (ip : Inode) (d : Blocks) (l : Log)
      → Kept l d (write_from sb k off left src mem' (ip, d, l))
  unfolding write_from
  write_from-Kept zero off left src mem' ip d l = λ b out. (out, λ j. refl)
  write_from-Kept (suc k) off left src mem' ip d l = elim (Bool-cases (left == 0)) [
    | inl e ↦ rw (e, write_from) (λ b out. (out, λ j. refl))
    | inr more ↦ elim (Option-cases (bmap sb ip d (off / bsize))) [
      | inl e ↦ rw (more, e, write_from) tt
      | inr ((a, ip', d'), e) ↦
          let m = chunk left off in
          let bs = bmap_logs sb ip d (off / bsize) in
          let d2 : Blocks = copy_in d' a (off % bsize) src m mem' in
          let found : Within sb d bs d' =
            subst (Found sb d bs) e (bmap-Found sb ip d (off / bsize)) in
          rw (more, e, write_from)
            (Kept-round (bs ++ (a ∷ [])) l d d2
              (λ l'. write_from sb k (off + m) (left - m) (src + m) mem' (ip', d2, l'))
              (log_all (bs ++ (a ∷ [])) l) (log_all-Heads (bs ++ (a ∷ [])) l)
              (Within-append sb d d' d2 bs (a ∷ []) found
                (copy_in-Within d' a (off % bsize) src m mem'))
              (λ l'. write_from-Kept k (off + m) (left - m) (src + m) mem' ip' d2 l'))
    ]
  ]

  extend-Within :
      (n off : ℕ) (ip : Inode) (d : Blocks)
      → Within sb d (extend_logs sb n off ip) (extend sb n off (ip, d)).1
  unfolding extend extend_logs
  extend-Within n off ip d = elim (Bool-cases (ltb 0 n && ltb ip.size off)) [
    | inl t ↦
        rw (t, extend, extend_logs)
          (λ b out j. iupdate-away sb (record ip { size = off }) d b j (inl (ground (arith, out))))
    | inr t ↦ rw (t, extend, extend_logs) (λ b out j. refl)
  ]

  written-KeptMoved :
      (n off : ℕ) (mem' : Bytes) (old : Log) (d0 : Blocks) (o : Option (Inode × Blocks × Log))
      → Kept old d0 o
      → KeptMoved old d0 (written sb n off mem' old o)
  unfolding written
  written-KeptMoved n off mem' old d0 none k = tt
  written-KeptMoved n off mem' old d0 (some (ip, d, l)) k =
      last_one (log_all (extend_logs sb n off ip) l) (log_all-Heads (extend_logs sb n off ip) l)
    where
      last_one :
          (o : Option Log)
          → Heads l (extend_logs sb n off ip) o
          → KeptMoved old d0 (elim o [
            | none ↦ (panics, old)
            | some l' ↦ let (ip', d') = extend sb n off (ip, d) in (moved n (ip', d', mem'), l')
          ])
      last_one none t = tt
      last_one (some l') t = λ b out.
          let (away, out') = t b out in
          let (out0, same) = k b out' in (out0, λ j. extend-Within n off ip d b away j ∙ same j)

  pub writei-KeptMoved :
      (has_write : ℕ → Bool) (ip : Inode) (d : Blocks) (l : Log) (src off n : ℕ) (mem' : Bytes)
      → KeptMoved l d (writei sb has_write ip d l src off n mem')
  unfolding writei
  writei-KeptMoved has_write ip d l src off n mem' = elim (Bool-cases (ip.type == t_dev)) [
    | inl dev ↦
        elim (Bool-cases (leb (2 ^ 15) ip.major || leb ndev ip.major || not (has_write ip.major))) [
          | inl bad ↦ rw (dev, bad, writei) tt
          | inr good ↦ rw (dev, good, writei) tt
        ]
    | inr regular ↦
        elim (Bool-cases
          (ltb ip.size off || ltb (uint (off + n)) off || ltb (maxfile * bsize) (uint (off + n)))) [
            | inl out ↦ rw (regular, out, writei) tt
            | inr inside ↦
                rw (regular, inside, writei)
                  (written-KeptMoved n (off + n) mem' l d
                    (write_from sb n off n src mem' (ip, d, l))
                    (write_from-Kept n off n src mem' ip d l))
          ]
  ]
