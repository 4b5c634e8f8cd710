-- ===== src/Fs/Content/Write.antt =====
-- `store` writes its bytes into the file and nothing else.
use cse314_operating_system.Base.{
  ℕ, zero, suc, ◌+◌, ◌-◌, ◌*◌, ◌/◌, ◌%◌, ◌≤◌, ◌<◌, ◌≡◌, refl, inl, inr, false, Option, none, some,
  arith, ℕ_discrete, ◌==◌,
}
use cse314_operating_system.Strings.{Bytes}
use cse314_operating_system.Fs.{Blocks, Superblock, bsize}
use cse314_operating_system.Fs.Inode.{Inode, maxfile, bmap}
use cse314_operating_system.Fs.Inode.Growing.{Owned, Mapped}
use cse314_operating_system.Fs.Inode.Mapping.{Bmapped, bmap-Bmapped}
use cse314_operating_system.Fs.Content.{copy_in, chunk, store_from}
use cse314_operating_system.Fs.Content.View.{Owned-filled, free_count-filled}
use cse314_operating_system.Fs.Content.Round.{span_round, Written, Wrote-round}

module _ (sb : Superblock) where
  Written-round :
      (off left src a : ℕ) (mem : Bytes) (ip ip' : Inode) (d d' : Blocks)
      (r : Option (Inode × Blocks))
      → Owned sb ip d
      → 0 < left
      → off + left ≤ maxfile * bsize
      → Mapped sb 2 ip d (off / bsize) a ip' d'
      → Written sb ip'
          (copy_in d' a (off % bsize) src (chunk left off) mem)
          (off + chunk left off)
          (left - chunk left off)
          (src + chunk left off)
          mem
          r
      → Written sb ip d off left src mem r
  Written-round off left src a mem ip ip' d d' none ok pos fits m short = omega (
    arith,
    m.grown.spent,
    short,
    free_count-filled sb ip' d' m.grown.owned (off / bsize) a (omega (arith, pos, fits)) m.found
        m.there (off % bsize) src (chunk left off) mem,
    span_round off left pos,
  )
  Written-round off left src a mem ip ip' d d' (some (ip2, d2)) ok pos fits m w =
      Wrote-round sb off left src a mem ip ip' ip2 d d' d2 ok pos fits m w

  -- The loop from what `bmap` answers on, when the loop behind it is as it should be
  Written-answer :
      (k off left src : ℕ) (mem : Bytes) (ip : Inode) (d : Blocks) (o : Option (ℕ × Inode × Blocks))
      → Owned sb ip d
      → 0 < left
      → off + left ≤ maxfile * bsize
      → Bmapped sb ip d (off / bsize) o
      → ((ip' : Inode) (d' : Blocks)
          → Owned sb ip' d'
          → Written sb ip' d'
              (off + chunk left off)
              (left - chunk left off)
              (src + chunk left off)
              mem
              (store_from sb k
                (off + chunk left off)
                (left - chunk left off)
                (src + chunk left off)
                mem
                (ip', d')))
      → Written sb ip d off left src mem (elim o [
        | none ↦ none
        | some (a, ip', d') ↦
            store_from sb k
              (off + chunk left off)
              (left - chunk left off)
              (src + chunk left off)
              mem
              (ip', copy_in d' a (off % bsize) src (chunk left off) mem)
      ])
  Written-answer k off left src mem ip d none ok pos fits full next = ground (arith, full, pos)
  Written-answer k off left src mem ip d (some (a, ip', d')) ok pos fits m next =
      let done : Blocks = copy_in d' a (off % bsize) src (chunk left off) mem in
      Written-round off left src a mem ip ip' d d'
        (store_from sb k (off + chunk left off) (left - chunk left off) (src + chunk left off) mem
          (ip', done))
        ok pos fits m
        (next ip' done (
          Owned-filled sb ip' d' m.grown.owned (off / bsize) a (omega (arith, pos, fits)) m.found
            m.there (off % bsize) src (chunk left off) mem))

  pub store_from-Written :
      (k off left src : ℕ) (mem : Bytes) (ip : Inode) (d : Blocks)
      → Owned sb ip d
      → left ≤ k
      → off + left ≤ maxfile * bsize
      → Written sb ip d off left src mem (store_from sb k off left src mem (ip, d))
  unfolding store_from
  store_from-Written zero off left src mem ip d ok enough fits = record {
    owned = ok;
    rest = refl;
    filled = λ n h why. elim why [
      | inl old ↦ old
      | inr (pos, _, _) ↦ absurd (omega (arith, pos, enough))
    ];
    bytes = λ x h. ground (arith, enough);
    spent = omega arith;
    foreign = λ b f. (f, λ j. refl);
  }
  store_from-Written (suc k) off left src mem ip d ok enough fits = elim (ℕ_discrete left 0) [
    | Dec.yes e ↦
        rw (e, store_from)
          (record {
            owned = ok;
            rest = refl;
            filled = λ n h why. elim why [
              | inl old ↦ old
              | inr (pos, _, _) ↦ absurd (omega (arith, pos, e))
            ];
            bytes = λ x h. ground arith;
            spent = omega arith;
            foreign = λ b f. (f, λ j. refl);
          })
    | Dec.no ne ↦
        let more : (left == 0) ≡ false = ground (arith, ne) in
        rw (more, store_from)
          (Written-answer k off left src mem ip d (bmap sb ip d (off / bsize)) ok
            (omega (arith, ne)) fits
            (bmap-Bmapped sb ip d (off / bsize) ok (omega (arith, fits, ne)))
            (λ ip' d' ok'.
              store_from-Written k (off + chunk left off) (left - chunk left off)
                (src + chunk left off) mem ip' d' ok' (omega (arith, enough, ne))
                (omega (arith, fits))))
  ]
