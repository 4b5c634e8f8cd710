-- ===== src/Fs/Inode/Mapping.antt =====
-- `bmap` as a whole: the block it answers, and what it leaves as it was.
use cse314_operating_system.Base.{
  get_or-set_self, ℕ, zero, suc, ◌+◌, ◌-◌, ◌*◌, ◌≤◌, ◌<◌, ◌≡◌, refl, sym, ap, subst, ◌∙◌, ◌≢◌, inl,
  inr, true, false, Option, none, some, arith, dec_lt, ltb, ◌==◌, lt→ltb, ==_iff, Bool-cases,
  get_or, set,
}
use cse314_operating_system.Fs.{Blocks, Superblock, balloc}
use cse314_operating_system.Fs.Bitmap.{in_use}
use cse314_operating_system.Fs.Alloc.{Allocated, balloc-Allocated}
use cse314_operating_system.Fs.Inode.{
  maxfile, Inode, word_at, put_word, slot, entry, bmap, ndirect, nindirect,
}
use cse314_operating_system.Fs.Inode.Owning.{free_among}
use cse314_operating_system.Fs.Inode.Lookup.{indirect, lookup, lookup-direct, lookup-entry}
use cse314_operating_system.Fs.Inode.Growing.{
  Grown-more, free_count, Owned, Grown, Grown-trans, Mapped,
}
use cse314_operating_system.Fs.Inode.Growing.{Mapped-there}
use cse314_operating_system.Fs.Inode.Bmap.{
  r-ne_zero, Mapped-direct, lookup-indirect, Grown-indirect,
}
use cse314_operating_system.Fs.Inode.Growing.{Grown-refl}
use cse314_operating_system.Fs.Inode.Entry.{Mapped-entry}

module _ (sb : Superblock) where
  abbrev pub Full : Blocks → Type 0
  Full d = (x : ℕ) → x < sb.size → in_use sb d x ≡ true

  Full-count : (d : Blocks) → Full d → free_count sb d ≡ 0
  Full-count d full = none_free sb.size (omega arith)
    where
      none_free : (n : ℕ) → n ≤ sb.size → free_among (in_use sb d) n ≡ 0
      none_free zero h = refl
      none_free (suc n) h = rw (full n (omega (arith, h))) (none_free n (omega (arith, h)))

  -- What `bmap` answers: a panic, when at most one block is free; or the block, with everything else kept.
  abbrev pub Bmapped : (ip : Inode) (d : Blocks) (n : ℕ) → Option (ℕ × Inode × Blocks) → Type 0
  Bmapped ip d n none = free_count sb d ≤ 1
  Bmapped ip d n (some (a, ip', d')) = Mapped sb 2 ip d n a ip' d'

  -- What the step to a direct address or to an entry answers
  abbrev Step : (ip : Inode) (d : Blocks) (n : ℕ) → Option (ℕ × Inode × Blocks) → Type 0
  Step ip d n none = Full d
  Step ip d n (some (a, ip', d')) = Mapped sb 1 ip d n a ip' d'

  Step-Bmapped :
      (ip : Inode) (d : Blocks) (n : ℕ) (o : Option (ℕ × Inode × Blocks))
      → Step ip d n o
      → Bmapped ip d n o
  Step-Bmapped ip d n none full = omega (arith, Full-count d full)
  Step-Bmapped ip d n (some (a, ip', d')) m = record {
    grown = Grown-more sb 1 2 ip ip' d d' (omega arith) m.grown;
    found = m.found;
    there = m.there;
    others = m.others;
    blank = m.blank;
    fresh = m.fresh;
    same = m.same;
  }

  module _ (ip : Inode) (d : Blocks) (ok : Owned sb ip d) where
    direct_answer :
        (n : ℕ)
        → n < ndirect
        → get_or ip.addrs n 0 ≡ 0
        → (o : Option (ℕ × Blocks)) → Allocated sb d o
        → Step ip d n (elim o [
          | none ↦ none
          | some (r, d') ↦ some (r, record ip { addrs = set ip.addrs n r }, d')
        ])
    direct_answer n small empty none full = full
    direct_answer n small empty (some (r, d')) taken =
        Mapped-direct sb ip d d' r ok taken n small empty

    slot-direct : (n : ℕ) → n < ndirect → Step ip d n (slot sb ip d n)
    unfolding slot
    slot-direct n small = elim (Bool-cases (get_or ip.addrs n 0 == 0)) [
      | inl t ↦
          rw (t, slot)
            (direct_answer n small ((==_iff (get_or ip.addrs n 0) 0).0 t) (balloc sb d)
              (balloc-Allocated sb d ok.formatted))
      | inr t ↦
          rw (t, slot)
            (subst (λ a. Mapped sb 1 ip d n a ip d) (lookup-direct ip d n small)
              (Mapped-there sb ip d n ok (λ e. ground (arith, t, lookup-direct ip d n small, e))))
    ]

    -- What the step to the indirect block answers: its address, with every block number kept
    record Listed (a : ℕ) (ip' : Inode) (d' : Blocks) : Type 0 where
      grown : Grown sb 1 ip d ip' d'
      at : indirect ip' ≡ a
      there : a ≢ 0
      same : (k : ℕ) → lookup ip' d' k ≡ lookup ip d k

    abbrev Listing : Option (ℕ × Inode × Blocks) → Type 0
    Listing none = Full d
    Listing (some (a, ip', d')) = Listed a ip' d'

    indirect_answer :
        indirect ip ≡ 0
        → (o : Option (ℕ × Blocks)) → Allocated sb d o
        → Listing (elim o [
          | none ↦ none
          | some (r, d') ↦ some (r, record ip { addrs = set ip.addrs ndirect r }, d')
        ])
    indirect_answer empty none full = full
    indirect_answer empty (some (r, d')) taken = record {
      grown = Grown-indirect sb ip d d' r ok taken empty;
      at = get_or-set_self ip.addrs ndirect r 0 (omega (arith, ok.slots));
      there = r-ne_zero sb ip d d' r ok taken;
      same = λ k. lookup-indirect sb ip d d' r ok taken k empty;
    }

    slot-indirect : Listing (slot sb ip d ndirect)
    unfolding slot
    slot-indirect = elim (Bool-cases (get_or ip.addrs ndirect 0 == 0)) [
      | inl t ↦
          rw (t, slot)
            (indirect_answer ((==_iff (indirect ip) 0).0 t) (balloc sb d)
              (balloc-Allocated sb d ok.formatted))
      | inr t ↦
          rw (t, slot)
            (record {
              grown = Grown-refl sb ip d ok;
              at = refl;
              there = λ e. ground (arith, t, e);
              same = λ k. refl;
            })
    ]

    entry_answer :
        (n : ℕ)
        → n < nindirect
        → indirect ip ≢ 0
        → word_at d (indirect ip) (4 * n) ≡ 0
        → (o : Option (ℕ × Blocks)) → Allocated sb d o
        → Step ip d (ndirect + n) (elim o [
          | none ↦ none
          | some (r, d') ↦ some (r, ip, put_word d' (indirect ip) (4 * n) r)
        ])
    entry_answer n small listed empty none full = full
    entry_answer n small listed empty (some (r, d')) taken =
        Mapped-entry sb ip d d' r n ok taken listed small empty

    entry_lem :
        (n : ℕ)
        → n < nindirect
        → indirect ip ≢ 0
        → Step ip d (ndirect + n) (entry sb n (indirect ip, ip, d))
    unfolding entry
    entry_lem n small listed =
        let at : lookup ip d (ndirect + n) ≡ word_at d (indirect ip) (4 * n) =
          lookup-entry ip d (ndirect + n) (omega arith) listed
          ∙ ap (λ m. word_at d (indirect ip) (4 * m)) {x = ndirect + n - ndirect} {y = n}
              (omega arith) in
        elim (Bool-cases (word_at d (indirect ip) (4 * n) == 0)) [
          | inl t ↦
              rw (t, entry)
                (entry_answer n small listed ((==_iff (word_at d (indirect ip) (4 * n)) 0).0 t)
                  (balloc sb d) (balloc-Allocated sb d ok.formatted))
          | inr t ↦
              rw (t, entry)
                (subst (λ a. Mapped sb 1 ip d (ndirect + n) a ip d) at
                  (Mapped-there sb ip d (ndirect + n) ok
                    λ e. cc (sym t ∙ (==_iff (word_at d (indirect ip) (4 * n)) 0).1 (sym at ∙ e))))
        ]

    -- An entry of the indirect block that the first step listed
    Mapped-Listed :
        (n a a' : ℕ) (ip1 ip2 : Inode) (d1 d2 : Blocks)
        → n < maxfile
        → Listed a' ip1 d1
        → Mapped sb 1 ip1 d1 n a ip2 d2
        → Mapped sb 2 ip d n a ip2 d2
    Mapped-Listed n a a' ip1 ip2 d1 d2 small l m = record {
      grown = Grown-trans sb 1 1 ip ip1 ip2 d d1 d2 l.grown m.grown;
      found = m.found;
      there = m.there;
      others = λ k small ne. m.others k small ne ∙ l.same k;
      blank = λ e. m.blank (l.same n ∙ e);
      fresh = λ e. elim (Bool-cases (in_use sb d a)) [
        | inr unused ↦ unused
        | inl used ↦
            let held = m.grown.owned.tree.held n small (λ z. m.there (sym m.found ∙ z)) in
            let inside : a < sb.size = subst (λ x. x < sb.size) m.found held.1 in
            absurd (cc (sym (m.fresh (l.same n ∙ e)) ∙ l.grown.kept a inside used))
      ];
      same = λ ne. m.same (λ e. ne (sym (l.same n) ∙ e)) ∙ l.same n;
    }

    Step-Listed :
        (n a' : ℕ) (ip1 : Inode) (d1 : Blocks) (o : Option (ℕ × Inode × Blocks))
        → n < maxfile
        → Listed a' ip1 d1
        → Step ip1 d1 n o
        → Bmapped ip d n o
    Step-Listed n a' ip1 d1 none small l full = omega (arith, l.grown.spent, Full-count d1 full)
    Step-Listed n a' ip1 d1 (some (a, ip2, d2)) small l m =
        Mapped-Listed n a a' ip1 ip2 d1 d2 small l m

  listed_answer :
      (ip : Inode) (d : Blocks) (ok : Owned sb ip d) (n : ℕ)
      → n < nindirect
      → (o : Option (ℕ × Inode × Blocks)) → Listing ip d ok o
      → Bmapped ip d (ndirect + n) (elim o [ none ↦ none | some r ↦ entry sb n r ])
  listed_answer ip d ok n small none full = Step-Bmapped ip d (ndirect + n) none full
  listed_answer ip d ok n small (some (a, ip', d')) l =
      Step-Listed ip d ok (ndirect + n) a ip' d' (entry sb n (a, ip', d')) (omega (arith, small)) l
        (subst (λ b. Step ip' d' (ndirect + n) (entry sb n (b, ip', d'))) l.at
          (entry_lem ip' d' l.grown.owned n small (λ e. l.there (sym l.at ∙ e))))

  -- For a block number that a file can have, `bmap` panics only when at most one block of the disk is free. Else
  -- it answers the block of that number, which is the one that was there, or a new one of zeros; the file is
  -- still well-formed, its other block numbers stand, no block in use
  -- changes but its indirect block, and at most two blocks were taken.
  pub bmap-Bmapped :
      (ip : Inode) (d : Blocks) (n : ℕ)
      → Owned sb ip d
      → n < maxfile
      → Bmapped ip d n (bmap sb ip d n)
  unfolding bmap
  bmap-Bmapped ip d n ok small = elim (dec_lt n ndirect) [
    | Dec.yes h ↦
        rw (lt→ltb n ndirect h, bmap)
          (Step-Bmapped ip d n (slot sb ip d n) (slot-direct ip d ok n h))
    | Dec.no h ↦
        let above : ltb n ndirect ≡ false = ground (arith, h) in
        rw (above, lt→ltb (n - ndirect) nindirect (omega (arith, small)), bmap)
          (subst
            (λ m.
              Bmapped ip d m
                (elim (slot sb ip d ndirect) [ none ↦ none | some r ↦ entry sb (n - ndirect) r ]))
            {x = ndirect + (n - ndirect)} {y = n} (omega (arith, h))
            (listed_answer ip d ok (n - ndirect) (omega (arith, small)) (slot sb ip d ndirect)
              (slot-indirect ip d ok)))
  ]
