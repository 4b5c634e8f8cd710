-- ===== src/Fs/Inode/TruncIndirect.antt =====
-- The indirect block in `itrunc`, after the direct addresses.
use cse314_operating_system.Base.{
  get_or-set_self, get_or-set_ne, ℕ, ◌+◌, ◌-◌, ◌*◌, ◌<◌, ◌≡◌, refl, sym, ap, subst, ◌∙◌, ◌≢◌, Bool,
  true, false, ◌||◌, some, arith, dec_lt, ℕ_discrete, ◌==◌, if◌then◌else◌, length, get_or, set,
  length-set,
}
use cse314_operating_system.Fs.{Blocks, Superblock, bfree}
use cse314_operating_system.Fs.Bitmap.{in_use}
use cse314_operating_system.Fs.Inode.{
  Inode, ndirect, nindirect, word_at, free_entries, free_indirect,
}
use cse314_operating_system.Fs.Inode.Lookup.{
  indirect, lookup, lookup-direct, lookup-entry, word_at-frame,
}
use cse314_operating_system.Fs.Inode.Owning.{Held}
use cse314_operating_system.Fs.Inode.Growing.{Owned}
use cse314_operating_system.Fs.Inode.Trunc.{
  Freed, among, Listed, among-not, Freed-bfree, Freed-trans, Freed-cong, free_entries_lem,
}
use cse314_operating_system.Fs.Inode.TruncDirect.{Cleared}

or_false : (b : Bool) → (b || false) ≡ b
or_false true = refl
or_false false = refl

indirect-none :
    (sb : Superblock) (ip : Inode) (d : Blocks)
    → indirect ip ≡ 0
    → free_indirect sb (ip, d) ≡ some (ip, d)
unfolding free_indirect
indirect-none sb ip d e = rw (e, free_indirect) refl

indirect-some :
    (sb : Superblock) (ip : Inode) (d d2 d3 : Blocks) (a : ℕ)
    → indirect ip ≡ a
    → a ≢ 0
    → free_entries sb nindirect 0 a d ≡ some d2
    → bfree sb d2 a ≡ some d3
    → free_indirect sb (ip, d) ≡ some (record ip { addrs = set ip.addrs ndirect 0 }, d3)
unfolding free_indirect
indirect-some sb ip d d2 d3 a e ne f g =
    let t : (get_or ip.addrs ndirect 0 == 0) ≡ false = ground (arith, e, ne) in
    rw (t, ap (λ b. free_entries sb nindirect 0 b d) e ∙ f, ap (bfree sb d2) e ∙ g, free_indirect)
      refl

module _ (sb : Superblock) (ip : Inode) (d : Blocks) (ok : Owned sb ip d) where
  abbrev pub direct : ℕ → ℕ
  direct k = get_or ip.addrs k 0

  abbrev pub entry_at : ℕ → ℕ
  entry_at k = word_at d (indirect ip) (4 * k)

  pub lookup-entry_at : (k : ℕ) → indirect ip ≢ 0 → lookup ip d (ndirect + k) ≡ entry_at k
  lookup-entry_at k listed =
      lookup-entry ip d (ndirect + k) (omega arith) listed
      ∙ ap (λ m. word_at d (indirect ip) (4 * m)) {x = ndirect + k - ndirect} {y = k} (omega arith)

  pub Listed-direct : Listed sb d direct ndirect 0
  Listed-direct = record {
    inside = λ k lo hi ne. (held k hi ne).1;
    used = λ k lo hi ne. (held k hi ne).2;
    distinct = λ k m lo lt hi ne e.
        let at_k = lookup-direct ip d k (omega (arith, lt, hi)) in
        let at_m = lookup-direct ip d m (omega (arith, hi)) in
        let same =
          ok.tree.distinct m k (omega (arith, hi)) (omega (arith, lt, hi)) (λ z. ne (sym at_m ∙ z))
            (at_m ∙ e ∙ sym at_k) in
        omega (arith, same, lt);
  }
    where
      held : (k : ℕ) → k < ndirect → direct k ≢ 0 → Held sb (in_use sb d) (direct k)
      held k hi ne =
          let at = lookup-direct ip d k hi in
          subst (Held sb (in_use sb d)) at
            (ok.tree.held k (omega (arith, hi)) (λ z. ne (sym at ∙ z)))

  -- No entry of the indirect block is a direct address, and neither is the indirect block.
  pub direct-ne-entry :
      (k : ℕ)
      → k < nindirect
      → indirect ip ≢ 0
      → entry_at k ≢ 0
      → among direct ndirect 0 (entry_at k) ≡ false
  direct-ne-entry k hi listed ne = among-not direct ndirect 0 (entry_at k) λ m lo small nz e.
      let at_m = lookup-direct ip d m (omega (arith, small)) in
      let at_k = lookup-entry_at k listed in
      let same =
        ok.tree.distinct m (ndirect + k) (omega (arith, small)) (omega (arith, hi))
          (λ z. nz (sym at_m ∙ z)) (at_m ∙ e ∙ sym at_k) in
      omega (arith, same, small)

  pub direct-ne-indirect : among direct ndirect 0 (indirect ip) ≡ false
  direct-ne-indirect = among-not direct ndirect 0 (indirect ip) λ m lo small nz e.
      let at_m = lookup-direct ip d m (omega (arith, small)) in
      ok.tree.apart m (omega (arith, small)) (λ z. nz (sym at_m ∙ z)) (at_m ∙ e)

  pub entry-ne-indirect : indirect ip ≢ 0 → among entry_at nindirect 0 (indirect ip) ≡ false
  entry-ne-indirect listed = among-not entry_at nindirect 0 (indirect ip) λ k lo small nz e.
      let at_k = lookup-entry_at k listed in
      ok.tree.apart (ndirect + k) (omega (arith, small)) (λ z. nz (sym at_k ∙ z)) (at_k ∙ e)

  Listed-entries :
      (d1 : Blocks)
      → indirect ip ≢ 0
      → Freed sb (among direct ndirect 0) d d1
      → Listed sb d1 entry_at nindirect 0
  Listed-entries d1 listed f = record {
    inside = λ k lo hi ne. (held k hi ne).1;
    used = λ k lo hi ne.
        f.bits (entry_at k) ∙ rw (direct-ne-entry k hi listed ne, (held k hi ne).2) refl;
    distinct = λ k m lo lt hi ne e.
        let at_k = lookup-entry_at k listed in
        let at_m = lookup-entry_at m listed in
        let same =
          ok.tree.distinct (ndirect + m) (ndirect + k) (omega (arith, hi)) (omega (arith, lt, hi))
            (λ z. ne (sym at_m ∙ z)) (at_m ∙ e ∙ sym at_k) in
        omega (arith, same, lt);
  }
    where
      held : (k : ℕ) → k < nindirect → entry_at k ≢ 0 → Held sb (in_use sb d) (entry_at k)
      held k hi ne =
          let at = lookup-entry_at k listed in
          subst (Held sb (in_use sb d)) at
            (ok.tree.held (ndirect + k) (omega (arith, hi)) (λ z. ne (sym at ∙ z)))

  -- The blocks of the file, its indirect block among them
  abbrev pub of_file : (x : ℕ) → Bool
  of_file x =
      among direct ndirect 0 x
      || (if indirect ip == 0 then false else among entry_at nindirect 0 x || x == indirect ip)

  -- After the indirect block: every slot is clear, and the blocks of the file are free.
  pub record Emptied (ip' : Inode) (d' : Blocks) : Type 0 where
    pub rest : ip' ≡ record ip { addrs = ip'.addrs }
    pub slots : length ip'.addrs ≡ 13
    pub clear : (k : ℕ) → k < 13 → get_or ip'.addrs k 0 ≡ 0
    pub freed : Freed sb of_file d d'

  pub free_indirect_lem :
      (ip1 : Inode) (d1 : Blocks)
      → Cleared sb direct ndirect 0 ip d ip1 d1
      → (ip2 : Inode) × (d2 : Blocks) × (free_indirect sb (ip1, d1) ≡ some (ip2, d2))
        × Emptied ip2 d2
  free_indirect_lem ip1 d1 c = elim (ℕ_discrete (indirect ip) 0) [
    | Dec.yes e ↦ (
      ip1,
      d1,
      indirect-none sb ip1 d1 (c.ind ∙ e),
      record {
        rest = c.rest;
        slots = c.slots;
        clear = λ k h. elim (dec_lt k ndirect) [
          | Dec.yes small ↦ c.clear k small
          | Dec.no last ↦
              ap (λ q. get_or ip1.addrs q 0) {x = k} {y = ndirect} (omega (arith, h, last))
              ∙ c.ind
              ∙ e
        ];
        freed =
            Freed-cong sb (among direct ndirect 0) of_file d d1
              (λ x. rw e (sym (or_false (among direct ndirect 0 x)))) c.freed;
      },
    )
    | Dec.no listed ↦
        let held = ok.tree.held_ind listed in
        let t : (indirect ip == 0) ≡ false = ground (arith, listed) in
        let (d2, done, f) =
          free_entries_lem sb entry_at nindirect 0 (indirect ip) d1 held.0
            (λ k.
              word_at-frame d d1 (indirect ip) (4 * k)
                (λ j _ _. c.freed.frame (indirect ip) j held.0))
            (Listed-entries d1 listed c.freed) in
        let (d3, done2, f2) = Freed-bfree sb d2 (indirect ip) held.1 (
          f.bits (indirect ip)
          ∙ rw (entry-ne-indirect listed)
              (c.freed.bits (indirect ip) ∙ rw (direct-ne-indirect, held.2) refl)) in
        (
          record ip1 { addrs = set ip1.addrs ndirect 0 },
          d3,
          indirect-some sb ip1 d1 d2 d3 (indirect ip) c.ind listed done done2,
          record {
            rest = ap (λ (x : Inode). record x { addrs = set ip1.addrs ndirect 0 }) c.rest;
            slots = length-set ip1.addrs ndirect 0 ∙ c.slots;
            clear = λ k h. elim (ℕ_discrete ndirect k) [
              | Dec.yes e ↦
                  ap (λ q. get_or (set ip1.addrs ndirect 0) q 0) (sym e)
                  ∙ get_or-set_self ip1.addrs ndirect 0 0 (omega (arith, c.slots))
              | Dec.no ne ↦
                  get_or-set_ne ip1.addrs ndirect k 0 0 ne ∙ c.clear k (omega (arith, h, ne))
            ];
            freed =
                Freed-cong sb
                  (λ x.
                    among direct ndirect 0 x || (among entry_at nindirect 0 x || x == indirect ip))
                  of_file d d3 (λ x. rw t refl)
                  (Freed-trans sb (among direct ndirect 0)
                    (λ x. among entry_at nindirect 0 x || x == indirect ip) d d1 d3 c.freed
                    (Freed-trans sb (among entry_at nindirect 0) (λ x. x == indirect ip) d1 d2 d3 f
                      f2));
          },
        )
  ]
