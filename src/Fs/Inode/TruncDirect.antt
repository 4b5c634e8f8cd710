-- ===== src/Fs/Inode/TruncDirect.antt =====
-- The loop of `itrunc` over the direct addresses.
use cse314_operating_system.Base.{
  get_or-set_self, get_or-set_ne, ℕ, zero, suc, ◌+◌, ◌≤◌, ◌<◌, ◌≡◌, refl, sym, ap, ◌∙◌, ◌≢◌, false,
  ◌||◌, some, arith, ℕ_discrete, ◌==◌, length, get_or, set, length-set,
}
use cse314_operating_system.Fs.{Blocks, Superblock, bfree}
use cse314_operating_system.Fs.Inode.{Inode, ndirect, free_direct}
use cse314_operating_system.Fs.Inode.Lookup.{indirect}
use cse314_operating_system.Fs.Inode.Trunc.{
  Freed, among, among-zero, Listed, Listed-next, Listed-freed, Freed-bfree, Freed-trans, Freed-cong,
  Freed-none, among-skip, among-first,
}

module _ (sb : Superblock) where
  direct-skip :
      (n i : ℕ) (ip : Inode) (d : Blocks)
      → get_or ip.addrs i 0 ≡ 0
      → free_direct sb (suc n) i (ip, d) ≡ free_direct sb n (i + 1) (ip, d)
  unfolding free_direct
  direct-skip n i ip d e = rw (e, free_direct) refl

  direct-free :
      (n i a : ℕ) (ip : Inode) (d d1 : Blocks)
      → get_or ip.addrs i 0 ≡ a
      → a ≢ 0
      → bfree sb d a ≡ some d1
      → free_direct sb (suc n) i (ip, d)
        ≡ free_direct sb n (i + 1) (record ip { addrs = set ip.addrs i 0 }, d1)
  unfolding free_direct
  direct-free n i a ip d d1 e ne f =
      let t : (get_or ip.addrs i 0 == 0) ≡ false = ground (arith, e, ne) in
      rw (t, ap (bfree sb d) e ∙ f, free_direct) refl

  -- After the loop over the direct addresses: the slots are clear, and the blocks they named are free.
  pub record Cleared (at : ℕ → ℕ) (n i : ℕ) (ip : Inode) (d : Blocks) (ip' : Inode) (d' : Blocks)
      : Type 0 where
    pub rest : ip' ≡ record ip { addrs = ip'.addrs }
    pub slots : length ip'.addrs ≡ 13
    pub clear : (k : ℕ) → k < ndirect → get_or ip'.addrs k 0 ≡ 0
    pub ind : indirect ip' ≡ at ndirect
    pub freed : Freed sb (among at n i) d d'

  pub free_direct_lem :
      (at : ℕ → ℕ) (n i : ℕ) (ip : Inode) (d : Blocks)
      → i + n ≡ ndirect
      → length ip.addrs ≡ 13
      → ((k : ℕ) → i ≤ k → get_or ip.addrs k 0 ≡ at k)
      → ((k : ℕ) → k < i → get_or ip.addrs k 0 ≡ 0)
      → Listed sb d at n i
      → (ip' : Inode) × (d' : Blocks) × (free_direct sb n i (ip, d) ≡ some (ip', d'))
        × Cleared at n i ip d ip' d'
  unfolding free_direct
  free_direct_lem at zero i ip d count slots same cleared l = (
    ip,
    d,
    refl,
    record {
      rest = refl;
      slots = slots;
      clear = λ k h. cleared k (omega (arith, h, count));
      ind = same ndirect (omega (arith, count));
      freed = Freed-none sb (among at 0 i) d (among-zero at i);
    },
  )
  free_direct_lem at (suc n) i ip d count slots same cleared l = elim (ℕ_discrete (at i) 0) [
    | Dec.yes e ↦
        let here : get_or ip.addrs i 0 ≡ 0 = same i (omega arith) ∙ e in
        let (ip', d', done, c) =
          free_direct_lem at n (i + 1) ip d (omega (arith, count)) slots
            (λ k h. same k (omega (arith, h)))
            (λ k h. elim (ℕ_discrete k i) [
              | Dec.yes s ↦ ap (λ q. get_or ip.addrs q 0) s ∙ here
              | Dec.no ns ↦ cleared k (omega (arith, h, ns))
            ])
            (Listed-next sb d at n i l) in
        (
          ip',
          d',
          direct-skip n i ip d here ∙ done,
          record {
            rest = c.rest;
            slots = c.slots;
            clear = c.clear;
            ind = c.ind;
            freed =
                Freed-cong sb (among at n (i + 1)) (among at (suc n) i) d d'
                  (λ x. among-skip at n i x e) c.freed;
          },
        )
    | Dec.no ne ↦
        let (d1, done, f) =
          Freed-bfree sb d (at i) (l.inside i (omega arith) (omega arith) ne)
            (l.used i (omega arith) (omega arith) ne) in
        let ip1 : Inode = record ip { addrs = set ip.addrs i 0 } in
        let (ip', d', done2, c) =
          free_direct_lem at n (i + 1) ip1 d1 (omega (arith, count))
            (length-set ip.addrs i 0 ∙ slots)
            (λ k h. get_or-set_ne ip.addrs i k 0 0 (omega (arith, h)) ∙ same k (omega (arith, h)))
            (λ k h. elim (ℕ_discrete i k) [
              | Dec.yes s ↦
                  ap (λ q. get_or (set ip.addrs i 0) q 0) (sym s)
                  ∙ get_or-set_self ip.addrs i 0 0 (omega (arith, slots, count))
              | Dec.no ns ↦ get_or-set_ne ip.addrs i k 0 0 ns ∙ cleared k (omega (arith, h, ns))
            ])
            (Listed-freed sb d d1 at n i f l) in
        (
          ip',
          d',
          direct-free n i (at i) ip d d1 (same i (omega arith)) ne done ∙ done2,
          record {
            rest = c.rest;
            slots = c.slots;
            clear = c.clear;
            ind = c.ind;
            freed =
                Freed-cong sb (λ x. x == at i || among at n (i + 1) x) (among at (suc n) i) d d'
                  (λ x. among-first at n i x ne)
                  (Freed-trans sb (λ x. x == at i) (among at n (i + 1)) d d1 d' f c.freed);
          },
        )
  ]
