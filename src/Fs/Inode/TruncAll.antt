-- ===== src/Fs/Inode/TruncAll.antt =====
-- `itrunc` gives back every block of a file, and does not panic.
use cse314_operating_system.Base.{
  ℕ, ◌+◌, ◌-◌, ◌/◌, ◌%◌, ◌^◌, ◌≤◌, ◌<◌, ◌≡◌, refl, sym, ap, subst, ◌∙◌, ◌≢◌, inl, true, false, not,
  ◌&&◌, some, arith, dec_lt, ℕ_discrete, ◌==◌,
}
use cse314_operating_system.Fs.{Blocks, Superblock}
use cse314_operating_system.Fs.Bitmap.{in_use}
use cse314_operating_system.Fs.Alloc.{nmeta}
use cse314_operating_system.Fs.Inode.{Inode, maxfile, ndirect, nindirect, emptied, itrunc, iupdate}
use cse314_operating_system.Fs.Inode.Lookup.{
  indirect, lookup, lookup-direct, lookup-entry, lookup-none,
}
use cse314_operating_system.Fs.Inode.Growing.{or_true, Owned}
use cse314_operating_system.Fs.Inode.Trunc.{among, among-at, among-not}
use cse314_operating_system.Base.{has_bit}
use cse314_operating_system.Fs.{bpb, bblock}
use cse314_operating_system.Fs.Inode.TruncDirect.{free_direct_lem}
use cse314_operating_system.Fs.Inode.Update.{iupdate-away}
use cse314_operating_system.Fs.Inode.TruncIndirect.{
  direct, entry_at, of_file, Emptied, lookup-entry_at, Listed-direct, direct-ne-indirect,
  entry-ne-indirect, free_indirect_lem,
}

module _ (sb : Superblock) (ip : Inode) (d : Blocks) (ok : Owned sb ip d) where
  -- What `itrunc` leaves: an empty file of size 0, every block it had free, and nothing else changed in the
  -- bitmap and behind it
  pub record Truncated (ip' : Inode) (d' : Blocks) : Type 0 where
    pub rest : ip' ≡ record ip { addrs = ip'.addrs; size = 0 }
    pub empty : (n : ℕ) → n < maxfile → lookup ip' d' n ≡ 0
    pub freed : (n : ℕ) → n < maxfile → lookup ip d n ≢ 0 → in_use sb d' (lookup ip d n) ≡ false
    pub freed_indirect : indirect ip ≢ 0 → in_use sb d' (indirect ip) ≡ false
    pub others :
        (x : ℕ)
        → ((n : ℕ) → n < maxfile → lookup ip d n ≢ 0 → lookup ip d n ≢ x)
        → indirect ip ≢ x
        → in_use sb d' x ≡ in_use sb d x
    pub frame : (x j : ℕ) → nmeta sb ≤ x → d' x j ≡ d x j

  of_file-others :
      (x : ℕ)
      → ((n : ℕ) → n < maxfile → lookup ip d n ≢ 0 → lookup ip d n ≢ x)
      → indirect ip ≢ x
      → of_file sb ip d ok x ≡ false
  of_file-others x away ne =
      let a = among-not (direct sb ip d ok) ndirect 0 x λ m lo h nz e.
        let at_m = lookup-direct ip d m (omega (arith, h)) in
        away m (omega (arith, h)) (λ z. nz (sym at_m ∙ z)) (at_m ∙ e) in
      elim (ℕ_discrete (indirect ip) 0) [
        | Dec.yes e ↦ rw (a, e) refl
        | Dec.no listed ↦
            let t : (indirect ip == 0) ≡ false = ground (arith, listed) in
            let s : (x == indirect ip) ≡ false = ground (arith, ne) in
            let b = among-not (entry_at sb ip d ok) nindirect 0 x λ k lo h nz e.
              let at_k = lookup-entry_at sb ip d ok k listed in
              away (ndirect + k) (omega (arith, h)) (λ z. nz (sym at_k ∙ z)) (at_k ∙ e) in
            rw (a, t, b, s) refl
      ]

  of_file-block :
      (n : ℕ) → n < maxfile → lookup ip d n ≢ 0 → of_file sb ip d ok (lookup ip d n) ≡ true
  of_file-block n h ne = elim (dec_lt n ndirect) [
    | Dec.yes small ↦
        let at = lookup-direct ip d n small in
        rw (at, among-at (direct sb ip d ok) ndirect 0 n (omega arith) small (λ z. ne (at ∙ z)))
          refl
    | Dec.no big ↦
        let listed : indirect ip ≢ 0 = λ z. ne (lookup-none ip d n (omega (arith, big)) z) in
        let t : (indirect ip == 0) ≡ false = ground (arith, listed) in
        let at = lookup-entry ip d n (omega (arith, big)) listed in
        ap (of_file sb ip d ok) at
        ∙ rw
            (
              t,
              among-at (entry_at sb ip d ok) nindirect 0 (n - ndirect) (omega arith)
                  (omega (arith, h, big)) (λ z. ne (at ∙ z)),
            )
            (or_true (among (direct sb ip d ok) ndirect 0 (entry_at sb ip d ok (n - ndirect))))
  ]

  of_file-indirect : indirect ip ≢ 0 → of_file sb ip d ok (indirect ip) ≡ true
  of_file-indirect listed =
      let t : (indirect ip == 0) ≡ false = ground (arith, listed) in
      rw (t, direct-ne-indirect sb ip d ok, entry-ne-indirect sb ip d ok listed) (ground arith)

  Truncated-emptied :
      (ip2 : Inode) (d2 : Blocks)
      → ip.inum < sb.ninodes
      → Emptied sb ip d ok ip2 d2
      → let r = emptied sb (ip2, d2) in Truncated r.0 r.1
  unfolding emptied
  Truncated-emptied ip2 d2 number e =
      let ip' : Inode = record ip2 { size = 0 } in
      let same_number : ip'.inum < sb.ninodes =
        subst (λ i. i < sb.ninodes) (sym (ap (λ (x : Inode). x.inum) e.rest)) number in
      let behind : (x j : ℕ) → sb.bmapstart ≤ x → iupdate sb ip' d2 x j ≡ d2 x j = λ x j h.
        iupdate-away sb ip' d2 x j
          (inl (omega (arith, same_number, h, ok.formatted.inodes_first))) in
      let bits : (x : ℕ)
          → in_use sb (iupdate sb ip' d2) x ≡ (not (of_file sb ip d ok x) && in_use sb d x) =
        λ x.
          ap (λ byte. has_bit byte (2 ^ (x % bpb % 8)))
            (behind (bblock sb x) (x % bpb / 8) (omega arith))
          ∙ e.freed.bits x in
      record {
        rest = ap (λ (x : Inode). record x { size = 0 }) e.rest;
        empty = λ n h. elim (dec_lt n ndirect) [
          | Dec.yes small ↦
              lookup-direct ip' (iupdate sb ip' d2) n small ∙ e.clear n (omega (arith, small))
          | Dec.no big ↦
              lookup-none ip' (iupdate sb ip' d2) n (omega (arith, big)) (e.clear 12 (omega arith))
        ];
        freed = λ n h ne. bits (lookup ip d n) ∙ rw (of_file-block n h ne) refl;
        freed_indirect = λ listed. bits (indirect ip) ∙ rw (of_file-indirect listed) refl;
        others = λ x away ne. bits x ∙ rw (of_file-others x away ne) refl;
        frame = λ x j h. behind x j (omega (arith, h)) ∙ e.freed.frame x j h;
      }

  -- `itrunc` of a well-formed file does not panic. It leaves an empty file of size 0 with every block that the
  -- file had free, its indirect block among them; it changes no other bit of the bitmap and no block behind it.
  pub itrunc-Truncated :
      ip.inum < sb.ninodes
      → (ip' : Inode) × (d' : Blocks) × (itrunc sb ip d ≡ some (ip', d')) × Truncated ip' d'
  unfolding itrunc
  itrunc-Truncated number =
      let (ip1, d1, done1, c) =
        free_direct_lem sb (direct sb ip d ok) ndirect 0 ip d refl ok.slots (λ k h. refl)
          (λ k h. absurd (omega arith)) (Listed-direct sb ip d ok) in
      let (ip2, d2, done2, e) = free_indirect_lem sb ip d ok ip1 d1 c in
      (
        (emptied sb (ip2, d2)).0,
        (emptied sb (ip2, d2)).1,
        rw (done1, done2, itrunc) refl,
        Truncated-emptied ip2 d2 number e,
      )
