-- ===== src/Fs/Inode/There.antt =====
-- `bmap` at a block that the file has.
use cse314_operating_system.Base.{
  ℕ, ◌-◌, ◌*◌, ◌<◌, ◌≡◌, refl, ◌∙◌, ◌≢◌, false, some, arith, dec_lt, ltb, ◌==◌, lt→ltb, get_or,
}
use cse314_operating_system.Fs.{Blocks, Superblock}
use cse314_operating_system.Fs.Inode.{
  Inode, maxfile, ndirect, nindirect, bmap, slot, entry, word_at,
}
use cse314_operating_system.Fs.Inode.Lookup.{
  indirect, lookup, lookup-direct, lookup-entry, lookup-none,
}

module _ (sb : Superblock) (ip : Inode) (d : Blocks) where
  slot-there :
      (i : ℕ) → get_or ip.addrs i 0 ≢ 0 → slot sb ip d i ≡ some (get_or ip.addrs i 0, ip, d)
  unfolding slot
  slot-there i ne = let t : (get_or ip.addrs i 0 == 0) ≡ false = ground (arith, ne) in rw t refl

  entry-there :
      (n ind : ℕ)
      → word_at d ind (4 * n) ≢ 0
      → entry sb n (ind, ip, d) ≡ some (word_at d ind (4 * n), ip, d)
  unfolding entry
  entry-there n ind ne =
      let t : (word_at d ind (4 * n) == 0) ≡ false = ground (arith, ne) in rw t refl

  -- A block that the file has is found, and nothing is allocated.
  pub bmap-there :
      (n : ℕ) → n < maxfile → lookup ip d n ≢ 0 → bmap sb ip d n ≡ some (lookup ip d n, ip, d)
  unfolding bmap
  bmap-there n small ne = elim (dec_lt n ndirect) [
    | Dec.yes h ↦
        let at = lookup-direct ip d n h in
        rw (lt→ltb n ndirect h, bmap) (slot-there n (λ z. ne (at ∙ z)))
    | Dec.no h ↦
        let above : ltb n ndirect ≡ false = ground (arith, h) in
        let listed : indirect ip ≢ 0 = λ z. ne (lookup-none ip d n (omega (arith, h)) z) in
        let unlisted : (indirect ip == 0) ≡ false = ground (arith, listed) in
        let at = lookup-entry ip d n (omega (arith, h)) listed in
        rw
          (
            above,
            unlisted,
            lt→ltb (n - ndirect) nindirect (omega (arith, small)),
            slot-there ndirect listed,
            bmap,
          )
          (entry-there (n - ndirect) (indirect ip) (λ z. ne (at ∙ z)))
  ]
