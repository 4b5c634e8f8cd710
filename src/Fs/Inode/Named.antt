-- ===== src/Fs/Inode/Named.antt =====
-- `itrunc` and `ilock` leave an inode its device and its number.
use cse314_operating_system.Base.{
  true, ℕ, zero, suc, ◌+◌, ◌≡◌, refl, sym, ap, ◌∙◌, inl, inr, none, some, ◌==◌, Bool-cases,
  Option-cases, get_or, set,
}
use cse314_operating_system.Fs.{Blocks, Superblock, bfree}
use cse314_operating_system.Fs.Inode.{
  word_at, load, half_at, iblock, dinode_offset, words_at, Inode, free_direct, free_entries,
  free_indirect, emptied, itrunc, ndirect, nindirect,
}

-- The same inode, on the same device
abbrev pub Named : Inode → Inode → Type 0
Named ip ip' = (ip'.dev ≡ ip.dev) × (ip'.inum ≡ ip.inum)

free_direct-Named :
    (sb : Superblock) (n i : ℕ) (ip ip' : Inode) (d d' : Blocks)
    → free_direct sb n i (ip, d) ≡ some (ip', d')
    → Named ip ip'
unfolding free_direct
free_direct-Named sb zero i ip ip' d d' e =
    let same : ip' ≡ ip = cc e in (ap (λ x. x.dev) same, ap (λ x. x.inum) same)
free_direct-Named sb (suc n) i ip ip' d d' e = elim (Bool-cases (get_or ip.addrs i 0 == 0)) [
  | inl t ↦
      let next : free_direct sb (suc n) i (ip, d) ≡ free_direct sb n (i + 1) (ip, d) =
        rw (t, free_direct) refl in
      free_direct-Named sb n (i + 1) ip ip' d d' (sym next ∙ e)
  | inr t ↦ elim (Option-cases (bfree sb d (get_or ip.addrs i 0))) [
    | inl q ↦
        let panic : free_direct sb (suc n) i (ip, d) ≡ none = rw (t, q, free_direct) refl in
        absurd (cc (e, panic))
    | inr (d1, q) ↦
        let ip1 : Inode = record ip { addrs = set ip.addrs i 0 } in
        let next : free_direct sb (suc n) i (ip, d) ≡ free_direct sb n (i + 1) (ip1, d1) =
          rw (t, q, free_direct) refl in
        free_direct-Named sb n (i + 1) ip1 ip' d1 d' (sym next ∙ e)
  ]
]

free_indirect-Named :
    (sb : Superblock) (ip ip' : Inode) (d d' : Blocks)
    → free_indirect sb (ip, d) ≡ some (ip', d')
    → Named ip ip'
unfolding free_indirect
free_indirect-Named sb ip ip' d d' e = elim (Bool-cases (get_or ip.addrs ndirect 0 == 0)) [
  | inl t ↦
      let end : free_indirect sb (ip, d) ≡ some (ip, d) = rw (t, free_indirect) refl in
      let same : ip' ≡ ip = cc (e, end) in (ap (λ x. x.dev) same, ap (λ x. x.inum) same)
  | inr t ↦ elim (Option-cases (free_entries sb nindirect 0 (get_or ip.addrs ndirect 0) d)) [
    | inl q ↦
        let panic : free_indirect sb (ip, d) ≡ none = rw (t, q, free_indirect) refl in
        absurd (cc (e, panic))
    | inr (d1, q) ↦ elim (Option-cases (bfree sb d1 (get_or ip.addrs ndirect 0))) [
      | inl q' ↦
          let panic : free_indirect sb (ip, d) ≡ none = rw (t, q, q', free_indirect) refl in
          absurd (cc (e, panic))
      | inr (d2, q') ↦
          let ip1 : Inode = record ip { addrs = set ip.addrs ndirect 0 } in
          let end : free_indirect sb (ip, d) ≡ some (ip1, d2) = rw (t, q, q', free_indirect) refl in
          let same : ip' ≡ ip1 = cc (e, end) in (ap (λ x. x.dev) same, ap (λ x. x.inum) same)
    ]
  ]
]

pub itrunc-Named :
    (sb : Superblock) (ip ip' : Inode) (d d' : Blocks)
    → itrunc sb ip d ≡ some (ip', d')
    → Named ip ip'
unfolding itrunc emptied
itrunc-Named sb ip ip' d d' e = elim (Option-cases (free_direct sb ndirect 0 (ip, d))) [
  | inl q ↦ let panic : itrunc sb ip d ≡ none = rw (q, itrunc) refl in absurd (cc (e, panic))
  | inr ((ip1, d1), q) ↦ elim (Option-cases (free_indirect sb (ip1, d1))) [
    | inl q' ↦ let panic : itrunc sb ip d ≡ none = rw (q, q', itrunc) refl in absurd (cc (e, panic))
    | inr ((ip2, d2), q') ↦
        let end : itrunc sb ip d ≡ some (emptied sb (ip2, d2)) = rw (q, q', itrunc) refl in
        let same : ip' ≡ (emptied sb (ip2, d2)).0 = cc (e, end) in
        let one = free_direct-Named sb ndirect 0 ip ip1 d d1 q in
        let two = free_indirect-Named sb ip1 ip2 d1 d2 q' in
        (ap (λ x. x.dev) same ∙ two.0 ∙ one.0, ap (λ x. x.inum) same ∙ two.1 ∙ one.1)
  ]
]

pub load-Named :
    (sb : Superblock) (ip ip' : Inode) (d : Blocks) → load sb ip d ≡ some ip' → Named ip ip'
unfolding load
load-Named sb ip ip' d e = elim (Bool-cases ip.valid) [
  | inl t ↦
      let kept : load sb ip d ≡ some ip = rw (t, load) refl in
      let same : ip' ≡ ip = cc (e, kept) in (ap (λ x. x.dev) same, ap (λ x. x.inum) same)
  | inr t ↦ elim (Bool-cases (half_at d (iblock sb ip.inum) (dinode_offset ip.inum) == 0)) [
    | inl z ↦ let panic : load sb ip d ≡ none = rw (t, z, load) refl in absurd (cc (e, panic))
    | inr z ↦
        let b = iblock sb ip.inum in
        let o = dinode_offset ip.inum in
        let read : Inode = record ip {
          valid = true;
          type = half_at d b o;
          major = half_at d b (o + 2);
          minor = half_at d b (o + 4);
          nlink = half_at d b (o + 6);
          size = word_at d b (o + 8);
          addrs = words_at 13 d b (o + 12);
        } in
        let done : load sb ip d ≡ some read = rw (t, z, load) refl in
        let same : ip' ≡ read = cc (e, done) in (ap (λ x. x.dev) same, ap (λ x. x.inum) same)
  ]
]
