-- ===== src/Fs/Inode/Update.antt =====
-- `iupdate` writes the one inode, and `ilock` reads it back.
use cse314_operating_system.Base.{
  ℕ, ◌+◌, ◌*◌, ◌/◌, ◌%◌, ◌^◌, ◌≤◌, ◌<◌, ◌≡◌, refl, sym, ap, ap₂, ◌∙◌, ◌≢◌, ◌⊎◌, inl, inr, true,
  false, none, some, List, [], ◌∷◌, arith, ◌==◌, if◌then◌else◌, length, All,
}
use cse314_operating_system.Base.{has_bit}
use cse314_operating_system.Fs.{Blocks, Superblock, bblock, bpb}
use cse314_operating_system.Fs.Bitmap.{in_use}
use cse314_operating_system.Fs.Inode.{
  Inode, put_half, put_word, put_words, words_at, word_at, half_at, iblock, dinode_offset, iupdate,
  load,
}
use cse314_operating_system.Fs.Inode.Lookup.{
  indirect, lookup, lookup-frame, put_word-away, word_at-put_word, word_at-frame,
}
use cse314_operating_system.Fs.Inode.Owning.{Tree-same}
use cse314_operating_system.Fs.Inode.Growing.{Owned}

pub put_half-away :
    (d : Blocks) (b i v x j : ℕ) → (x ≢ b) ⊎ ((j < i) ⊎ (i + 2 ≤ j)) → put_half d b i v x j ≡ d x j
unfolding put_half
put_half-away d b i v x j away = ground (arith, away)

pub put_words-away :
    (ws : List ℕ) (d : Blocks) (b i x j : ℕ)
    → (x ≢ b) ⊎ ((j < i) ⊎ (i + 4 * length ws ≤ j))
    → put_words ws d b i x j ≡ d x j
unfolding put_words
put_words-away [] d b i x j away = refl
put_words-away (w ∷ ws) d b i x j away =
    put_words-away ws (put_word d b i w) b (i + 4) x j (ground (arith, away))
    ∙ put_word-away d b i w x j (ground (arith, away))

-- The stages of `iupdate`: the block with the halves of the inode, and with its size
abbrev halves : (ip : Inode) (d : Blocks) (b o : ℕ) → Blocks
halves ip d b o =
    put_half (put_half (put_half (put_half d b o ip.type) b (o + 2) ip.major) b (o + 4) ip.minor) b
      (o + 6) ip.nlink

halves-away :
    (ip : Inode) (d : Blocks) (b o x j : ℕ)
    → (x ≢ b) ⊎ ((j < o) ⊎ (o + 8 ≤ j))
    → halves ip d b o x j ≡ d x j
halves-away ip d b o x j away =
    put_half-away _ b (o + 6) ip.nlink x j (ground (arith, away))
    ∙ put_half-away _ b (o + 4) ip.minor x j (ground (arith, away))
    ∙ put_half-away _ b (o + 2) ip.major x j (ground (arith, away))
    ∙ put_half-away d b o ip.type x j (ground (arith, away))

abbrev with_size : (ip : Inode) (d : Blocks) (b o : ℕ) → Blocks
with_size ip d b o = put_word (halves ip d b o) b (o + 8) ip.size

-- Only the place of the inode in its block changes.
pub iupdate-away :
    (sb : Superblock) (ip : Inode) (d : Blocks) (x j : ℕ)
    → (x ≢ iblock sb ip.inum)
      ⊎ ((j < dinode_offset ip.inum) ⊎ (dinode_offset ip.inum + (12 + 4 * length ip.addrs) ≤ j))
    → iupdate sb ip d x j ≡ d x j
unfolding iupdate
iupdate-away sb ip d x j away =
    let b = iblock sb ip.inum in
    let o = dinode_offset ip.inum in
    put_words-away ip.addrs (with_size ip d b o) b (o + 12) x j (ground (arith, away))
    ∙ put_word-away (halves ip d b o) b (o + 8) ip.size x j (ground (arith, away))
    ∙ halves-away ip d b o x j (ground (arith, away))

pub half_at-put_half : (d : Blocks) (b i v : ℕ) → v < 2 ^ 16 → half_at (put_half d b i v) b i ≡ v
unfolding put_half
half_at-put_half d b i v h = ground (arith, h)

half_at-frame :
    (d d' : Blocks) (b i : ℕ)
    → ((j : ℕ) → i ≤ j → j < i + 2 → d' b j ≡ d b j)
    → half_at d' b i ≡ half_at d b i
half_at-frame d d' b i same =
    omega (arith, same i (omega arith) (omega arith), same (i + 1) (omega arith) (omega arith))

words_at-put_words :
    (ws : List ℕ) (d : Blocks) (b i : ℕ)
    → All (λ w. w < 2 ^ 32) ws
    → words_at (length ws) (put_words ws d b i) b i ≡ ws
unfolding put_words words_at
words_at-put_words [] d b i fits = refl
words_at-put_words (w ∷ ws) d b i (fit, fits) =
    ap₂ ◌∷◌
      (word_at-frame (put_word d b i w) (put_words ws (put_word d b i w) b (i + 4)) b i
          (λ j lo hi. put_words-away ws (put_word d b i w) b (i + 4) b j (inr (inl hi)))
        ∙ word_at-put_word d b i w fit)
      (words_at-put_words ws (put_word d b i w) b (i + 4) fits)

-- The fields of an inode fit in their places on disk, and it is in use.
pub record Fits (ip : Inode) : Type 0 where
  pub type_fits : ip.type < 2 ^ 16
  pub type_used : ip.type ≢ 0
  pub major_fits : ip.major < 2 ^ 16
  pub minor_fits : ip.minor < 2 ^ 16
  pub nlink_fits : ip.nlink < 2 ^ 16
  pub size_fits : ip.size < 2 ^ 32
  pub slots : length ip.addrs ≡ 13
  pub addrs_fit : All (λ w. w < 2 ^ 32) ip.addrs

-- What stands before the addresses is not changed by them.
iupdate-halves :
    (sb : Superblock) (ip : Inode) (d : Blocks) (i : ℕ)
    → i + 2 ≤ dinode_offset ip.inum + 8
    → half_at (iupdate sb ip d) (iblock sb ip.inum) i
      ≡ half_at (halves ip d (iblock sb ip.inum) (dinode_offset ip.inum)) (iblock sb ip.inum) i
unfolding iupdate
iupdate-halves sb ip d i h =
    let b = iblock sb ip.inum in
    let o = dinode_offset ip.inum in
    half_at-frame (halves ip d b o) (iupdate sb ip d) b i λ j lo hi.
      put_words-away ip.addrs (with_size ip d b o) b (o + 12) b j (inr (inl (omega (arith, h, hi))))
      ∙ put_word-away (halves ip d b o) b (o + 8) ip.size b j (inr (inl (omega (arith, h, hi))))

-- The type on disk, which tells whether the inode is in use
pub iupdate-type :
    (sb : Superblock) (ip : Inode) (d : Blocks)
    → ip.type < 2 ^ 16
    → half_at (iupdate sb ip d) (iblock sb ip.inum) (dinode_offset ip.inum) ≡ ip.type
iupdate-type sb ip d fits =
    let b = iblock sb ip.inum in
    let o = dinode_offset ip.inum in
    iupdate-halves sb ip d o (omega arith)
    ∙ half_at-frame (put_half d b o ip.type) (halves ip d b o) b o (λ j lo hi.
      put_half-away _ b (o + 6) ip.nlink b j (inr (inl (omega (arith, hi))))
      ∙ put_half-away _ b (o + 4) ip.minor b j (inr (inl (omega (arith, hi))))
      ∙ put_half-away _ b (o + 2) ip.major b j (inr (inl (omega (arith, hi)))))
    ∙ half_at-put_half d b o ip.type fits

module _ (sb : Superblock) (ip : Inode) (d : Blocks) (fits : Fits ip) where
  abbrev b : ℕ
  b = iblock sb ip.inum

  abbrev o : ℕ
  o = dinode_offset ip.inum

  abbrev done : Blocks
  done = iupdate sb ip d

  done-halves : (i : ℕ) → i + 2 ≤ o + 8 → half_at done b i ≡ half_at (halves ip d b o) b i
  done-halves i h = iupdate-halves sb ip d i h

  read_type : half_at done b o ≡ ip.type
  read_type = iupdate-type sb ip d fits.type_fits

  read_major : half_at done b (o + 2) ≡ ip.major
  read_major =
      let typed : Blocks = put_half d b o ip.type in
      done-halves (o + 2) (omega arith)
      ∙ half_at-frame (put_half typed b (o + 2) ip.major) (halves ip d b o) b (o + 2) (λ j lo hi.
        put_half-away _ b (o + 6) ip.nlink b j (inr (inl (omega (arith, hi))))
        ∙ put_half-away _ b (o + 4) ip.minor b j (inr (inl (omega (arith, hi)))))
      ∙ half_at-put_half typed b (o + 2) ip.major fits.major_fits

  read_minor : half_at done b (o + 4) ≡ ip.minor
  read_minor =
      let typed : Blocks = put_half (put_half d b o ip.type) b (o + 2) ip.major in
      done-halves (o + 4) (omega arith)
      ∙ half_at-frame (put_half typed b (o + 4) ip.minor) (halves ip d b o) b (o + 4)
          (λ j lo hi. put_half-away _ b (o + 6) ip.nlink b j (inr (inl (omega (arith, hi)))))
      ∙ half_at-put_half typed b (o + 4) ip.minor fits.minor_fits

  read_nlink : half_at done b (o + 6) ≡ ip.nlink
  read_nlink =
      done-halves (o + 6) (omega arith)
      ∙ half_at-put_half
          (put_half (put_half (put_half d b o ip.type) b (o + 2) ip.major) b (o + 4) ip.minor) b
          (o + 6) ip.nlink fits.nlink_fits

  read_size : word_at done b (o + 8) ≡ ip.size
  unfolding iupdate
  read_size =
      word_at-frame (with_size ip d b o) done b (o + 8) (λ j lo hi.
        put_words-away ip.addrs (with_size ip d b o) b (o + 12) b j (inr (inl (omega (arith, hi)))))
      ∙ word_at-put_word (halves ip d b o) b (o + 8) ip.size fits.size_fits

  read_addrs : words_at 13 done b (o + 12) ≡ ip.addrs
  unfolding iupdate
  read_addrs =
      ap (λ n. words_at n done b (o + 12)) (sym fits.slots)
      ∙ words_at-put_words ip.addrs (with_size ip d b o) b (o + 12) fits.addrs_fit

  -- An inode whose fields fit is written by `iupdate` and read back by `ilock` unchanged, into a cache entry that
  -- has its number and was not valid.
  load-iupdate :
      (cached : Inode)
      → cached.dev ≡ ip.dev
      → cached.inum ≡ ip.inum
      → cached.valid ≡ false
      → load sb cached done ≡ some (record ip { valid = true })
  unfolding load
  load-iupdate cached same_dev same_inum stale =
      let used : (ip.type == 0) ≡ false = ground (arith, fits.type_used) in
      let half : (k v : ℕ)
          → half_at done b (o + k) ≡ v
          → half_at done (iblock sb cached.inum) (dinode_offset cached.inum + k) ≡ v =
        λ k v e. ap (λ n. half_at done (iblock sb n) (dinode_offset n + k)) same_inum ∙ e in
      let type_path : half_at done (iblock sb cached.inum) (dinode_offset cached.inum) ≡ ip.type =
        ap (λ n. half_at done (iblock sb n) (dinode_offset n)) same_inum ∙ read_type in
      let major_path = half 2 ip.major read_major in
      let minor_path = half 4 ip.minor read_minor in
      let nlink_path = half 6 ip.nlink read_nlink in
      let size_path : word_at done (iblock sb cached.inum) (dinode_offset cached.inum + 8)
          ≡ ip.size =
        ap (λ n. word_at done (iblock sb n) (dinode_offset n + 8)) same_inum ∙ read_size in
      let addrs_path : words_at 13 done (iblock sb cached.inum) (dinode_offset cached.inum + 12)
          ≡ ip.addrs =
        ap (λ n. words_at 13 done (iblock sb n) (dinode_offset n + 12)) same_inum ∙ read_addrs in
      (λ i.
        if stale i
        then some cached
        else if type_path i == 0
        then none
        else some (record {
          dev = same_dev i;
          inum = same_inum i;
          valid = true;
          type = type_path i;
          major = major_path i;
          minor = minor_path i;
          nlink = nlink_path i;
          size = size_path i;
          addrs = addrs_path i;
        }))
      ∙ rw used refl

module _ (sb : Superblock) (ip : Inode) (d : Blocks) (ok : Owned sb ip d)
    (number : ip.inum < sb.ninodes) where
  -- A block from the bitmap on is not changed by `iupdate`.
  pub iupdate-behind : (x j : ℕ) → sb.bmapstart ≤ x → iupdate sb ip d x j ≡ d x j
  iupdate-behind x j h =
      iupdate-away sb ip d x j (inl (omega (arith, number, h, ok.formatted.inodes_first)))

  pub in_use-iupdate : (x : ℕ) → in_use sb (iupdate sb ip d) x ≡ in_use sb d x
  in_use-iupdate x =
      ap (λ byte. has_bit byte (2 ^ (x % bpb % 8)))
        (iupdate-behind (bblock sb x) (x % bpb / 8) (omega arith))

  pub lookup-iupdate : (n : ℕ) → lookup ip (iupdate sb ip d) n ≡ lookup ip d n
  lookup-iupdate n =
      lookup-frame ip d (iupdate sb ip d) n
        λ listed j. iupdate-behind (indirect ip) j (omega (arith, ok.tree.held_ind listed))

  pub Owned-iupdate : Owned sb ip (iupdate sb ip d)
  Owned-iupdate = record {
    formatted = record {
      room = ok.formatted.room;
      inodes_first = ok.formatted.inodes_first;
      meta_used = λ b h. in_use-iupdate b ∙ ok.formatted.meta_used b h;
    };
    words_fit = ok.words_fit;
    slots = ok.slots;
    tree =
        Tree-same sb (in_use sb d) (in_use sb (iupdate sb ip d)) (lookup ip d)
          (lookup ip (iupdate sb ip d)) (indirect ip) (λ x _. in_use-iupdate x) lookup-iupdate
          ok.tree;
  }
