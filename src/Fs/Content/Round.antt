-- ===== src/Fs/Content/Round.antt =====
-- One round of the loop of `store`.
use cse314_operating_system.Base.{
  ℕ, ◌+◌, ◌-◌, ◌*◌, ◌/◌, ◌%◌, ◌≤◌, ◌<◌, ◌≡◌, sym, ap, ◌∙◌, ◌≢◌, ◌⊎◌, inl, inr, ◌&&◌, Option, none,
  some, arith, dec_lt, ℕ_discrete, ltb, leb, ◌==◌, if◌then◌else◌,
}
use cse314_operating_system.Strings.{Bytes}
use cse314_operating_system.Fs.{Blocks, Superblock, bsize}
use cse314_operating_system.Fs.Bitmap.{in_use}
use cse314_operating_system.Fs.Inode.{Inode, maxfile}
use cse314_operating_system.Fs.Inode.Lookup.{indirect, lookup}
use cse314_operating_system.Fs.Inode.Owning.{Held}
use cse314_operating_system.Fs.Inode.Growing.{Owned, Mapped, free_count}
use cse314_operating_system.Fs.Content.{copy_in, chunk}
use cse314_operating_system.Fs.Content.View.{
  byte_at, byte_at-Mapped, free_count-filled, byte_at-filled, filled-away, in_use-filled,
  lookup-filled,
}

-- How many blocks `left` bytes from offset `off` on lie in
abbrev pub span : (off left : ℕ) → ℕ
span off left = if left == 0 then 0 else (off % bsize + left + (bsize - 1)) / bsize

pub span_round :
    (off left : ℕ)
    → 0 < left
    → span off left ≡ 1 + span (off + chunk left off) (left - chunk left off)
span_round off left pos = elim (dec_lt (bsize - off % bsize) left) [
  | Dec.yes more ↦
      let whole : chunk left off ≡ bsize - off % bsize = omega (arith, more) in
      rw whole (ground (arith, more, pos))
  | Dec.no last ↦
      let whole : chunk left off ≡ left = omega (arith, last) in
      rw whole (ground (arith, last, pos))
]

-- Where a block number of the range lies: at this round, or behind it
filled_next :
    (off left n l : ℕ)
    → 0 < left
    → (l ≢ 0) ⊎ ((0 < left) × (off / bsize ≤ n) × (n * bsize < off + left))
    → chunk left off ≤ left
    → (n ≡ off / bsize)
      ⊎ ((l ≢ 0)
          ⊎ ((0 < left - chunk left off)
              × ((off + chunk left off) / bsize ≤ n)
              × (n * bsize < off + chunk left off + (left - chunk left off))))
filled_next off left n l pos (inl old) h = inr (inl old)
filled_next off left n l pos (inr (_, lo, hi)) h = elim (ℕ_discrete n (off / bsize)) [
  | Dec.yes e ↦ inl e
  | Dec.no ne ↦ inr (inr (omega (arith, lo, ne, hi), omega (arith, lo, ne), omega (arith, hi, h)))
]

-- The bytes of a round and those of the rounds behind it
merge :
    (off left m src x v : ℕ) (mem : Bytes)
    → m ≤ left
    → off % bsize + m ≤ bsize
    → (if leb (off + m) x && ltb x (off + m + (left - m))
        then mem (src + m + (x - (off + m)))
        else if x / bsize == off / bsize
            && leb (off % bsize) (x % bsize)
            && ltb (x % bsize) (off % bsize + m)
        then mem (src + (x % bsize - off % bsize))
        else v)
      ≡ (if leb off x && ltb x (off + left) then mem (src + (x - off)) else v)
merge off left m src x v mem h k = elim (dec_lt x off) [
  | Dec.yes below ↦ ground (arith, below, h)
  | Dec.no above ↦ elim (dec_lt x (off + m)) [
    | Dec.yes now ↦ ground (arith, h, k, now, above)
    | Dec.no later ↦
        let at : src + m + (x - (off + m)) ≡ src + (x - off) = omega (arith, later) in
        rw at (ground (arith, h, k, later, above))
  ]
]

module _ (sb : Superblock) where
  -- A block in use that is not of the file
  pub record Foreign (ip : Inode) (d : Blocks) (b : ℕ) : Type 0 where
    pub held : Held sb (in_use sb d) b
    pub no_indirect : b ≢ indirect ip
    pub no_data : (n : ℕ) → n < maxfile → lookup ip d n ≢ b

  -- A block that `bmap` finds or makes is not foreign, and no foreign block changes.
  Foreign-Mapped :
      (c : ℕ) (ip ip' : Inode) (d d' : Blocks) (n a b : ℕ)
      → Owned sb ip d
      → Mapped sb c ip d n a ip' d'
      → n < maxfile
      → Foreign ip d b
      → Foreign ip' d' b × (a ≢ b) × ((j : ℕ) → d' b j ≡ d b j)
  Foreign-Mapped c ip ip' d d' n a b ok m small f =
      let ne : a ≢ b = elim (ℕ_discrete (lookup ip d n) 0) [
        | Dec.yes z ↦ λ e. cc (sym f.held.2 ∙ ap (in_use sb d) (sym e) ∙ m.fresh z)
        | Dec.no nz ↦ λ e. f.no_data n small (sym (m.same nz) ∙ e)
      ] in
      let foreign : Foreign ip' d' b = record {
        held = (f.held.0, f.held.1, m.grown.kept b f.held.1 f.held.2);
        no_indirect = λ e. elim m.grown.ind_from [
          | inl same ↦ f.no_indirect (e ∙ same)
          | inr (_, free) ↦ cc (sym f.held.2 ∙ ap (in_use sb d) e ∙ free)
        ];
        no_data = λ k h e. elim (ℕ_discrete k n) [
          | Dec.yes same ↦ ne (sym m.found ∙ ap (lookup ip' d') (sym same) ∙ e)
          | Dec.no other ↦ f.no_data k h (sym (m.others k h other) ∙ e)
        ];
      } in
      (foreign, ne, λ j. m.grown.frame b j f.held f.no_indirect)

  Foreign-filled :
      (ip : Inode) (d : Blocks) (ok : Owned sb ip d) (n a b : ℕ) (small : n < maxfile)
      (here : lookup ip d n ≡ a) (there : a ≢ 0) (o src m : ℕ) (mem : Bytes)
      → Foreign ip d b
      → Foreign ip (copy_in d a o src m mem) b
  Foreign-filled ip d ok n a b small here there o src m mem f = record {
    held = (
      f.held.0,
      f.held.1,
      in_use-filled sb ip d ok n a small here there o src m mem b (omega (arith, f.held))
          ∙ f.held.2,
    );
    no_indirect = f.no_indirect;
    no_data = λ k h e.
        f.no_data k h (sym (lookup-filled sb ip d ok n a small here there o src m mem k) ∙ e);
  }

  -- What the loop of `store` leaves behind. It can panic only when the disk has fewer free blocks than twice the
  -- blocks that the bytes lie in; else the bytes are in the file, and every other byte of the file and every
  -- block of another file is as before.
  pub record Wrote (ip : Inode) (d : Blocks) (off left src : ℕ) (mem : Bytes) (ip' : Inode)
      (d' : Blocks) : Type 0 where
    pub owned : Owned sb ip' d'
    pub rest : ip' ≡ record ip { addrs = ip'.addrs }
    pub bytes :
        (x : ℕ)
        → x < maxfile * bsize
        → byte_at ip' d' x
          ≡ (if leb off x && ltb x (off + left) then mem (src + (x - off)) else byte_at ip d x)
    pub filled :
        (n : ℕ)
        → n < maxfile
        → (lookup ip d n ≢ 0) ⊎ ((0 < left) × (off / bsize ≤ n) × (n * bsize < off + left))
        → lookup ip' d' n ≢ 0
    pub spent : free_count sb d ≤ free_count sb d' + 2 * span off left
    pub foreign : (b : ℕ) → Foreign ip d b → Foreign ip' d' b × ((j : ℕ) → d' b j ≡ d b j)

  abbrev pub Written :
      (ip : Inode) (d : Blocks) (off left src : ℕ) (mem : Bytes) → Option (Inode × Blocks) → Type 0
  Written ip d off left src mem none = free_count sb d < 2 * span off left
  Written ip d off left src mem (some (ip', d')) = Wrote ip d off left src mem ip' d'

  -- A block number that has a block keeps one.
  Mapped-stays :
      (c : ℕ) (ip ip' : Inode) (d d' : Blocks) (n a k : ℕ)
      → Mapped sb c ip d n a ip' d'
      → k < maxfile
      → lookup ip d k ≢ 0
      → lookup ip' d' k ≢ 0
  Mapped-stays c ip ip' d d' n a k m h old z = elim (ℕ_discrete k n) [
    | Dec.yes e ↦ m.there (sym m.found ∙ ap (lookup ip' d') (sym e) ∙ z)
    | Dec.no ne ↦ old (sym (m.others k h ne) ∙ z)
  ]

  -- One round, and the rounds behind it
  pub Wrote-round :
      (off left src a : ℕ) (mem : Bytes) (ip ip' ip2 : Inode) (d d' d2 : Blocks)
      → Owned sb ip d
      → 0 < left
      → off + left ≤ maxfile * bsize
      → Mapped sb 2 ip d (off / bsize) a ip' d'
      → Wrote ip'
          (copy_in d' a (off % bsize) src (chunk left off) mem)
          (off + chunk left off)
          (left - chunk left off)
          (src + chunk left off)
          mem
          ip2
          d2
      → Wrote ip d off left src mem ip2 d2
  Wrote-round off left src a mem ip ip' ip2 d d' d2 ok pos fits m w =
      let n = off / bsize in
      let o = off % bsize in
      let c = chunk left off in
      let small : n < maxfile = omega (arith, pos, fits) in
      let done : Blocks = copy_in d' a o src c mem in
      record {
        owned = w.owned;
        rest = w.rest ∙ ap (λ (x : Inode). record x { addrs = ip2.addrs }) m.grown.rest;
        bytes = λ x h.
            w.bytes x h
            ∙ ap
                (λ v.
                  if leb (off + c) x && ltb x (off + c + (left - c))
                  then mem (src + c + (x - (off + c)))
                  else v)
                (byte_at-filled sb ip' d' m.grown.owned n a small m.found m.there o src c mem x h
                  ∙ ap
                      (λ v.
                        if x / bsize == n && leb o (x % bsize) && ltb (x % bsize) (o + c)
                        then mem (src + (x % bsize - o))
                        else v)
                      (byte_at-Mapped sb 2 ip ip' d d' n a x ok m h))
            ∙ merge off left c src x (byte_at ip d x) mem (omega arith) (omega arith);
        filled = λ k h why.
            w.filled k h (elim (filled_next off left k (lookup ip d k) pos why (omega arith)) [
              | inl here ↦ inl (λ z. m.there (
                  sym m.found
                  ∙ ap (lookup ip' d') (sym here)
                  ∙ sym (
                      lookup-filled sb ip' d' m.grown.owned n a small m.found m.there o src c mem k)
                  ∙ z))
              | inr (inl old) ↦ inl (λ z. Mapped-stays 2 ip ip' d d' n a k m h old (
                  sym
                    (lookup-filled sb ip' d' m.grown.owned n a small m.found m.there o src c mem k)
                  ∙ z))
              | inr (inr later) ↦ inr later
            ]);
        spent = omega (
          arith,
          m.grown.spent,
          free_count-filled sb ip' d' m.grown.owned n a small m.found m.there o src c mem,
          w.spent,
          span_round off left pos,
        );
        foreign = λ b f.
            let (g, ne, same) = Foreign-Mapped 2 ip ip' d d' n a b ok m small f in
            let (f2, same2) =
              w.foreign b
                (Foreign-filled ip' d' m.grown.owned n a b small m.found m.there o src c mem g) in
            (
              f2,
              λ j.
                  same2 j
                  ∙ filled-away sb ip' d' m.grown.owned n a small m.found m.there o src c mem b j
                      (λ e. ne (sym e))
                  ∙ same j,
            );
      }
