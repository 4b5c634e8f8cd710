-- ===== src/Fs/Alloc.antt =====
-- `balloc` and `bfree` on a formatted disk: the set of blocks in use, and the contents of the others.
use cse314_operating_system.Base.{
  ℕ, ◌+◌, ◌-◌, ◌*◌, ◌/◌, ◌%◌, ◌^◌, ◌≤◌, ◌<◌, ◌≡◌, refl, sym, ap, ap₂, subst, ◌∙◌, ◌≢◌, inl, inr,
  Bool, true, false, not, ◌&&◌, ◌||◌, Option, none, some, arith, dec_lt, ◌==◌, if◌then◌else◌,
  Bool-cases, Option-cases,
}
use cse314_operating_system.Base.{has_bit, set_bit, clear_bit}
use cse314_operating_system.Fs.{
  Blocks, Superblock, bpb, bblock, put_byte, bzero, find_free_from, mark_used, balloc, bfree,
}
use cse314_operating_system.Fs.Bits.{has_bit-set_bit, has_bit-clear_bit}
use cse314_operating_system.Fs.Bitmap.{in_use, FirstFree, find_free_from_lem}

-- The first block behind the bitmap, as mkfs lays the disk out
abbrev pub nmeta : Superblock → ℕ
nmeta sb = sb.bmapstart + sb.size / bpb + 1

-- The layout, with the inode blocks before the bitmap, and all blocks up to the end of the bitmap marked as in use
pub record Formatted (sb : Superblock) (d : Blocks) : Type 0 where
  pub room : nmeta sb ≤ sb.size
  pub inodes_first : sb.inodestart + sb.ninodes / 8 < sb.bmapstart
  pub meta_used : (b : ℕ) → b < nmeta sb → in_use sb d b ≡ true

or-if : (t h : Bool) → (t || h) ≡ (if t then true else h)
or-if true h = refl
or-if false h = refl

and_not-if : (t h : Bool) → (not t && h) ≡ (if t then false else h)
and_not-if true h = refl
and_not-if false h = refl

module _ (sb : Superblock) (d : Blocks) (b x : ℕ) where
  abbrev byte_of_bit : ℕ
  byte_of_bit = d (bblock sb b) (b % bpb / 8)

  -- Writing the byte with the bit of `b`: what the bit of `x` is after it
  in_use-put_byte :
      (v : ℕ) (c : Bool)
      → (has_bit v (2 ^ (x % bpb % 8))
          ≡ (if x % bpb % 8 == b % bpb % 8 then c else has_bit byte_of_bit (2 ^ (x % bpb % 8))))
      → in_use sb (put_byte d (bblock sb b) (b % bpb / 8) v) x
        ≡ (if x == b then c else in_use sb d x)
  in_use-put_byte v c bit =
      elim (Bool-cases (bblock sb x == bblock sb b && x % bpb / 8 == b % bpb / 8)) [
        | inr away ↦ let ne : (x == b) ≡ false = ground (arith, away) in rw (away, ne) refl
        | inl here ↦
            let block : bblock sb x ≡ bblock sb b = ground (arith, here) in
            let byte : x % bpb / 8 ≡ b % bpb / 8 = ground (arith, here) in
            let bit_eq : (x % bpb % 8 == b % bpb % 8) ≡ (x == b) = ground (arith, block, byte) in
            let old : byte_of_bit ≡ d (bblock sb x) (x % bpb / 8) = ap₂ d (sym block) (sym byte) in
            rw here (bit ∙ (λ i. if bit_eq i then c else has_bit (old i) (2 ^ (x % bpb % 8))))
      ]

  in_use-mark_used : in_use sb (mark_used sb d b) x ≡ (x == b || in_use sb d x)
  unfolding mark_used
  in_use-mark_used =
      in_use-put_byte (set_bit byte_of_bit (2 ^ (b % bpb % 8))) true (
        has_bit-set_bit byte_of_bit (b % bpb % 8) (x % bpb % 8)
        ∙ or-if (x % bpb % 8 == b % bpb % 8) (has_bit byte_of_bit (2 ^ (x % bpb % 8))))
      ∙ sym (or-if (x == b) (in_use sb d x))

  in_use-unmark :
      in_use sb
        (put_byte d (bblock sb b) (b % bpb / 8) (clear_bit byte_of_bit (2 ^ (b % bpb % 8))))
        x
      ≡ (not (x == b) && in_use sb d x)
  in_use-unmark =
      in_use-put_byte (clear_bit byte_of_bit (2 ^ (b % bpb % 8))) false (
        has_bit-clear_bit byte_of_bit (b % bpb % 8) (x % bpb % 8)
        ∙ and_not-if (x % bpb % 8 == b % bpb % 8) (has_bit byte_of_bit (2 ^ (x % bpb % 8))))
      ∙ sym (and_not-if (x == b) (in_use sb d x))

module _ (sb : Superblock) where
  in_use-bzero :
      (d : Blocks) (r x : ℕ) → nmeta sb ≤ r → x ≤ sb.size → in_use sb (bzero d r) x ≡ in_use sb d x
  unfolding bzero
  in_use-bzero d r x h k = ap (λ byte. has_bit byte (2 ^ (x % bpb % 8))) (ground (arith, h, k))

  -- The outcome of `balloc`
  abbrev pub Allocated : Blocks → Option (ℕ × Blocks) → Type 0
  Allocated d none = (x : ℕ) → x < sb.size → in_use sb d x ≡ true
  Allocated d (some (r, d')) =
      (nmeta sb ≤ r)
      × (r < sb.size)
      × (in_use sb d r ≡ false)
      × ((x : ℕ) → x < r → in_use sb d x ≡ true)
      × ((x : ℕ) → x ≤ sb.size → in_use sb d' x ≡ (x == r || in_use sb d x))
      × ((j : ℕ) → d' r j ≡ 0)
      × ((b j : ℕ) → nmeta sb ≤ b → b ≢ r → d' b j ≡ d b j)

  mark_used-away :
      (d : Blocks) (r b j : ℕ) → r < sb.size → nmeta sb ≤ b → mark_used sb d r b j ≡ d b j
  unfolding mark_used
  mark_used-away d r b j h k = ground (arith, h, k)

  -- On a formatted disk `balloc` panics only with no block free. Else it takes the first free block, which is behind
  -- the bitmap, marks that one block in the bitmap, leaves it zeroed, and changes no other block behind the bitmap.
  pub balloc-Allocated : (d : Blocks) → Formatted sb d → Allocated d (balloc sb d)
  unfolding balloc bzero
  balloc-Allocated d ok =
      let found = find_free_from_lem sb d ((sb.size + (bpb - 1)) / bpb) 0 refl in
      elim (Option-cases (find_free_from sb d ((sb.size + (bpb - 1)) / bpb) 0)) [
        | inl e ↦
            let full = subst (FirstFree sb d 0 (0 + (sb.size + (bpb - 1)) / bpb * bpb)) e found in
            rw (e, balloc) (λ x h. full x (omega arith) (omega (arith, h)) h)
        | inr (r, e) ↦
            let (_, _, small, free, least) =
              subst (FirstFree sb d 0 (0 + (sb.size + (bpb - 1)) / bpb * bpb)) e found in
            let behind : nmeta sb ≤ r = elim (dec_lt r (nmeta sb)) [
              | Dec.yes k ↦ absurd (cc (sym free ∙ ok.meta_used r k))
              | Dec.no k ↦ omega (arith, k)
            ] in
            rw (e, balloc)
              (
                behind,
                small,
                free,
                λ x h. least x (omega arith) h,
                λ x h. in_use-bzero (mark_used sb d r) r x behind h ∙ in_use-mark_used sb d r x,
                λ j. ground arith,
                λ b j h ne. ground (arith, ne, mark_used-away d r b j small h),
              )
      ]

  -- What `bfree` does. It panics when the block is free; else the one block is no longer in use, and no block
  -- behind the bitmap changes.
  abbrev pub Released : Blocks → (b : ℕ) → Option Blocks → Type 0
  Released d b none = in_use sb d b ≡ false
  Released d b (some d') =
      (in_use sb d b ≡ true)
      × ((x : ℕ) → in_use sb d' x ≡ (not (x == b) && in_use sb d x))
      × ((x j : ℕ) → nmeta sb ≤ x → d' x j ≡ d x j)

  abbrev unmarked : Blocks → (b : ℕ) → Blocks
  unmarked d b =
      put_byte d (bblock sb b) (b % bpb / 8)
        (clear_bit (d (bblock sb b) (b % bpb / 8)) (2 ^ (b % bpb % 8)))

  unmarked-Released :
      (d : Blocks) (b : ℕ) (c : Bool)
      → b < sb.size
      → in_use sb d b ≡ c
      → Released d b (if c then some (unmarked d b) else none)
  unmarked-Released d b false h free = free
  unmarked-Released d b true h used =
      (used, λ x. in_use-unmark sb d b x, λ x j k. ground (arith, k, h))

  pub bfree-Released : (d : Blocks) (b : ℕ) → b < sb.size → Released d b (bfree sb d b)
  unfolding bfree
  bfree-Released d b h = unmarked-Released d b (in_use sb d b) h refl
