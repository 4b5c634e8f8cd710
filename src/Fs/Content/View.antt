-- ===== src/Fs/Content/View.antt =====
-- A file as the bytes at its offsets: what `bmap` and one copy do to them.
use cse314_operating_system.Base.{
  ℕ, ◌+◌, ◌-◌, ◌*◌, ◌/◌, ◌%◌, ◌^◌, ◌≤◌, ◌<◌, ◌≡◌, refl, sym, ap, subst, ◌∙◌, ◌≢◌, false, ◌&&◌,
  arith, ℕ_discrete, ltb, leb, ◌==◌, if◌then◌else◌,
}
use cse314_operating_system.Base.{has_bit}
use cse314_operating_system.Strings.{Bytes}
use cse314_operating_system.Fs.{Blocks, Superblock, bsize, bblock, bpb}
use cse314_operating_system.Fs.Bitmap.{in_use}
use cse314_operating_system.Fs.Inode.{Inode, maxfile}
use cse314_operating_system.Fs.Inode.Lookup.{indirect, lookup, lookup-frame}
use cse314_operating_system.Fs.Inode.Owning.{Held, Tree-same, free_among-cong}
use cse314_operating_system.Fs.Inode.Growing.{Owned, Grown, Mapped, free_count}
use cse314_operating_system.Fs.Content.{copy_in}

-- The byte of a file at an offset; a block that it does not have reads as zeros.
abbrev pub byte_at : Inode → Blocks → (off : ℕ) → ℕ
byte_at ip d off =
    if lookup ip d (off / bsize) == 0 then 0 else d (lookup ip d (off / bsize)) (off % bsize)

pub byte_at-none :
    (ip : Inode) (d : Blocks) (off : ℕ) → lookup ip d (off / bsize) ≡ 0 → byte_at ip d off ≡ 0
byte_at-none ip d off e = rw e refl

pub byte_at-there :
    (ip : Inode) (d : Blocks) (off a : ℕ)
    → lookup ip d (off / bsize) ≡ a
    → a ≢ 0
    → byte_at ip d off ≡ d a (off % bsize)
byte_at-there ip d off a e ne = let t : (a == 0) ≡ false = ground (arith, ne) in rw (e, t) refl

module _ (sb : Superblock) where
  byte_at-kept :
      (c : ℕ) (ip ip' : Inode) (d d' : Blocks) (off : ℕ)
      → Owned sb ip d
      → Grown sb c ip d ip' d'
      → off < maxfile * bsize
      → lookup ip' d' (off / bsize) ≡ lookup ip d (off / bsize)
      → byte_at ip' d' off ≡ byte_at ip d off
  byte_at-kept c ip ip' d d' off ok g small same =
      let k = off / bsize in
      elim (ℕ_discrete (lookup ip d k) 0) [
        | Dec.yes z ↦ byte_at-none ip' d' off (same ∙ z) ∙ sym (byte_at-none ip d off z)
        | Dec.no nz ↦
            byte_at-there ip' d' off (lookup ip d k) same nz
            ∙ g.frame (lookup ip d k) (off % bsize) (ok.tree.held k (omega (arith, small)) nz)
                (ok.tree.apart k (omega (arith, small)) nz)
            ∙ sym (byte_at-there ip d off (lookup ip d k) refl nz)
      ]

  -- A block found or made by `bmap` changes no byte of the file.
  pub byte_at-Mapped :
      (c : ℕ) (ip ip' : Inode) (d d' : Blocks) (n a off : ℕ)
      → Owned sb ip d
      → Mapped sb c ip d n a ip' d'
      → off < maxfile * bsize
      → byte_at ip' d' off ≡ byte_at ip d off
  byte_at-Mapped c ip ip' d d' n a off ok m small =
      let k = off / bsize in
      elim (ℕ_discrete k n) [
        | Dec.yes e ↦
            let found : lookup ip' d' k ≡ a = ap (lookup ip' d') e ∙ m.found in
            elim (ℕ_discrete (lookup ip d k) 0) [
              | Dec.yes z ↦
                  byte_at-there ip' d' off a found m.there
                  ∙ m.blank (sym (ap (lookup ip d) e) ∙ z) (off % bsize)
                  ∙ sym (byte_at-none ip d off z)
              | Dec.no nz ↦
                  byte_at-kept c ip ip' d d' off ok m.grown small
                    (found ∙ m.same (λ z. nz (ap (lookup ip d) e ∙ z)) ∙ sym (ap (lookup ip d) e))
            ]
        | Dec.no ne ↦
            byte_at-kept c ip ip' d d' off ok m.grown small (m.others k (omega (arith, small)) ne)
      ]

  module _ (ip : Inode) (d : Blocks) (ok : Owned sb ip d) (n a : ℕ) (small : n < maxfile)
      (here : lookup ip d n ≡ a) (there : a ≢ 0) (o src m : ℕ) (mem : Bytes) where
    abbrev filled : Blocks
    filled = copy_in d a o src m mem

    held : Held sb (in_use sb d) a
    held = subst (Held sb (in_use sb d)) here (ok.tree.held n small (λ z. there (sym here ∙ z)))

    pub filled-away : (b j : ℕ) → b ≢ a → filled b j ≡ d b j
    filled-away b j ne = ground (arith, ne)

    pub in_use-filled : (x : ℕ) → x ≤ sb.size → in_use sb filled x ≡ in_use sb d x
    in_use-filled x h =
        ap (λ byte. has_bit byte (2 ^ (x % bpb % 8)))
          (filled-away (bblock sb x) (x % bpb / 8) (omega (arith, held, h)))

    pub lookup-filled : (k : ℕ) → lookup ip filled k ≡ lookup ip d k
    lookup-filled k = lookup-frame ip d filled k λ listed j.
        filled-away (indirect ip) j
          λ e. ok.tree.apart n small (λ z. there (sym here ∙ z)) (here ∙ sym e)

    -- A copy into a block of the file keeps it well-formed.
    pub Owned-filled : Owned sb ip filled
    Owned-filled = record {
      formatted = record {
        room = ok.formatted.room;
        inodes_first = ok.formatted.inodes_first;
        meta_used = λ b h.
            in_use-filled b (omega (arith, h, ok.formatted.room)) ∙ ok.formatted.meta_used b h;
      };
      words_fit = ok.words_fit;
      slots = ok.slots;
      tree =
          Tree-same sb (in_use sb d) (in_use sb filled) (lookup ip d) (lookup ip filled)
            (indirect ip) in_use-filled lookup-filled ok.tree;
    }

    pub free_count-filled : free_count sb filled ≡ free_count sb d
    free_count-filled =
        free_among-cong (in_use sb d) (in_use sb filled) sb.size
          (λ x h. in_use-filled x (omega (arith, h)))

    -- It changes the bytes of the file at its place, and no other.
    pub byte_at-filled :
        (off : ℕ)
        → off < maxfile * bsize
        → byte_at ip filled off ≡ (
            if off / bsize == n && leb o (off % bsize) && ltb (off % bsize) (o + m)
            then mem (src + (off % bsize - o))
            else byte_at ip d off)
    byte_at-filled off h =
        let k = off / bsize in
        elim (ℕ_discrete k n) [
          | Dec.yes e ↦
              let at : lookup ip d k ≡ a = ap (lookup ip d) e ∙ here in
              byte_at-there ip filled off a (lookup-filled k ∙ at) there
              ∙ copied k (off % bsize) e
              ∙ ap
                  (λ v.
                    if k == n && leb o (off % bsize) && ltb (off % bsize) (o + m)
                    then mem (src + (off % bsize - o))
                    else v)
                  (sym (byte_at-there ip d off a at there))
          | Dec.no ne ↦
              elsewhere off (ℕ_discrete (lookup ip d k) 0)
                (λ nz e. ne (ok.tree.distinct k n (omega (arith, h)) small nz (e ∙ sym here)))
              ∙ sym (aside k (off % bsize) (byte_at ip d off) ne)
        ]
      where
        copied :
            (k j : ℕ)
            → k ≡ n
            → filled a j
              ≡ (if k == n && leb o j && ltb j (o + m) then mem (src + (j - o)) else d a j)
        copied k j e = ground (arith, e)

        aside :
            (k j v : ℕ)
            → k ≢ n
            → (if k == n && leb o j && ltb j (o + m) then mem (src + (j - o)) else v) ≡ v
        aside k j v ne = ground (arith, ne)

        elsewhere :
            (off : ℕ)
            → Dec (lookup ip d (off / bsize) ≡ 0)
            → (lookup ip d (off / bsize) ≢ 0 → lookup ip d (off / bsize) ≢ a)
            → byte_at ip filled off ≡ byte_at ip d off
        elsewhere off (Dec.yes z) ne =
            byte_at-none ip filled off (lookup-filled (off / bsize) ∙ z)
            ∙ sym (byte_at-none ip d off z)
        elsewhere off (Dec.no nz) ne =
            let b = lookup ip d (off / bsize) in
            byte_at-there ip filled off b (lookup-filled (off / bsize)) nz
            ∙ filled-away b (off % bsize) (ne nz)
            ∙ sym (byte_at-there ip d off b refl nz)
