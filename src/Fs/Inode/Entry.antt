-- ===== src/Fs/Inode/Entry.antt =====
-- A new block in the indirect block of a file.
use cse314_operating_system.Base.{
  has_bit, ℕ, ◌+◌, ◌-◌, ◌*◌, ◌/◌, ◌%◌, ◌^◌, ◌≤◌, ◌<◌, ◌≡◌, refl, sym, ap, ◌∙◌, ◌≢◌, inl, ◌||◌, some,
  arith, dec_lt, ℕ_discrete, ◌==◌, if◌then◌else◌,
}
use cse314_operating_system.Fs.{Blocks, Superblock}
use cse314_operating_system.Fs.Bitmap.{in_use}
use cse314_operating_system.Fs.Alloc.{nmeta, Allocated}
use cse314_operating_system.Fs.Inode.{Inode, word_at, put_word, ndirect, nindirect}
use cse314_operating_system.Fs.Inode.Owning.{spent-new, Held-ne, New, Tree-block}
use cse314_operating_system.Fs.Inode.Lookup.{
  indirect, lookup, lookup-direct, lookup-entry, word_at-put_word, word_at-put_word_ne,
  put_word-away,
}
use cse314_operating_system.Fs.Inode.Growing.{Owned, Mapped, or_true}
use cse314_operating_system.Fs.{bblock, bpb}
use cse314_operating_system.Fs.Inode.Bmap.{balloc-frame, r-ne_zero, if_ne, new, lookup-balloc}

if_eq : (n i r x : ℕ) → n ≡ i → (if n == i then r else x) ≡ r
if_eq n i r x h = ground (arith, h)

module _ (sb : Superblock) where
  -- A write behind the bitmap leaves the bitmap.
  in_use-put_word :
      (d : Blocks) (b i v x : ℕ)
      → nmeta sb ≤ b
      → x ≤ sb.size
      → in_use sb (put_word d b i v) x ≡ in_use sb d x
  in_use-put_word d b i v x h k =
      ap (λ byte. has_bit byte (2 ^ (x % bpb % 8)))
        (put_word-away d b i v (bblock sb x) (x % bpb / 8) (inl (omega (arith, h, k))))

  module _ (ip : Inode) (d d' : Blocks) (r n : ℕ) (ok : Owned sb ip d)
      (taken : Allocated sb d (some (r, d'))) (listed : indirect ip ≢ 0)
      (small : n < nindirect) where
    abbrev stored : Blocks
    stored = put_word d' (indirect ip) (4 * n) r

    ind-ne : indirect ip ≢ r
    ind-ne =
        Held-ne sb (in_use sb d) (in_use sb d') r (new sb ip d d' r ok taken) (indirect ip)
          (ok.tree.held_ind listed)

    stored-away : (b j : ℕ) → b ≢ indirect ip → stored b j ≡ d' b j
    stored-away b j ne = put_word-away d' (indirect ip) (4 * n) r b j (inl ne)

    lookup-stored : (k : ℕ) → lookup ip stored k ≡ (if k == ndirect + n then r else lookup ip d k)
    lookup-stored k = elim (dec_lt k ndirect) [
      | Dec.yes h ↦
          lookup-direct ip stored k h
          ∙ sym (lookup-direct ip d k h)
          ∙ sym (if_ne k (ndirect + n) r (lookup ip d k) (omega (arith, h)))
      | Dec.no h ↦
          lookup-entry ip stored k (omega (arith, h)) listed ∙ elim (ℕ_discrete k (ndirect + n)) [
            | Dec.yes e ↦
                ap (λ m. word_at stored (indirect ip) (4 * m)) {x = k - ndirect} {y = n}
                  (omega (arith, e))
                ∙ word_at-put_word d' (indirect ip) (4 * n) r (omega (arith, taken.1, ok.words_fit))
                ∙ sym (if_eq k (ndirect + n) r (lookup ip d k) e)
            | Dec.no ne ↦
                word_at-put_word_ne d' (indirect ip) r n (k - ndirect) (omega (arith, h, ne))
                ∙ sym (lookup-entry ip d' k (omega (arith, h)) listed)
                ∙ lookup-balloc sb ip d d' r ok taken k
                ∙ sym (if_ne k (ndirect + n) r (lookup ip d k) ne)
          ]
    ]

    in_use-stored : (x : ℕ) → x ≤ sb.size → in_use sb stored x ≡ (x == r || in_use sb d x)
    in_use-stored x h =
        in_use-put_word d' (indirect ip) (4 * n) r x (ok.tree.held_ind listed).0 h ∙ taken.4 x h

    stored-New : New sb (in_use sb d) (in_use sb stored) r
    stored-New = record {
      behind = taken.0;
      inside = taken.1;
      free = taken.2;
      marked = in_use-stored;
    }

    stored-Owned : Owned sb ip stored
    stored-Owned = record {
      formatted = record {
        room = ok.formatted.room;
        inodes_first = ok.formatted.inodes_first;
        meta_used = λ b h.
            in_use-stored b (omega (arith, h, ok.formatted.room))
            ∙ rw (ok.formatted.meta_used b h) (or_true (b == r));
      };
      words_fit = ok.words_fit;
      slots = ok.slots;
      tree =
          Tree-block sb (in_use sb d) (in_use sb stored) r stored-New (lookup ip d) (indirect ip)
            ok.tree (lookup ip stored) (ndirect + n) (λ k _. lookup-stored k);
    }

    pub Mapped-entry :
        word_at d (indirect ip) (4 * n) ≡ 0 → Mapped sb 1 ip d (ndirect + n) r ip stored
    Mapped-entry empty = record {
      grown = record {
        owned = stored-Owned;
        rest = refl;
        kept = λ x h u. in_use-stored x (omega (arith, h)) ∙ rw u (or_true (x == r));
        spent = spent-new sb (in_use sb d) (in_use sb stored) r stored-New;
        frame = λ b j held ne. stored-away b j ne ∙ balloc-frame sb ip d d' r ok taken b j held;
        ind_from = inl refl;
      };
      found =
          lookup-stored (ndirect + n)
          ∙ if_eq (ndirect + n) (ndirect + n) r (lookup ip d (ndirect + n)) refl;
      there = r-ne_zero sb ip d d' r ok taken;
      others = λ k _ ne. lookup-stored k ∙ if_ne k (ndirect + n) r (lookup ip d k) ne;
      blank = λ _ j. stored-away r j (λ e. ind-ne (sym e)) ∙ taken.5 j;
      fresh = λ _. taken.2;
      same = λ ne. absurd (
          ne (
            lookup-entry ip d (ndirect + n) (omega arith) listed
            ∙ ap (λ m. word_at d (indirect ip) (4 * m)) {x = ndirect + n - ndirect} {y = n}
                (omega arith)
            ∙ empty));
    }
