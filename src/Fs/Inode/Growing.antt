-- ===== src/Fs/Inode/Growing.antt =====
-- A well-formed file on the disk, and what an operation that gives it blocks keeps.
use cse314_operating_system.Base.{
  ℕ, ◌+◌, ◌^◌, ◌≤◌, ◌<◌, ◌≡◌, refl, sym, ap, subst, ◌∙◌, ◌≢◌, ◌⊎◌, inl, inr, Bool, true, false,
  ◌||◌, some, arith, ◌==◌, Bool-cases, length,
}
use cse314_operating_system.Fs.{Blocks, Superblock}
use cse314_operating_system.Fs.Bitmap.{in_use}
use cse314_operating_system.Fs.Alloc.{Formatted, Allocated}
use cse314_operating_system.Fs.Inode.{Inode}
use cse314_operating_system.Fs.Inode.Owning.{free_among, Held, Tree, New}
use cse314_operating_system.Fs.Inode.Lookup.{indirect, lookup}

pub or_true : (b : Bool) → (b || true) ≡ true
or_true true = refl
or_true false = refl

module _ (sb : Superblock) where
  -- A well-formed file on a formatted disk
  pub record Owned (ip : Inode) (d : Blocks) : Type 0 where
    pub formatted : Formatted sb d
    pub words_fit : sb.size < 2 ^ 32
    pub slots : length ip.addrs ≡ 13
    pub tree : Tree sb (in_use sb d) (lookup ip d) (indirect ip)

  -- How many blocks of the disk are free
  abbrev pub free_count : Blocks → ℕ
  free_count d = free_among (in_use sb d) sb.size

  -- What `ip'` and `d'` keep of `ip` and `d`: blocks in use stay in use, and keep their contents but for the
  -- indirect block.
  pub record Grown (c : ℕ) (ip : Inode) (d : Blocks) (ip' : Inode) (d' : Blocks) : Type 0 where
    pub owned : Owned ip' d'
    pub rest : ip' ≡ record ip { addrs = ip'.addrs }
    pub kept : (x : ℕ) → x < sb.size → in_use sb d x ≡ true → in_use sb d' x ≡ true
    pub frame : (b j : ℕ) → Held sb (in_use sb d) b → b ≢ indirect ip → d' b j ≡ d b j
    pub spent : free_count d ≤ free_count d' + c
    pub ind_from :
        (indirect ip' ≡ indirect ip)
        ⊎ ((indirect ip' < sb.size) × (in_use sb d (indirect ip') ≡ false))

  pub Grown-trans :
      (c c' : ℕ) (ip ip1 ip2 : Inode) (d d1 d2 : Blocks)
      → Grown c ip d ip1 d1
      → Grown c' ip1 d1 ip2 d2
      → Grown (c + c') ip d ip2 d2
  Grown-trans c c' ip ip1 ip2 d d1 d2 g h = record {
    owned = h.owned;
    rest = h.rest ∙ ap (λ (x : Inode). record x { addrs = ip2.addrs }) g.rest;
    kept = λ x s u. h.kept x s (g.kept x s u);
    spent = omega (arith, g.spent, h.spent);
    frame = λ b j held ne.
        let held1 : Held sb (in_use sb d1) b = (held.0, held.1, g.kept b held.1 held.2) in
        h.frame b j held1 (λ e. elim g.ind_from [
          | inl same ↦ ne (e ∙ same)
          | inr (_, free) ↦ cc (sym held.2 ∙ ap (in_use sb d) e ∙ free)
        ])
        ∙ g.frame b j held ne;
    ind_from = elim h.ind_from [
      | inl same ↦ elim g.ind_from [
        | inl same' ↦ inl (same ∙ same')
        | inr (s, free) ↦ inr (subst (λ x. x < sb.size) (sym same) s, ap (in_use sb d) same ∙ free)
      ]
      | inr (s, free) ↦ elim (Bool-cases (in_use sb d (indirect ip2))) [
        | inl used ↦ absurd (cc (sym free ∙ g.kept (indirect ip2) s used))
        | inr unused ↦ inr (s, unused)
      ]
    ];
  }

  -- The new block that `balloc` takes
  pub New-balloc :
      (d d' : Blocks) (r : ℕ)
      → Allocated sb d (some (r, d'))
      → New sb (in_use sb d) (in_use sb d') r
  New-balloc d d' r (behind, inside, free, _, marked, _, _) = record {
    behind = behind;
    inside = inside;
    free = free;
    marked = marked;
  }

  -- A disk with a block more in use is formatted still.
  pub Formatted-balloc :
      (d d' : Blocks) (r : ℕ) → Formatted sb d → Allocated sb d (some (r, d')) → Formatted sb d'
  Formatted-balloc d d' r ok (_, _, _, _, marked, _, _) = record {
    room = ok.room;
    inodes_first = ok.inodes_first;
    meta_used =
        λ b h. marked b (omega (arith, h, ok.room)) ∙ rw (ok.meta_used b h) (or_true (b == r));
  }

  -- What one address found or made for block number `n` leaves behind: `same` when there was a block already.
  pub record Mapped (c : ℕ) (ip : Inode) (d : Blocks) (n a : ℕ) (ip' : Inode) (d' : Blocks)
      : Type 0 where
    pub grown : Grown c ip d ip' d'
    pub found : lookup ip' d' n ≡ a
    pub there : a ≢ 0
    pub others : (k : ℕ) → k < 140 → k ≢ n → lookup ip' d' k ≡ lookup ip d k
    pub blank : lookup ip d n ≡ 0 → (j : ℕ) → d' a j ≡ 0
    pub fresh : lookup ip d n ≡ 0 → in_use sb d a ≡ false
    pub same : lookup ip d n ≢ 0 → a ≡ lookup ip d n

  pub Grown-refl : (ip : Inode) (d : Blocks) → Owned ip d → Grown 1 ip d ip d
  Grown-refl ip d ok = record {
    owned = ok;
    rest = refl;
    kept = λ x h u. u;
    spent = omega arith;
    frame = λ b j h ne. refl;
    ind_from = inl refl;
  }

  -- The block that is there
  pub Mapped-there :
      (ip : Inode) (d : Blocks) (n : ℕ)
      → Owned ip d
      → lookup ip d n ≢ 0
      → Mapped 1 ip d n (lookup ip d n) ip d
  Mapped-there ip d n ok h = record {
    grown = Grown-refl ip d ok;
    found = refl;
    there = h;
    others = λ k s ne. refl;
    blank = λ e. absurd (h e);
    fresh = λ e. absurd (h e);
    same = λ _. refl;
  }

  pub Grown-more :
      (c c' : ℕ) (ip ip' : Inode) (d d' : Blocks)
      → c ≤ c'
      → Grown c ip d ip' d'
      → Grown c' ip d ip' d'
  Grown-more c c' ip ip' d d' h g = record {
    owned = g.owned;
    rest = g.rest;
    kept = g.kept;
    frame = g.frame;
    spent = omega (arith, h, g.spent);
    ind_from = g.ind_from;
  }
