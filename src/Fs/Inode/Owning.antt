-- ===== src/Fs/Inode/Owning.antt =====
-- The blocks of a file as a map from its block numbers: the invariant, and what a new block does to it.
use cse314_operating_system.Base.{
  ℕ, zero, suc, ◌+◌, ◌≤◌, ◌<◌, ◌≡◌, refl, sym, ap, subst, ◌∙◌, ◌≢◌, Bool, true, false, ◌||◌, arith,
  ℕ_discrete, ◌==◌, if◌then◌else◌,
}
use cse314_operating_system.Fs.{Superblock}
use cse314_operating_system.Fs.Alloc.{nmeta}

-- A block behind the bitmap that is in use
abbrev pub Held : Superblock → (used : ℕ → Bool) → ℕ → Type 0
Held sb used a = (nmeta sb ≤ a) × (a < sb.size) × (used a ≡ true)

-- The blocks `look` of a file, 0 where there is none, and its indirect block `ind`: all in use, and no two the same
pub record Tree (sb : Superblock) (used : ℕ → Bool) (look : ℕ → ℕ) (ind : ℕ) : Type 0 where
  pub held : (n : ℕ) → n < 140 → look n ≢ 0 → Held sb used (look n)
  pub held_ind : ind ≢ 0 → Held sb used ind
  pub distinct : (n k : ℕ) → n < 140 → k < 140 → look n ≢ 0 → look n ≡ look k → n ≡ k
  pub apart : (n : ℕ) → n < 140 → look n ≢ 0 → look n ≢ ind

-- How many of the first `n` blocks are free
abbrev pub free_among : (used : ℕ → Bool) (n : ℕ) → ℕ
free_among used zero = 0
free_among used (suc n) = if used n then free_among used n else suc (free_among used n)

-- `r` is new: it was free, and is now the one more block in use.
pub record New (sb : Superblock) (used used' : ℕ → Bool) (r : ℕ) : Type 0 where
  pub behind : nmeta sb ≤ r
  pub inside : r < sb.size
  pub free : used r ≡ false
  pub marked : (x : ℕ) → x ≤ sb.size → used' x ≡ (x == r || used x)

-- The same blocks in use, and the same block numbers
pub Tree-same :
    (sb : Superblock) (used used' : ℕ → Bool) (look look' : ℕ → ℕ) (ind : ℕ)
    → ((x : ℕ) → x ≤ sb.size → used' x ≡ used x)
    → ((n : ℕ) → look' n ≡ look n)
    → Tree sb used look ind
    → Tree sb used' look' ind
Tree-same sb used used' look look' ind same at tree =
    let keep : (a : ℕ) → Held sb used a → Held sb used' a =
      λ a h. (h.0, h.1, same a (omega (arith, h)) ∙ h.2) in
    record {
      held = λ n h p.
          subst (Held sb used') (sym (at n)) (keep (look n) (tree.held n h (λ z. p (at n ∙ z))));
      held_ind = λ p. keep ind (tree.held_ind p);
      distinct = λ n k h h' p e. tree.distinct n k h h' (λ z. p (at n ∙ z)) (sym (at n) ∙ e ∙ at k);
      apart = λ n h p e. tree.apart n h (λ z. p (at n ∙ z)) (sym (at n) ∙ e);
    }

pub free_among-cong :
    (used used' : ℕ → Bool) (n : ℕ)
    → ((x : ℕ) → x < n → used' x ≡ used x)
    → free_among used' n ≡ free_among used n
free_among-cong used used' zero same = refl
free_among-cong used used' (suc n) same =
    rw (same n (omega arith), free_among-cong used used' n (λ x h. same x (omega (arith, h)))) refl

one_less :
    (u : Bool) (a b : ℕ) → a ≡ suc b → (if u then a else suc a) ≡ suc (if u then b else suc b)
one_less true a b e = e
one_less false a b e = ap suc e

module _ (sb : Superblock) (used used' : ℕ → Bool) (r : ℕ) (new : New sb used used' r) where
  pub Held-new : (a : ℕ) → Held sb used a → Held sb used' a
  Held-new a (lo, hi, u) = (lo, hi, new.marked a (omega (arith, hi)) ∙ rw u (orb (a == r)))
    where
      orb : (b : Bool) → (b || true) ≡ true
      orb true = refl
      orb false = refl

  pub Held-self : Held sb used' r
  Held-self = (new.behind, new.inside, new.marked r (omega (arith, new.inside)) ∙ ground arith)

  -- No block in use is the new one.
  pub Held-ne : (a : ℕ) → Held sb used a → a ≢ r
  Held-ne a (lo, hi, u) e = absurd (cc (sym u ∙ ap used e ∙ new.free))

  module _ (look : ℕ → ℕ) (ind : ℕ) (tree : Tree sb used look ind) where
    look-ne : (n : ℕ) → n < 140 → look n ≢ 0 → look n ≢ r
    look-ne n small h = Held-ne (look n) (tree.held n small h)

    -- The new block at block number `k`
    pub Tree-block :
        (look' : ℕ → ℕ) (k : ℕ)
        → ((n : ℕ) → n < 140 → look' n ≡ (if n == k then r else look n))
        → Tree sb used' look' ind
    Tree-block look' k at =
        let new_at : (n : ℕ) → n < 140 → n ≡ k → look' n ≡ r =
          λ n h e. at n h ∙ ground (arith, e) in
        let old_at : (n : ℕ) → n < 140 → n ≢ k → look' n ≡ look n =
          λ n h ne. at n h ∙ ground (arith, ne) in
        record {
          held = λ n h p. elim (ℕ_discrete n k) [
            | Dec.yes e ↦ subst (Held sb used') (sym (new_at n h e)) Held-self
            | Dec.no ne ↦
                subst (Held sb used') (sym (old_at n h ne))
                  (Held-new (look n) (tree.held n h (λ z. p (old_at n h ne ∙ z))))
          ];
          held_ind = λ p. Held-new ind (tree.held_ind p);
          distinct = λ n m h h' p e. elim (ℕ_discrete n k) [
            | Dec.yes en ↦ elim (ℕ_discrete m k) [
              | Dec.yes em ↦ en ∙ sym em
              | Dec.no nm ↦
                  let same : look m ≡ r = sym (old_at m h' nm) ∙ sym e ∙ new_at n h en in
                  absurd (look-ne m h' (λ z. p (e ∙ old_at m h' nm ∙ z)) same)
            ]
            | Dec.no nn ↦ elim (ℕ_discrete m k) [
              | Dec.yes em ↦
                  let same : look n ≡ r = sym (old_at n h nn) ∙ e ∙ new_at m h' em in
                  absurd (look-ne n h (λ z. p (old_at n h nn ∙ z)) same)
              | Dec.no nm ↦
                  tree.distinct n m h h' (λ z. p (old_at n h nn ∙ z))
                    (sym (old_at n h nn) ∙ e ∙ old_at m h' nm)
            ]
          ];
          apart = λ n h p e. elim (ℕ_discrete n k) [
            | Dec.yes en ↦
                let same : ind ≡ r = sym e ∙ new_at n h en in
                Held-ne ind (tree.held_ind (λ z. p (e ∙ z))) same
            | Dec.no ne ↦ tree.apart n h (λ z. p (old_at n h ne ∙ z)) (sym (old_at n h ne) ∙ e)
          ];
        }

    -- The new block as the indirect block
    pub Tree-indirect :
        (look' : ℕ → ℕ) → ((n : ℕ) → n < 140 → look' n ≡ look n) → Tree sb used' look' r
    Tree-indirect look' same = record {
      held = λ n h p.
          subst (Held sb used') (sym (same n h))
            (Held-new (look n) (tree.held n h (λ z. p (same n h ∙ z))));
      held_ind = λ p. Held-self;
      distinct = λ n m h h' p e.
          tree.distinct n m h h' (λ z. p (same n h ∙ z)) (sym (same n h) ∙ e ∙ same m h');
      apart = λ n h p e. look-ne n h (λ z. p (same n h ∙ z)) (sym (same n h) ∙ e);
    }

  free_among-same : (n : ℕ) → n ≤ sb.size → n ≤ r → free_among used' n ≡ free_among used n
  free_among-same zero h k = refl
  free_among-same (suc n) h k =
      let same : used' n ≡ used n = new.marked n (omega (arith, h)) ∙ ground (arith, k) in
      rw (same, free_among-same n (omega (arith, h)) (omega (arith, k))) refl

  -- Among the blocks there is one free block less.
  free_among-new : (n : ℕ) → n ≤ sb.size → r < n → free_among used n ≡ suc (free_among used' n)
  free_among-new zero h k = absurd (omega arith)
  free_among-new (suc n) h k = elim (ℕ_discrete n r) [
    | Dec.yes e ↦
        let was_free : used n ≡ false = ap used e ∙ new.free in
        let is_used : used' n ≡ true = new.marked n (omega (arith, h)) ∙ ground (arith, e) in
        rw (was_free, is_used, free_among-same n (omega (arith, h)) (omega (arith, e))) refl
    | Dec.no ne ↦
        let same : used' n ≡ used n = new.marked n (omega (arith, h)) ∙ ground (arith, ne) in
        rw same (
          one_less (used n) (free_among used n) (free_among used' n)
            (free_among-new n (omega (arith, h)) (omega (arith, k, ne))))
  ]

  pub spent-new : free_among used sb.size ≤ free_among used' sb.size + 1
  spent-new = omega (arith, free_among-new sb.size (omega arith) new.inside)
