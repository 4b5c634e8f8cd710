-- ===== src/Fs/Inode/Trunc.antt =====
-- Freeing blocks one after the other, and the entries of an indirect block.
use cse314_operating_system.Base.{
  ℕ, zero, suc, ◌+◌, ◌*◌, ◌≤◌, ◌<◌, ◌≡◌, refl, sym, ap, ◌∙◌, ◌≢◌, Bool, true, false, not, ◌&&◌,
  ◌||◌, Option, none, some, arith, ℕ_discrete, ◌==◌, if◌then◌else◌,
}
use cse314_operating_system.Fs.{Blocks, Superblock, bfree}
use cse314_operating_system.Fs.Bitmap.{in_use}
use cse314_operating_system.Fs.Alloc.{nmeta, Released, bfree-Released}
use cse314_operating_system.Fs.Inode.{word_at, free_entries}
use cse314_operating_system.Fs.Inode.Lookup.{word_at-frame}
use cse314_operating_system.Fs.Inode.Growing.{or_true}

-- Whether `x` is one of the `n` blocks that `at` lists from `j` on, where 0 stands for none
pub among : (at : ℕ → ℕ) (n j x : ℕ) → Bool
among at zero j x = false
among at (suc n) j x = (if at j == 0 then false else x == at j) || among at n (j + 1) x

pub among-zero : (at : ℕ → ℕ) (j x : ℕ) → among at 0 j x ≡ false
unfolding among
among-zero at j x = refl

pub among-skip : (at : ℕ → ℕ) (n j x : ℕ) → at j ≡ 0 → among at n (j + 1) x ≡ among at (suc n) j x
unfolding among
among-skip at n j x e = rw e refl

pub among-first :
    (at : ℕ → ℕ) (n j x : ℕ) → at j ≢ 0 → (x == at j || among at n (j + 1) x) ≡ among at (suc n) j x
unfolding among
among-first at n j x ne = let t : (at j == 0) ≡ false = ground (arith, ne) in rw t refl

-- Each block listed is among them, and no other.
pub among-at : (at : ℕ → ℕ) (n j k : ℕ) → j ≤ k → k < j + n → at k ≢ 0 → among at n j (at k) ≡ true
unfolding among
among-at at zero j k lo hi ne = absurd (omega (arith, lo, hi))
among-at at (suc n) j k lo hi ne = elim (ℕ_discrete k j) [
  | Dec.yes e ↦
      let t : (at j == 0) ≡ false = ground (arith, ne, ap at e) in
      let s : (at k == at j) ≡ true = ground (arith, ap at e) in rw (t, s) refl
  | Dec.no other ↦
      let later = among-at at n (j + 1) k (omega (arith, lo, other)) (omega (arith, hi)) ne in
      rw later (or_true (if at j == 0 then false else at k == at j))
]

pub among-not :
    (at : ℕ → ℕ) (n j x : ℕ)
    → ((k : ℕ) → j ≤ k → k < j + n → at k ≢ 0 → at k ≢ x)
    → among at n j x ≡ false
unfolding among
among-not at zero j x none_is = refl
among-not at (suc n) j x none_is =
    let rest =
      among-not at n (j + 1) x (λ k lo hi. none_is k (omega (arith, lo)) (omega (arith, hi))) in
    elim (ℕ_discrete (at j) 0) [
      | Dec.yes e ↦ rw (e, rest) refl
      | Dec.no ne ↦
          let other = none_is j (omega arith) (omega arith) ne in
          let t : (at j == 0) ≡ false = ground (arith, ne) in
          let s : (x == at j) ≡ false = ground (arith, other) in rw (t, s, rest) refl
    ]

module _ (sb : Superblock) where
  -- What freeing the blocks in `gone` does: they are free, no other block is, and no block behind the bitmap changes.
  pub record Freed (gone : ℕ → Bool) (d d' : Blocks) : Type 0 where
    pub bits : (x : ℕ) → in_use sb d' x ≡ (not (gone x) && in_use sb d x)
    pub frame : (x j : ℕ) → nmeta sb ≤ x → d' x j ≡ d x j

  pub Freed-trans :
      (g h : ℕ → Bool) (d d1 d2 : Blocks)
      → Freed g d d1
      → Freed h d1 d2
      → Freed (λ x. g x || h x) d d2
  Freed-trans g h d d1 d2 a b = record {
    bits = λ x. b.bits x ∙ rw (a.bits x) (merge (g x) (h x) (in_use sb d x));
    frame = λ x j n. b.frame x j n ∙ a.frame x j n;
  }
    where
      merge : (p q u : Bool) → (not q && (not p && u)) ≡ (not (p || q) && u)
      merge true true u = refl
      merge true false u = refl
      merge false true u = refl
      merge false false u = refl

  -- `bfree` of a block in use does not panic.
  pub Freed-bfree :
      (d : Blocks) (b : ℕ)
      → b < sb.size
      → in_use sb d b ≡ true
      → (d' : Blocks) × (bfree sb d b ≡ some d') × Freed (λ x. x == b) d d'
  Freed-bfree d b h used = answer (bfree sb d b) (bfree-Released sb d b h)
    where
      answer :
          (o : Option Blocks)
          → Released sb d b o
          → (d' : Blocks) × (o ≡ some d') × Freed (λ x. x == b) d d'
      answer none free = absurd (cc (sym free ∙ used))
      answer (some d') (_, bits, frame) = (d', refl, record { bits = bits; frame = frame })

  -- A list of blocks that can be freed one after the other
  pub record Listed (d : Blocks) (at : ℕ → ℕ) (n j : ℕ) : Type 0 where
    pub inside : (k : ℕ) → j ≤ k → k < j + n → at k ≢ 0 → at k < sb.size
    pub used : (k : ℕ) → j ≤ k → k < j + n → at k ≢ 0 → in_use sb d (at k) ≡ true
    pub distinct : (k m : ℕ) → j ≤ k → k < m → m < j + n → at m ≢ 0 → at m ≢ at k

  pub Listed-next :
      (d : Blocks) (at : ℕ → ℕ) (n j : ℕ) → Listed d at (suc n) j → Listed d at n (j + 1)
  Listed-next d at n j l = record {
    inside = λ k lo hi. l.inside k (omega (arith, lo)) (omega (arith, hi));
    used = λ k lo hi. l.used k (omega (arith, lo)) (omega (arith, hi));
    distinct = λ k m lo lt hi. l.distinct k m (omega (arith, lo)) lt (omega (arith, hi));
  }

  -- The first of them freed
  pub Listed-freed :
      (d d1 : Blocks) (at : ℕ → ℕ) (n j : ℕ)
      → Freed (λ x. x == at j) d d1
      → Listed d at (suc n) j
      → Listed d1 at n (j + 1)
  Listed-freed d d1 at n j f l = record {
    inside = λ k lo hi. l.inside k (omega (arith, lo)) (omega (arith, hi));
    used = λ k lo hi ne.
        let other = l.distinct j k (omega arith) (omega (arith, lo)) (omega (arith, hi)) ne in
        f.bits (at k)
        ∙ rw (l.used k (omega (arith, lo)) (omega (arith, hi)) ne) (ground (arith, other));
    distinct = λ k m lo lt hi. l.distinct k m (omega (arith, lo)) lt (omega (arith, hi));
  }

  pub Freed-cong :
      (g h : ℕ → Bool) (d d' : Blocks) → ((x : ℕ) → g x ≡ h x) → Freed g d d' → Freed h d d'
  Freed-cong g h d d' same f = record {
    bits = λ x. f.bits x ∙ ap (λ b. not b && in_use sb d x) (same x);
    frame = f.frame;
  }

  pub Freed-none : (g : ℕ → Bool) (d : Blocks) → ((x : ℕ) → g x ≡ false) → Freed g d d
  Freed-none g d nothing = record { bits = λ x. rw (nothing x) refl; frame = λ x j h. refl }

  entries-skip :
      (n j ind : ℕ) (d : Blocks)
      → word_at d ind (4 * j) ≡ 0
      → free_entries sb (suc n) j ind d ≡ free_entries sb n (j + 1) ind d
  unfolding free_entries
  entries-skip n j ind d e = rw (e, free_entries) refl

  entries-free :
      (n j ind a : ℕ) (d d1 : Blocks)
      → word_at d ind (4 * j) ≡ a
      → a ≢ 0
      → bfree sb d a ≡ some d1
      → free_entries sb (suc n) j ind d ≡ free_entries sb n (j + 1) ind d1
  unfolding free_entries
  entries-free n j ind a d d1 e ne f =
      let t : (word_at d ind (4 * j) == 0) ≡ false = ground (arith, e, ne) in
      rw (t, ap (bfree sb d) e ∙ f, free_entries) refl

  pub free_entries_lem :
      (at : ℕ → ℕ) (n j ind : ℕ) (d : Blocks)
      → nmeta sb ≤ ind
      → ((k : ℕ) → word_at d ind (4 * k) ≡ at k)
      → Listed d at n j
      → (d' : Blocks) × (free_entries sb n j ind d ≡ some d') × Freed (among at n j) d d'
  unfolding free_entries
  free_entries_lem at zero j ind d behind same l =
      (d, refl, Freed-none (among at 0 j) d (among-zero at j))
  free_entries_lem at (suc n) j ind d behind same l = elim (ℕ_discrete (at j) 0) [
    | Dec.yes e ↦
        let (d', done, f) =
          free_entries_lem at n (j + 1) ind d behind same (Listed-next d at n j l) in
        (
          d',
          entries-skip n j ind d (same j ∙ e) ∙ done,
          Freed-cong (among at n (j + 1)) (among at (suc n) j) d d' (λ x. among-skip at n j x e) f,
        )
    | Dec.no ne ↦
        let (d1, done, f) =
          Freed-bfree d (at j) (l.inside j (omega arith) (omega arith) ne)
            (l.used j (omega arith) (omega arith) ne) in
        let (d2, done2, f2) =
          free_entries_lem at n (j + 1) ind d1 behind
            (λ k. word_at-frame d d1 ind (4 * k) (λ i _ _. f.frame ind i behind) ∙ same k)
            (Listed-freed d d1 at n j f l) in
        (
          d2,
          entries-free n j ind (at j) d d1 (same j) ne done ∙ done2,
          Freed-cong (λ x. x == at j || among at n (j + 1) x) (among at (suc n) j) d d2
              (λ x. among-first at n j x ne)
              (Freed-trans (λ x. x == at j) (among at n (j + 1)) d d1 d2 f f2),
        )
  ]
