-- ===== src/Log/Disk/Plan.antt =====
-- The loops of log.c as lists of writes known beforehand, and what lists of writes leave behind.
use cse314_operating_system.Base.{
  ℕ, zero, suc, ◌+◌, ◌≤◌, ◌<◌, ◌≡◌, refl, sym, ap, ap₂, ◌∙◌, ◌≢◌, ◌⊎◌, inl, inr, Bool, true, false,
  ◌||◌, List, [], ◌∷◌, ◌++◌, arith, Bool-cases, ◌==◌, if◌then◌else◌, length, get_or, All, take, map,
}
use native.Mathlib.Nat.{add-zero}
use cse314_operating_system.Log.Disk.{
  Block, Disk, Writes, update, apply, header_block, read_words, read_head, install_trans, write_log,
}

-- A block of the file system proper: not one of the `size` blocks of the log.
abbrev pub Outside : (start size b : ℕ) → Type 0
Outside start size b = (b < start) ⊎ (start + size ≤ b)

abbrev pub writes_to : ℕ → Writes → Bool
writes_to b [] = false
writes_to b ((a, v) ∷ ws) = a == b || writes_to b ws

abbrev pub mem : ℕ → List ℕ → Bool
mem b [] = false
mem b (x ∷ xs) = x == b || mem b xs

pub update_self : (d : Disk) (a : ℕ) (v : Block) → update d a v a ≡ v
update_self d a v = ground arith

-- Every `bwrite` reaches the disk and the buffer alike.
pub apply-append : (ws vs : Writes) (d : Disk) → apply (ws ++ vs) d ≡ apply vs (apply ws d)
apply-append [] vs d = refl
apply-append ((a, v) ∷ ws) vs d = apply-append ws vs (update d a v)

pub apply-untouched : (ws : Writes) (d : Disk) (b : ℕ) → writes_to b ws ≡ false → apply ws d b ≡ d b
apply-untouched [] d b h = refl
apply-untouched ((a, v) ∷ ws) d b h =
    apply-untouched ws (update d a v) b (ground arith) ∙ ground arith

-- What a block that is written to holds afterwards does not depend on what it held.
pub apply-touched :
    (ws : Writes) (d e : Disk) (b : ℕ) → writes_to b ws ≡ true → apply ws d b ≡ apply ws e b
apply-touched [] d e b h = cc
apply-touched ((a, v) ∷ ws) d e b h = elim (Bool-cases (writes_to b ws)) [
  | inl again ↦ apply-touched ws (update d a v) (update e a v) b again
  | inr last ↦
      apply-untouched ws (update d a v) b last
      ∙ ground arith
      ∙ sym (apply-untouched ws (update e a v) b last)
]

pub take-writes_to :
    (ws : Writes) (k b : ℕ) → writes_to b ws ≡ false → writes_to b (take k ws) ≡ false
take-writes_to ws zero b h = refl
take-writes_to [] (suc k) b h = refl
take-writes_to ((a, v) ∷ ws) (suc k) b h = ground (arith, take-writes_to ws k b)

-- Doing all of some writes after a first part of them is doing all of them.
pub apply-take :
    (ws : Writes) (k : ℕ) (d : Disk) (b : ℕ) → apply ws (apply (take k ws) d) b ≡ apply ws d b
apply-take ws k d b = elim (Bool-cases (writes_to b ws)) [
  | inl touched ↦ apply-touched ws (apply (take k ws) d) d b touched
  | inr untouched ↦
      apply-untouched ws (apply (take k ws) d) b untouched
      ∙ apply-untouched (take k ws) d b (take-writes_to ws k b untouched)
      ∙ sym (apply-untouched ws d b untouched)
]

module _ (start : ℕ) where
  -- The writes of the two loops, if no write meets a block that is read later.
  abbrev pub to_log : ℕ → List ℕ → Disk → Writes
  to_log tail [] f = []
  to_log tail (b ∷ bs) f = (start + tail + 1, f b) ∷ to_log (tail + 1) bs f

  abbrev pub to_home : ℕ → List ℕ → Disk → Writes
  to_home tail [] f = []
  to_home tail (b ∷ bs) f = (b, f (start + tail + 1)) ∷ to_home (tail + 1) bs f

  pub to_log-cong :
      (tail : ℕ) (bs : List ℕ) (f g : Disk)
      → All (λ b. f b ≡ g b) bs
      → to_log tail bs f ≡ to_log tail bs g
  to_log-cong tail [] f g h = refl
  to_log-cong tail (b ∷ bs) f g h =
      ap₂ (λ (v : Block) (ws : Writes). (start + tail + 1, v) ∷ ws) h.0
        (to_log-cong (tail + 1) bs f g h.1)

  module _ (size : ℕ) where
    pub update_ne : (d : Disk) (a b : ℕ) (v : Block) → a ≢ b → update d a v b ≡ d b
    update_ne d a b v h = ground arith

    to_log-later :
        (tail : ℕ) (bs : List ℕ) (f : Disk) (a : ℕ)
        → a < start + tail + 1
        → writes_to a (to_log tail bs f) ≡ false
    to_log-later tail [] f a h = refl
    to_log-later tail (b ∷ bs) f a h = ground (arith, to_log-later (tail + 1) bs f a)

    All-update :
        (bs : List ℕ) (d : Disk) (a : ℕ) (v : Block)
        → All (Outside start size) bs
        → start ≤ a
        → a < start + size
        → All (λ b. update d a v b ≡ d b) bs
    All-update [] d a v h lo hi = tt
    All-update (b ∷ bs) d a v h lo hi = (ground arith, All-update bs d a v h.1 lo hi)

    pub write_log-plan :
        (tail : ℕ) (bs : List ℕ) (d : Disk)
        → All (Outside start size) bs
        → tail + length bs < size
        → (write_log start tail bs d).1 ≡ to_log tail bs d
    unfolding write_log
    write_log-plan tail [] d h fits = refl
    write_log-plan tail (b ∷ bs) d h fits =
        let d' = update d (start + tail + 1) (d b) in
        ap (◌∷◌ (start + tail + 1, d b)) (
          write_log-plan (tail + 1) bs d' h.1 (omega arith)
          ∙ to_log-cong (tail + 1) bs d' d
              (All-update bs d (start + tail + 1) (d b) h.1 (omega arith) (omega arith)))

    pub to_home-cong :
        (tail : ℕ) (bs : List ℕ) (f g : Disk)
        → tail + length bs < size
        → ((a : ℕ) → start < a → a < start + size → f a ≡ g a)
        → to_home tail bs f ≡ to_home tail bs g
    to_home-cong tail [] f g fits h = refl
    to_home-cong tail (b ∷ bs) f g fits h =
        ap₂ (λ (v : Block) (ws : Writes). (b, v) ∷ ws)
          (h (start + tail + 1) (omega arith) (omega arith))
          (to_home-cong (tail + 1) bs f g (omega arith) h)

    pub install_trans-plan :
        (tail : ℕ) (bs : List ℕ) (d : Disk)
        → All (Outside start size) bs
        → tail + length bs < size
        → (install_trans start tail bs d).1 ≡ to_home tail bs d
    unfolding install_trans
    install_trans-plan tail [] d h fits = refl
    install_trans-plan tail (b ∷ bs) d h fits =
        let v = d (start + tail + 1) in
        let d' = update d b v in
        ap (◌∷◌ (b, v)) (
          install_trans-plan (tail + 1) bs d' h.1 (omega arith)
          ∙ to_home-cong (tail + 1) bs d' d (omega arith)
              (λ a lo hi. update_ne d b a v (ground arith)))

    -- Where the log has gone to disk, the homes are written with what it was filled from.
    pub to_home-to_log :
        (tail : ℕ) (bs : List ℕ) (f d : Disk)
        → to_home tail bs (apply (to_log tail bs f) d) ≡ map (λ b. (b, f b)) bs
    to_home-to_log tail [] f d = refl
    to_home-to_log tail (b ∷ bs) f d =
        let d' = update d (start + tail + 1) (f b) in
        ap₂ (λ (v : Block) (ws : Writes). (b, v) ∷ ws)
          (apply-untouched (to_log (tail + 1) bs f) d' (start + tail + 1)
              (to_log-later (tail + 1) bs f (start + tail + 1) (omega arith))
            ∙ ground arith)
          (to_home-to_log (tail + 1) bs f d')

  pub write_log-apply :
      (tail : ℕ) (bs : List ℕ) (d : Disk)
      → (write_log start tail bs d).0 ≡ apply (write_log start tail bs d).1 d
  unfolding write_log
  write_log-apply tail [] d = refl
  write_log-apply tail (b ∷ bs) d =
      write_log-apply (tail + 1) bs (update d (start + tail + 1) (d b))

  pub install_trans-apply :
      (tail : ℕ) (bs : List ℕ) (d : Disk)
      → (install_trans start tail bs d).0 ≡ apply (install_trans start tail bs d).1 d
  unfolding install_trans
  install_trans-apply tail [] d = refl
  install_trans-apply tail (b ∷ bs) d =
      install_trans-apply (tail + 1) bs (update d b (d (start + tail + 1)))

-- Writing some blocks of `f`.
pub apply-map :
    (bs : List ℕ) (f d : Disk) (b : ℕ)
    → apply (map (λ b. (b, f b)) bs) d b ≡ (if mem b bs then f b else d b)
apply-map [] f d b = refl
apply-map (x ∷ bs) f d b = apply-map bs f (update d x (f x)) b ∙ ground arith

-- Reading back a header.
pub read_words-header :
    (old : Block) (bs cs : List ℕ) (i : ℕ)
    → ((j : ℕ) → j < length cs → get_or bs (i + j) 0 ≡ get_or cs j 0)
    → i + length cs ≡ length bs
    → read_words (header_block old bs) (length cs) i ≡ cs
unfolding read_words header_block
read_words-header old bs [] i h e = refl
read_words-header old bs (c ∷ cs) i h e =
    ap₂ ◌∷◌ (ground (arith, h 0 (omega arith), ap (λ (k : ℕ). get_or bs k 0) (add-zero i))) (
      read_words-header old bs cs (suc i)
        (λ j hj. ap (λ (k : ℕ). get_or bs k 0) (omega arith) ∙ h (suc j) (omega arith))
        (omega arith))

pub read_head-write_head :
    (start : ℕ) (bs : List ℕ) (d : Disk) (e : Disk)
    → e start ≡ header_block (d start) bs
    → read_head start e ≡ bs
unfolding read_head header_block
read_head-write_head start bs d e h = rw h (
    read_words-header (d start) bs bs 0 (λ j hj. ap (λ (k : ℕ). get_or bs k 0) (omega arith))
      (omega arith))
