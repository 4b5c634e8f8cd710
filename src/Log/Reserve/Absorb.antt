-- ===== src/Log/Reserve/Absorb.antt =====
-- The header lists no block twice, and each block that was written since the last commit.
use cse314_operating_system.Base.{
  ℕ, ◌≡◌, refl, sym, ap, subst, ◌∙◌, false, ◌||◌, some, List, [], ◌∷◌, arith, ◌==◌,
}
use cse314_operating_system.Log.{Log, absorb, log_write}
use cse314_operating_system.Log.Disk.Plan.{mem}

abbrev pub Distinct : List ℕ → Type 0
Distinct [] = Unit
Distinct (x ∷ xs) = (mem x xs ≡ false) × Distinct xs

pub mem-absorb : (xs : List ℕ) (b c : ℕ) → mem c (absorb xs b) ≡ (mem c xs || b == c)
unfolding absorb
mem-absorb [] b c = ground arith
mem-absorb (x ∷ xs) b c = ground (arith, mem-absorb xs b c)

absorb-Distinct : (xs : List ℕ) (b : ℕ) → Distinct xs → Distinct (absorb xs b)
unfolding absorb
absorb-Distinct [] b h = (refl, tt)
absorb-Distinct (x ∷ xs) b h = ground (arith, absorb-Distinct xs b h.1, mem-absorb xs b x)

-- A `log_write` that does not panic adds its block to those of the header, drops none, and keeps
-- them distinct; the rest of the log stays as it was.
pub log_write-blocks :
    (l : Log) (b c : ℕ) {l' : Log}
    → Distinct l.blocks
    → log_write l b ≡ some l'
    → Distinct l'.blocks
      × (mem c l'.blocks ≡ (mem c l.blocks || b == c))
      × (l' ≡ record l { blocks = l'.blocks })
unfolding log_write
log_write-blocks l b c {l'} h e =
    let grown : l'.blocks ≡ absorb l.blocks b = ground arith in
    (
      subst Distinct (sym grown) (absorb-Distinct l.blocks b h),
      ap (mem c) grown ∙ mem-absorb l.blocks b c,
      ground arith,
    )
