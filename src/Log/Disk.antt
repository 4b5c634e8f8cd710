-- ===== src/Log/Disk.antt =====
-- The disk blocks that log.c reads and writes through the buffer cache. A block is its words. A
-- function takes what `bread` finds, block by block, to the same after it, beside the calls of
-- `bwrite` in order; a crash keeps a first part of those.
pub mod Plan
pub mod Recover
pub mod Crash
mod Tests
use cse314_operating_system.Base.{
  ℕ, zero, suc, ◌+◌, ◌-◌, Bool, List, [], ◌∷◌, ◌++◌, ltb, ◌==◌, if◌then◌else◌, length, get_or,
}

abbrev pub Block : Type 0
Block = ℕ → ℕ

abbrev pub Disk : Type 0
Disk = ℕ → Block

abbrev pub Writes : Type 0
Writes = List (ℕ × Block)

abbrev pub update : Disk → ℕ → Block → Disk
update d a v b = if a == b then v else d b

abbrev pub apply : Writes → Disk → Disk
apply [] d = d
apply ((a, v) ∷ ws) d = apply ws (update d a v)

abbrev pub Io : Type 0
Io = Disk → Disk × Writes

infixl 20 ◌then_do◌
abbrev pub ◌then_do◌ : Io → Io → Io
◌then_do◌ f g d = let (d', ws) = f d in let (d'', ws') = g d' in (d'', ws ++ ws')

abbrev pub bwrite : ℕ → Block → Io
bwrite a v d = (update d a v, (a, v) ∷ [])

-- `struct logheader` in the words of a block
pub header_block : Block → List ℕ → Block
header_block old bs zero = length bs
header_block old bs (suc i) = if ltb i (length bs) then get_or bs i 0 else old (suc i)

pub read_words : Block → (n i : ℕ) → List ℕ
read_words b zero i = []
read_words b (suc n) i = b (suc i) ∷ read_words b n (suc i)

module _ (start : ℕ) where
  pub read_head : Disk → List ℕ
  read_head d = read_words (d start) (d start 0) 0

  pub write_head : List ℕ → Io
  write_head bs d = bwrite start (header_block (d start) bs) d

  -- the loops, from `tail` on
  pub install_trans : ℕ → List ℕ → Io
  install_trans tail [] d = (d, [])
  install_trans tail (b ∷ bs) d =
      (bwrite b (d (start + tail + 1)) then_do install_trans (tail + 1) bs) d

  pub write_log : ℕ → List ℕ → Io
  write_log tail [] d = (d, [])
  write_log tail (b ∷ bs) d = (bwrite (start + tail + 1) (d b) then_do write_log (tail + 1) bs) d

  pub commit : List ℕ → Io
  commit bs d =
      if ltb 0 (length bs)
      then (write_log 0 bs then_do write_head bs then_do install_trans 0 bs then_do write_head []) d
      else (d, [])

  pub recover : Io
  recover d = (install_trans 0 (read_head d) then_do write_head []) d
