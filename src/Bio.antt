-- ===== src/Bio.antt =====
-- Offline 4/xv6/bio.c (the same file in Offline 3/xv6): the buffer cache. The list of buffers runs from the most to
-- the least recently used, and a buffer is named by its place in `bcache.buf`. Sleep locks and the contents
-- of blocks are left out; each function is one hold of `bcache.lock`.
pub mod Unique
mod Tests
use cse314_operating_system.Base.{
  ℕ, zero, suc, ◌+◌, ◌-◌, ◌*◌, ◌/◌, ◌%◌, ◌^◌, ◌≤◌, ◌<◌, min, ◌≡◌, refl, sym, ap, ap₂, subst, ◌∙◌,
  fun_ext, ◌≢◌, ◌↔◌, ◌⊎◌, inl, inr, Bool, true, false, not, ◌&&◌, ◌||◌, Option, none, some, List,
  [], ◌∷◌, ◌++◌, map, append-nil, append_assoc, arith, dec_lt, ℕ_discrete, ltb, leb, ◌==◌,
  if◌then◌else◌, ltb→lt, lt→ltb, leb→le, ==_iff, Bool-cases, Option-cases, length, get_elem?,
  get_or, set, take, drop, replicate, All, length-append, length-set,
}
use cse314_operating_system.Base.{dec32}

-- `struct buf`; `refs` is below 2^32.
pub record Buf : Type 0 where
  pub place : ℕ
  pub dev : ℕ
  pub block : ℕ
  pub refs : ℕ
  pub valid : Bool
  pub dirty : Bool

-- NBUF
abbrev pub nbuf : ℕ
nbuf = 30

-- The loop of `binit`: each buffer goes to the front.
pub init_from : (n place : ℕ) → List Buf → List Buf
init_from zero place bs = bs
init_from (suc n) place bs =
    init_from n (place + 1)
      (record { place = place; dev = 0; block = 0; refs = 0; valid = false; dirty = false } ∷ bs)

pub binit : List Buf
binit = init_from nbuf 0 []

abbrev pub is_block : (dev block : ℕ) → Buf → Bool
is_block dev block b = b.dev == dev && b.block == block

-- The first loop of `bget`: the place of the buffer found, and the list.
pub find_cached : (dev block : ℕ) → List Buf → Option (ℕ × List Buf)
find_cached dev block [] = none
find_cached dev block (b ∷ bs) =
    let rest = find_cached dev block bs in
    if is_block dev block b
    then some (b.place, record b { refs = b.refs + 1 } ∷ bs)
    else elim rest [ none ↦ none | some (p, bs') ↦ some (p, b ∷ bs') ]

-- The second loop, from the other end
pub recycle : (dev block : ℕ) → List Buf → Option (ℕ × List Buf)
recycle dev block [] = none
recycle dev block (b ∷ bs) = elim (recycle dev block bs) [
  | some (p, bs') ↦ some (p, b ∷ bs')
  | none ↦
      if b.refs == 0 && not b.dirty
      then some (
        b.place,
        record b { dev = dev; block = block; refs = 1; valid = false; dirty = false } ∷ bs,
      )
      else none
]

-- `none` is the panic.
pub bget : (dev block : ℕ) → List Buf → Option (ℕ × List Buf)
bget dev block bs = elim (find_cached dev block bs) [
  | some r ↦ some r
  | none ↦ recycle dev block bs
]

-- What `bread` and `bwrite` and the log do to the flags of a buffer
pub mark : (place : ℕ) (valid dirty : Bool) → List Buf → List Buf
mark place valid dirty [] = []
mark place valid dirty (b ∷ bs) =
    if b.place == place
    then record b { valid = valid; dirty = dirty } ∷ bs
    else b ∷ mark place valid dirty bs

-- A buffer and the others
pub take_out : (place : ℕ) → List Buf → Option (Buf × List Buf)
take_out place [] = none
take_out place (b ∷ bs) =
    let rest = take_out place bs in
    if b.place == place
    then some (b, bs)
    else elim rest [ none ↦ none | some (x, bs') ↦ some (x, b ∷ bs') ]

pub drop_ref : (place : ℕ) → List Buf → List Buf
drop_ref place [] = []
drop_ref place (b ∷ bs) =
    if b.place == place then record b { refs = dec32 b.refs } ∷ bs else b ∷ drop_ref place bs

pub to_front : Option (Buf × List Buf) → List Buf → List Buf
to_front none bs = bs
to_front (some (b, others)) bs = if b.refs == 0 then b ∷ others else bs

-- `brelse`
pub brelse : (place : ℕ) → List Buf → List Buf
brelse place bs = to_front (take_out place (drop_ref place bs)) (drop_ref place bs)
