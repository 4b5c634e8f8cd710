-- ===== src/Log.antt =====
-- Offline 4/xv6/log.c (the same file in Offline 3/xv6): the write-ahead log of the file system.
-- This module has the bookkeeping under `log.lock`; Log/Disk.antt has what goes to the disk.
pub mod Reserve
pub mod Disk
use cse314_operating_system.Base.{
  ℕ, ◌+◌, ◌-◌, ◌*◌, Bool, true, false, ◌||◌, List, [], ◌∷◌, Option, none, some, ltb, leb, ◌==◌,
  if◌then◌else◌, length,
}

-- MAXOPBLOCKS and LOGSIZE of param.h
abbrev pub max_op_blocks : ℕ
max_op_blocks = 10

abbrev pub log_size : ℕ
log_size = 30

-- `struct log`; `blocks` holds `lh.block[0..lh.n)`. The superblock gives `start` and `size`.
pub record Log : Type 0 where
  pub start : ℕ
  pub size : ℕ
  pub outstanding : ℕ
  pub committing : Bool
  pub blocks : List ℕ

-- `initlog` without the recovery, which is `Disk.recover`
pub init : (start size : ℕ) → Log
init start size = record {
  start = start;
  size = size;
  outstanding = 0;
  committing = false;
  blocks = [];
}

-- One round of the loop of `begin_op`; `none` when the caller goes to sleep on the log.
pub begin_op : Log → Option Log
begin_op l =
    if l.committing
    then none
    else if ltb log_size (length l.blocks + (l.outstanding + 1) * max_op_blocks)
    then none
    else some (record l { outstanding = l.outstanding + 1 })

-- The first section of `end_op`, and whether the caller has to commit; `none` is its panic. The
-- caller has an operation under way, so `outstanding` is not 0.
pub end_op : Log → Option (Log × Bool)
end_op l =
    if l.committing
    then none
    else if l.outstanding == 1
    then some (record l { outstanding = l.outstanding - 1; committing = true }, true)
    else some (record l { outstanding = l.outstanding - 1 }, false)

-- The second one, after `commit`, which has emptied the header.
pub end_commit : Log → Log
end_commit l = record l { committing = false; blocks = [] }

-- The loop of `log_write`: a block that is in the header already is not put there again.
pub absorb : List ℕ → ℕ → List ℕ
absorb [] b = b ∷ []
absorb (x ∷ xs) b = if x == b then b ∷ xs else x ∷ absorb xs b

-- `none` is a panic: "too big a transaction" or "log_write outside of trans".
unfoldable pub log_write : Log → ℕ → Option Log
log_write l b =
    if leb log_size (length l.blocks) || leb (l.size - 1) (length l.blocks)
    then none
    else if ltb l.outstanding 1
    then none
    else some (record l { blocks = absorb l.blocks b })
