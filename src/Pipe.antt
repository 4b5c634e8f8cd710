-- ===== src/Pipe.antt =====
-- Offline 4/xv6/pipe.c (the same file in Offline 3/xv6): a ring of 512 bytes between two file ends.
-- A call runs under `p->lock` from its start, or from the return of `sleep`, to its end or to the
-- next `sleep`; one such section is one call of `write_from` or `read_from` below.
pub mod Inv
pub mod Refine
pub mod Read
pub mod System
use cse314_operating_system.Base.{
  uint, ℕ, zero, suc, ◌+◌, ◌%◌, ◌^◌, Bool, true, false, not, ◌&&◌, ◌||◌, List, [], ◌∷◌, ◌==◌,
  if◌then◌else◌, get_or, set,
}

abbrev pub pipe_size : ℕ
pipe_size = 512

pub record Pipe : Type 0 where
  pub buf : List ℕ  -- `data`
  pub nread : ℕ
  pub nwrite : ℕ
  pub readopen : Bool
  pub writeopen : Bool

-- The channels `&p->nread` and `&p->nwrite`.
pub data Chan : Type 0 where
  at_nread at_nwrite : Chan

pub data Outcome : Type 0 where
  returned failed asleep : Outcome

-- `pipealloc`, once both files and the page are there. The page is what `kalloc` left in it.
pub fresh : List ℕ → Pipe
fresh page = record { buf = page; nread = 0; nwrite = 0; readopen = true; writeopen = true }

pub is_full : Pipe → Bool
is_full p = p.nwrite == uint (p.nread + pipe_size)

pub is_empty : Pipe → Bool
is_empty p = p.nread == p.nwrite

-- `p->data[p->nwrite++ % PIPESIZE] = b`
pub put : Pipe → ℕ → Pipe
put p b = record p { buf = set p.buf (p.nwrite % pipe_size) b; nwrite = uint (p.nwrite + 1) }

-- How a section of `pipewrite` ends: `rest` is `addr[i..n)`, `woken` the channels in order.
pub record Written : Type 0 where
  pub pipe : Pipe
  pub rest : List ℕ
  pub woken : List Chan
  pub outcome : Outcome

pub write_from : Bool → Pipe → List ℕ → Written
write_from killed p [] = record { pipe = p; rest = []; woken = at_nread ∷ []; outcome = returned }
write_from killed p (b ∷ bs) =
    if is_full p
    then if not p.readopen || killed
      then record { pipe = p; rest = b ∷ bs; woken = []; outcome = failed }
      else record { pipe = p; rest = b ∷ bs; woken = at_nread ∷ []; outcome = asleep }
    else write_from killed (put p b) bs

-- The copying loop of `piperead`: at most `n` bytes.
pub copy : ℕ → Pipe → List ℕ × Pipe
copy zero p = ([], p)
copy (suc n) p =
    let b = get_or p.buf (p.nread % pipe_size) 0 in
    let (bs, p') = copy n (record p { nread = uint (p.nread + 1) }) in
    if is_empty p then ([], p) else (b ∷ bs, p')

pub record Got : Type 0 where
  pub pipe : Pipe
  pub bytes : List ℕ
  pub woken : List Chan
  pub outcome : Outcome

pub read_from : Bool → Pipe → ℕ → Got
read_from killed p n =
    if is_empty p && p.writeopen
    then if killed
      then record { pipe = p; bytes = []; woken = []; outcome = failed }
      else record { pipe = p; bytes = []; woken = []; outcome = asleep }
    else let (bs, p') = copy n p in
      record { pipe = p'; bytes = bs; woken = at_nwrite ∷ []; outcome = returned }

-- `pipeclose`: the pipe, the channel woken, and whether the page is freed.
pub close : Pipe → Bool → Pipe × Chan × Bool
close p true = (record p { writeopen = false }, at_nread, not p.readopen)
close p false = (record p { readopen = false }, at_nwrite, not p.writeopen)
