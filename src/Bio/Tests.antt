-- ===== src/Bio/Tests.antt =====
-- The cache after a first read.
use cse314_operating_system.Base.{ℕ, ◌≤◌, ◌≡◌, refl, Option, none, some, List, [], arith}
use cse314_operating_system.Bio.{Buf, init_from, binit, find_cached, recycle, bget}
use cse314_operating_system.Bio.Unique.{copies, starts, gets, one_buffer}

-- The least recently used buffer is that of place 0.
abbrev first_read : Option (ℕ × List Buf)
first_read = bget 1 7 binit

abbrev cached : List Buf
cached = elim first_read [ none ↦ [] | some (p, bs) ↦ bs ]

first_read_lem : bget 1 7 binit ≡ some (0, cached)
unfolding bget find_cached recycle binit init_from
first_read_lem = refl

one_buffer_example : copies 1 7 cached ≤ 1
one_buffer_example =
    one_buffer 1 7 (gets 1 7 0 starts first_read_lem) (λ e. absurd (omega (arith, e)))
