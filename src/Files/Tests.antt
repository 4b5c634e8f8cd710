-- ===== src/Files/Tests.antt =====
-- Descriptors at concrete inputs.
use cse314_operating_system.Base.{
  ℕ, ◌≡◌, refl, true, false, none, some, List, [], ◌∷◌, arith, replicate,
}
use cse314_operating_system.Files.{
  File, fd_inode, no_file, Ofile, State, filealloc, filedup, fileclose, after_close, fdalloc, argfd,
  sys_dup, open_file, dup_all, fork_files, close_all, exit_files,
}
use cse314_operating_system.Files.Steps.{
  dups, opens, forks, exits, run, Allowed, Counted, initial, Reach, start, later, Kept, Reach-Safe,
}

-- A table whose first file, inode 7 for reading, has `ref` references
abbrev one_file : (ref : ℕ) → List File
one_file ref =
    record { ref = ref; kind = fd_inode 7; readable = true; writable = false; off = 0 }
    ∷ replicate 99 no_file

abbrev one_open : Ofile
one_open = some 0 ∷ replicate 15 none

-- One process has it open
abbrev opened : State
opened = record { files = one_file 1; procs = one_open ∷ replicate 16 none ∷ [] }

-- and its child too
abbrev forked : State
forked = record { files = one_file 2; procs = one_open ∷ one_open ∷ [] }

open_step : run (initial 2) (opens 0 7 true false) ≡ some opened
unfolding run open_file filealloc fdalloc
open_step = refl

fork_step : run opened (forks 0 1) ≡ some forked
unfolding run fork_files dup_all filedup
fork_step = refl

exit_step : run forked (exits 1) ≡ some opened
unfolding run exit_files close_all fileclose after_close
exit_step = refl

dup_step :
    run opened (dups 0 0)
    ≡ some (record {
      files = one_file 2;
      procs = (some 0 ∷ some 0 ∷ replicate 14 none) ∷ replicate 16 none ∷ [];
    })
unfolding run sys_dup argfd fdalloc filedup
dup_step = refl

first-Allowed : Allowed (initial 2) (opens 0 7 true false)
unfolding Allowed
first-Allowed = omega arith

fork-Allowed : Allowed opened (forks 0 1)
unfolding Allowed
fork-Allowed = (omega arith, λ g. refl)

exit-Allowed : Allowed forked (exits 1)
unfolding Allowed
exit-Allowed = omega arith

forked-Reach : Reach 2 forked
forked-Reach =
    later (forks 0 1) (later (opens 0 7 true false) start first-Allowed open_step) fork-Allowed
      fork_step

Reach-Safe_example : Counted forked × Kept (run forked (exits 1))
Reach-Safe_example = Reach-Safe 2 forked (exits 1) forked-Reach exit-Allowed
