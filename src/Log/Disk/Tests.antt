-- ===== src/Log/Disk/Tests.antt =====
-- A transaction of two blocks that crashes, and the theorems on it.
use cse314_operating_system.Base.{
  ℕ, ◌≡◌, refl, fun_ext, false, List, [], ◌∷◌, arith, ◌==◌, if◌then◌else◌, take,
}
use cse314_operating_system.Log.Disk.{
  Disk, apply, commit, recover, write_log, write_head, install_trans, header_block, read_head,
  read_words,
}
use cse314_operating_system.Log.Disk.Plan.{mem}
use cse314_operating_system.Log.Disk.Recover.{recover-recover}
use cse314_operating_system.Log.Disk.Crash.{recover-commit}

abbrev changed : List ℕ
changed = 40 ∷ 41 ∷ []

abbrev old_disk : Disk
old_disk a i = 0

abbrev buffers : Disk
buffers a i = if a == 40 then 7 else if a == 41 then 8 else 0

-- The log is blocks 2 to 31.
abbrev crashed : ℕ → Disk
crashed k = apply (take k (commit 2 changed buffers).1) old_disk

crash_before_header : (recover 2 (crashed 2)).0 41 0 ≡ 0
unfolding commit recover write_log write_head install_trans header_block read_head read_words
crash_before_header = refl

crash_after_header : (recover 2 (crashed 3)).0 41 0 ≡ 8
unfolding commit recover write_log write_head install_trans header_block read_head read_words
crash_after_header = refl

buffers_clean : (b : ℕ) → mem b changed ≡ false → buffers b ≡ old_disk b
buffers_clean b h = fun_ext λ i. ground arith

recover-commit_example : (recover 2 (crashed 3)).0 41 ≡ buffers 41
recover-commit_example =
    recover-commit 2 30 changed old_disk buffers (omega arith) (omega arith) buffers_clean 3 41
      (omega arith) refl (omega arith)

-- A disk on which a commit has just reached its header.
abbrev logged_disk : Disk
logged_disk a i =
    if a == 2 then if i == 0 then 1 else if i == 1 then 40 else 0 else if a == 3 then 7 else 0

recover-recover_example :
    (recover 2 (apply (take 1 (recover 2 logged_disk).1) logged_disk)).0 40
    ≡ (recover 2 logged_disk).0 40
unfolding read_head read_words
recover-recover_example =
    recover-recover 2 30 logged_disk (omega arith) (omega arith) 1 40 (omega arith)
