-- ===== src/Pipe/System/Tests.antt =====
-- Runs of the pipe, and the theorems at concrete pipes.
use cse314_operating_system.Base.{
  ℕ, ◌-◌, ◌^◌, ◌≡◌, refl, ◌≢◌, true, false, List, [], ◌∷◌, ◌++◌, arith, length, replicate,
}
use cse314_operating_system.Pipe.{
  Pipe, failed, is_full, is_empty, put, fresh, write_from, copy, read_from,
}
use cse314_operating_system.Pipe.Inv.{IsValid, contents}
use cse314_operating_system.Pipe.Refine.{Writes, write_from-Writes}
use cse314_operating_system.Pipe.Read.{Reads, read_from-Reads}
use cse314_operating_system.Pipe.System.{
  System, sleeping, run_write, run_read, init, start_write, start_read, Reach, start, later,
}
use cse314_operating_system.Pipe.System.Safety.{
  received-append-contents, no_deadlock, killed_writer_wakes_nobody,
}

abbrev page : List ℕ
page = replicate 512 0

length-page : length page ≡ 512
length-page = refl

-- Two bytes at the point where both counters wrap.
abbrev wrapping : Pipe
wrapping = record { buf = page; nread = 2 ^ 32 - 2; nwrite = 0; readopen = true; writeopen = true }

wrapping-IsValid : IsValid wrapping
wrapping-IsValid = omega arith

write_wraps : contents (write_from false wrapping (7 ∷ 8 ∷ [])).pipe ≡ 0 ∷ 0 ∷ 7 ∷ 8 ∷ []
unfolding write_from is_full put
write_wraps = refl

read_wraps : (read_from false wrapping 5).bytes ≡ 0 ∷ 0 ∷ []
unfolding read_from copy is_empty
read_wraps = refl

write_from-Writes_example :
    Writes false wrapping (7 ∷ 8 ∷ []) (write_from false wrapping (7 ∷ 8 ∷ []))
write_from-Writes_example = write_from-Writes false wrapping (7 ∷ 8 ∷ []) wrapping-IsValid

read_from-Reads_example : Reads false wrapping 5 (read_from false wrapping 5)
read_from-Reads_example = read_from-Reads false wrapping 5 wrapping-IsValid

abbrev waiting : System
waiting = run_read (init page) 5

waiting_reached : Reach page waiting
unfolding init fresh
waiting_reached = later start (start_read 5 refl refl)

abbrev filled : System
filled = run_write (init page) (replicate 513 9)

filled_reached : Reach page filled
unfolding init fresh
filled_reached = later start (start_write (replicate 513 9) refl refl)

waiting_reader : waiting.reader ≡ sleeping 5
unfolding run_read init fresh read_from is_empty
waiting_reader = refl

filled_writer : filled.writer ≡ sleeping (9 ∷ [])
unfolding run_write init fresh write_from is_full put
filled_writer = refl

received-append-contents_example : waiting.sent ≡ waiting.received ++ contents waiting.pipe
received-append-contents_example = received-append-contents (length-page) waiting_reached

no_deadlock_example : filled.reader ≢ sleeping 5
no_deadlock_example = no_deadlock (9 ∷ []) 5 (length-page) filled_reached filled_writer

killed_writer_wakes_nobody_example :
    let w = write_from true (fresh page) (replicate 513 9) in
    (w.outcome ≡ failed) × (w.woken ≡ []) × (length (contents w.pipe) ≡ 512)
unfolding fresh
killed_writer_wakes_nobody_example =
    killed_writer_wakes_nobody (fresh page) (replicate 513 9)
      (record {
        storage = refl;
        nread_lt = omega arith;
        nwrite_lt = omega arith;
        used_le = omega arith;
      })
      refl (omega arith)
