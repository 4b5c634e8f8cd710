-- ===== src/Pipe/System/Safety.antt =====
-- What holds in every state that the two processes can reach.
use cse314_operating_system.Base.{
  ℕ, ◌<◌, ◌≡◌, refl, sym, ap, subst, ◌∙◌, ◌≢◌, ◌⊎◌, true, false, List, [], ◌++◌, arith, length,
}
use cse314_operating_system.Pipe.{Pipe, failed, fresh, write_from}
use cse314_operating_system.Pipe.Inv.{IsValid, used, contents}
use cse314_operating_system.Pipe.Refine.{write_from-Writes, wakes}
use cse314_operating_system.Pipe.Read.{read_from-Reads}
use cse314_operating_system.Pipe.System.{
  sleeping, System, run_write, run_read, close_write, close_read, init, Step, start_write,
  resume_write, start_read, resume_read, end_write, end_read, kill_writer, kill_reader, Reach,
  start, later,
}
use cse314_operating_system.Pipe.System.Keep.{
  used-wrote, InCall-rouse, Inv, ReaderWaits, ReaderWaits-killed, ReaderWaits-rouse, WriterWaits,
  WriterWaits-rouse, got-Inv, same-IsValid, used-length, wrote-Inv,
}

-- Every step of either process keeps the invariant.
pub Step-Inv : {s t : System} → Step s t → Inv s → Inv t
unfolding run_write run_read close_write close_read
Step-Inv {s} (start_write bs e is_open) i =
    wrote-Inv bs _ i is_open (write_from-Writes s.writer_killed s.pipe bs i.valid)
Step-Inv {s} (resume_write bs e) i =
    wrote-Inv bs _ i (ground arith) (write_from-Writes s.writer_killed s.pipe bs i.valid)
Step-Inv {s} (start_read n e is_open) i =
    got-Inv n _ i is_open (read_from-Reads s.reader_killed s.pipe n i.valid)
Step-Inv {s} (resume_read n e) i =
    got-Inv n _ i (ground arith) (read_from-Reads s.reader_killed s.pipe n i.valid)
Step-Inv {s} (end_write e is_open) i = record {
  valid = same-IsValid i.valid refl refl refl;
  stream = i.stream;
  writer_waits = rw e tt;
  reader_waits =
      ReaderWaits-rouse (record s.pipe { writeopen = false }) s.writer_killed s.reader_killed
        s.reader;
  writer_in = rw e tt;
  reader_in = InCall-rouse s.pipe.readopen s.reader i.reader_in;
}
Step-Inv {s} (end_read e is_open) i = record {
  valid = same-IsValid i.valid refl refl refl;
  stream = i.stream;
  writer_waits = WriterWaits-rouse (record s.pipe { readopen = false }) s.writer_killed s.writer;
  reader_waits = rw e tt;
  writer_in = InCall-rouse s.pipe.writeopen s.writer i.writer_in;
  reader_in = rw e tt;
}
Step-Inv {s} kill_writer i = record {
  valid = i.valid;
  stream = i.stream;
  writer_waits = WriterWaits-rouse s.pipe true s.writer;
  reader_waits = ReaderWaits-killed s.pipe s.writer_killed s.reader_killed s.reader i.reader_waits;
  writer_in = InCall-rouse s.pipe.writeopen s.writer i.writer_in;
  reader_in = i.reader_in;
}
Step-Inv {s} kill_reader i = record {
  valid = i.valid;
  stream = i.stream;
  writer_waits = i.writer_waits;
  reader_waits = ReaderWaits-rouse s.pipe s.writer_killed true s.reader;
  writer_in = i.writer_in;
  reader_in = InCall-rouse s.pipe.readopen s.reader i.reader_in;
}

pub init-Inv : (page : List ℕ) → length page ≡ 512 → Inv (init page)
unfolding init fresh
init-Inv page h = record {
  valid = omega arith;
  stream = refl;
  writer_waits = tt;
  reader_waits = tt;
  writer_in = tt;
  reader_in = tt;
}

pub Reach-Inv : {page : List ℕ} {s : System} → length page ≡ 512 → Reach page s → Inv s
Reach-Inv {page} len start = init-Inv page len
Reach-Inv len (later r st) = Step-Inv st (Reach-Inv len r)

-- Whatever the two processes do from a new pipe of 512 bytes, the bytes stored are, in order, those
-- handed out followed by those that the ring holds.
pub received-append-contents :
    {page : List ℕ} {s : System}
    → length page ≡ 512
    → Reach page s
    → s.sent ≡ s.received ++ contents s.pipe
received-append-contents len r = (Reach-Inv len r).stream

-- The two processes are never asleep in the pipe together, whatever they do from a new pipe of 512
-- bytes.
pub no_deadlock :
    {page : List ℕ} {s : System} (bs : List ℕ) (n : ℕ)
    → length page ≡ 512
    → Reach page s
    → s.writer ≡ sleeping bs
    → s.reader ≢ sleeping n
no_deadlock bs n len r w e = ground (arith, Reach-Inv len r)

-- No wakeup of a writer is lost: whatever the two processes do from a new pipe of 512 bytes, one
-- that sleeps in `pipewrite` faces a full ring with its read end open, and has not been killed.
writer_sleeps_for_cause :
    {page : List ℕ} {s : System} (bs : List ℕ)
    → length page ≡ 512
    → Reach page s
    → s.writer ≡ sleeping bs
    → (length (contents s.pipe) ≡ 512) × (s.pipe.readopen ≡ true) × (s.writer_killed ≡ false)
writer_sleeps_for_cause {s} bs len r e =
    let w = subst (WriterWaits s.pipe s.writer_killed) e (Reach-Inv len r).writer_waits in
    (sym (used-length s.pipe) ∙ w.0, w.1, w.2)

-- Whatever the two processes do from a new pipe of 512 bytes, one that sleeps in `piperead` has the
-- write end open and has not been killed, and the ring is empty unless the writer has been killed.
pub reader_sleeps_for_cause :
    {page : List ℕ} {s : System} (n : ℕ)
    → length page ≡ 512
    → Reach page s
    → s.reader ≡ sleeping n
    → ((length (contents s.pipe) ≡ 0) ⊎ (s.writer_killed ≡ true))
      × (s.pipe.writeopen ≡ true)
      × (s.reader_killed ≡ false)
reader_sleeps_for_cause {s} n len r e =
    let w =
      subst (ReaderWaits s.pipe s.writer_killed s.reader_killed) e (Reach-Inv len r).reader_waits in
    (ground (arith, used-length s.pipe), w.2, w.3)

-- A killed writer that has more than 512 bytes to send into an empty pipe fills it, returns -1, and
-- wakes no reader.
pub killed_writer_wakes_nobody :
    (p : Pipe) (bs : List ℕ)
    → IsValid p
    → contents p ≡ []
    → 512 < length bs
    → let w = write_from true p bs in
      (w.outcome ≡ failed) × (w.woken ≡ []) × (length (contents w.pipe) ≡ 512)
killed_writer_wakes_nobody p bs v e long =
    let h = write_from-Writes true p bs v in
    let none_used : used p ≡ 0 = used-length p ∙ ap length e in
    let out : (write_from true p bs).outcome ≡ failed = h.outcome ∙ ground arith in
    (
      out,
      h.woken ∙ ap wakes out,
      sym (used-length (write_from true p bs).pipe) ∙ used-wrote v h ∙ omega arith,
    )
