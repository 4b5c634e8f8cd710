-- ===== src/Pipe/System.antt =====
-- A writing and a reading process over one pipe, a section of a call at a time, in any order.
pub mod Keep
pub mod Safety
mod Tests
use cse314_operating_system.Base.{ℕ, ◌-◌, ◌≡◌, Bool, true, false, List, [], ◌∷◌, ◌++◌, length, take}
use cse314_operating_system.Pipe.{
  Pipe, Chan, at_nread, at_nwrite, Outcome, returned, failed, asleep, fresh, Written, write_from,
  Got, read_from, close,
}

-- What a process is doing with the pipe: nothing, about to go round the loop's test with what is
-- left of its call, or asleep there.
pub data Task (A : Type 0) : Type 0 where
  idle : Task A
  ready : A → Task A
  sleeping : A → Task A

pub record System : Type 0 where
  pub pipe : Pipe
  pub writer : Task (List ℕ)
  pub reader : Task ℕ
  pub writer_killed : Bool
  pub reader_killed : Bool
  pub sent : List ℕ  -- every byte stored so far
  pub received : List ℕ  -- every byte handed out so far

-- `wakeup`, of a process that sleeps in a call.
abbrev pub rouse : {A : Type 0} → Task A → Task A
rouse idle = idle
rouse (ready a) = ready a
rouse (sleeping a) = ready a

abbrev pub wakes_reader : List Chan → Bool
wakes_reader [] = false
wakes_reader (at_nread ∷ cs) = true
wakes_reader (at_nwrite ∷ cs) = wakes_reader cs

abbrev pub wakes_writer : List Chan → Bool
wakes_writer [] = false
wakes_writer (at_nwrite ∷ cs) = true
wakes_writer (at_nread ∷ cs) = wakes_writer cs

abbrev pub rouse_if : {A : Type 0} → Bool → Task A → Task A
rouse_if true t = rouse t
rouse_if false t = t

abbrev pub after : {A : Type 0} → Outcome → A → Task A
after asleep a = sleeping a
after _ a = idle

abbrev pub wrote : System → List ℕ → Written → System
wrote s bs w = record s {
  pipe = w.pipe;
  writer = after w.outcome w.rest;
  reader = rouse_if (wakes_reader w.woken) s.reader;
  sent = s.sent ++ take (length bs - length w.rest) bs;
}

abbrev pub got : System → ℕ → Got → System
got s n g = record s {
  pipe = g.pipe;
  reader = after g.outcome n;
  writer = rouse_if (wakes_writer g.woken) s.writer;
  received = s.received ++ g.bytes;
}

-- A section of `pipewrite` and one of `piperead`.
pub run_write : System → List ℕ → System
run_write s bs = wrote s bs (write_from s.writer_killed s.pipe bs)

pub run_read : System → ℕ → System
run_read s n = got s n (read_from s.reader_killed s.pipe n)

-- `pipeclose` of an end, by a process that is in no call.
pub close_write : System → System
unfolding close
close_write s = record s {
  pipe = (close s.pipe true).0;
  reader = rouse_if (wakes_reader ((close s.pipe true).1 ∷ [])) s.reader;
}

pub close_read : System → System
unfolding close
close_read s = record s {
  pipe = (close s.pipe false).0;
  writer = rouse_if (wakes_writer ((close s.pipe false).1 ∷ [])) s.writer;
}

pub init : List ℕ → System
init page = record {
  pipe = fresh page;
  writer = idle;
  reader = idle;
  writer_killed = false;
  reader_killed = false;
  sent = [];
  received = [];
}

-- `kill` of proc.c marks a process and rouses it.
pub data Step (s : System) : System → Type 0 where
  start_write : (bs : List ℕ) → s.writer ≡ idle → s.pipe.writeopen ≡ true → Step s (run_write s bs)
  resume_write : (bs : List ℕ) → s.writer ≡ ready bs → Step s (run_write s bs)
  start_read : (n : ℕ) → s.reader ≡ idle → s.pipe.readopen ≡ true → Step s (run_read s n)
  resume_read : (n : ℕ) → s.reader ≡ ready n → Step s (run_read s n)
  end_write : s.writer ≡ idle → s.pipe.writeopen ≡ true → Step s (close_write s)
  end_read : s.reader ≡ idle → s.pipe.readopen ≡ true → Step s (close_read s)
  kill_writer : Step s (record s { writer = rouse s.writer; writer_killed = true })
  kill_reader : Step s (record s { reader = rouse s.reader; reader_killed = true })

pub data Reach (page : List ℕ) : System → Type 0 where
  start : Reach page (init page)
  later : {s t : System} → Reach page s → Step s t → Reach page t
