-- ===== src/Pipe/System/Keep.antt =====
-- The invariant of a pipe with a writer and a reader, and that a write and a read keep it.
use cse314_operating_system.Base.{
  ℕ, ◌+◌, ◌<◌, ◌≡◌, refl, sym, ap, ap₂, ◌∙◌, ◌⊎◌, inl, inr, Bool, true, false, List, [], ◌++◌,
  append_assoc, arith, take, drop, drop-nil, length, min, length-take, take-append-drop,
  take-sub-drop, length-append,
}
use cse314_operating_system.Pipe.{Pipe, Outcome, returned, failed, asleep, Written, Got}
use cse314_operating_system.Pipe.Inv.{IsValid, used, contents, window, length-window}
use cse314_operating_system.Pipe.Refine.{Writes, write_ends, wakes, room}
use cse314_operating_system.Pipe.Read.{Reads, read_ends, read_wakes}
use cse314_operating_system.Pipe.System.{
  Task, idle, ready, sleeping, System, rouse, wrote, got, after, rouse_if, wakes_reader,
  wakes_writer,
}

-- Why a process may be asleep.
abbrev pub WriterWaits : Pipe → (killed : Bool) → Task (List ℕ) → Type 0
WriterWaits p killed (sleeping bs) = (used p ≡ 512) × (p.readopen ≡ true) × (killed ≡ false)
WriterWaits p killed _ = Unit

abbrev pub ReaderWaits : Pipe → (writer_killed killed : Bool) → Task ℕ → Type 0
ReaderWaits p writer_killed killed (sleeping n) =
    ((used p ≡ 0) ⊎ (writer_killed ≡ true))
    × (p.readopen ≡ true)
    × (p.writeopen ≡ true)
    × (killed ≡ false)
ReaderWaits p writer_killed killed _ = Unit

-- A process in a call holds its end of the pipe open.
abbrev pub InCall : {A : Type 0} → Bool → Task A → Type 0
InCall is_open idle = Unit
InCall is_open _ = is_open ≡ true

pub record Inv (s : System) : Type 0 where
  pub valid : IsValid s.pipe
  pub stream : s.sent ≡ s.received ++ contents s.pipe
  pub writer_waits : WriterWaits s.pipe s.writer_killed s.writer
  pub reader_waits : ReaderWaits s.pipe s.writer_killed s.reader_killed s.reader
  pub writer_in : InCall s.pipe.writeopen s.writer
  pub reader_in : InCall s.pipe.readopen s.reader

pub WriterWaits-rouse :
    (p : Pipe) (killed : Bool) (t : Task (List ℕ)) → WriterWaits p killed (rouse t)
WriterWaits-rouse p killed idle = tt
WriterWaits-rouse p killed _ = tt

pub ReaderWaits-rouse :
    (p : Pipe) (writer_killed killed : Bool) (t : Task ℕ)
    → ReaderWaits p writer_killed killed (rouse t)
ReaderWaits-rouse p writer_killed killed idle = tt
ReaderWaits-rouse p writer_killed killed _ = tt

pub InCall-rouse :
    {A : Type 0} (is_open : Bool) (t : Task A) → InCall is_open t → InCall is_open (rouse t)
InCall-rouse is_open idle h = tt
InCall-rouse is_open (ready a) h = h
InCall-rouse is_open (sleeping a) h = h

InCall-rouse_if :
    {A : Type 0} (b is_open : Bool) (t : Task A) → InCall is_open t → InCall is_open (rouse_if b t)
InCall-rouse_if true is_open t h = InCall-rouse is_open t h
InCall-rouse_if false is_open t h = h

InCall-after :
    {A : Type 0} (o : Outcome) (is_open : Bool) (a : A)
    → is_open ≡ true
    → InCall is_open (after o a)
InCall-after returned is_open a h = tt
InCall-after failed is_open a h = tt
InCall-after asleep is_open a h = h

pub used-length : (p : Pipe) → used p ≡ length (contents p)
used-length p = sym (length-window p.buf p.nread (used p))

module _ {killed : Bool} {p : Pipe} {bs : List ℕ} {w : Written} (v : IsValid p)
    (h : Writes killed p bs w) where
  pub used-wrote : used w.pipe ≡ used p + min (room p) (length bs)
  used-wrote =
      used-length w.pipe
      ∙ ap length h.queue
      ∙ length-append (contents p) (take (room p) bs)
      ∙ ap₂ ◌+◌ (sym (used-length p)) (length-take (room p) bs)

  wrote-WriterWaits :
      (o : Outcome)
      → o ≡ write_ends killed p.readopen (room p) (length bs)
      → WriterWaits w.pipe killed (after o w.rest)
  wrote-WriterWaits returned e = tt
  wrote-WriterWaits failed e = tt
  wrote-WriterWaits asleep e =
      (omega (arith, used-wrote, full), h.readopen_kept ∙ ground arith, ground arith)
    where
      full : room p < length bs
      full = ground arith

  wrote-ReaderWaits :
      (reader_killed : Bool) (o : Outcome) (t : Task ℕ)
      → o ≡ write_ends killed p.readopen (room p) (length bs)
      → ReaderWaits p killed reader_killed t
      → ReaderWaits w.pipe killed reader_killed (rouse_if (wakes_reader (wakes o)) t)
  wrote-ReaderWaits reader_killed failed idle e r = tt
  wrote-ReaderWaits reader_killed failed (ready n) e r = tt
  wrote-ReaderWaits reader_killed failed (sleeping n) e r =
      (inr (ground arith), h.readopen_kept ∙ r.1, h.writeopen_kept ∙ r.2, r.3)
  wrote-ReaderWaits reader_killed returned t e r = ReaderWaits-rouse w.pipe killed reader_killed t
  wrote-ReaderWaits reader_killed asleep t e r = ReaderWaits-rouse w.pipe killed reader_killed t

pub wrote-Inv :
    {s : System} (bs : List ℕ) (w : Written)
    → Inv s
    → s.pipe.writeopen ≡ true
    → Writes s.writer_killed s.pipe bs w
    → Inv (wrote s bs w)
wrote-Inv {s} bs w i is_open h = record {
  valid = h.valid;
  stream =
      rw (h.queue, h.rest, take-sub-drop (room s.pipe) bs, i.stream)
        (append_assoc s.received (contents s.pipe) (take (room s.pipe) bs));
  writer_waits = wrote-WriterWaits i.valid h w.outcome h.outcome;
  reader_waits =
      rw h.woken
        (wrote-ReaderWaits i.valid h s.reader_killed w.outcome s.reader h.outcome i.reader_waits);
  writer_in = InCall-after w.outcome w.pipe.writeopen w.rest (h.writeopen_kept ∙ is_open);
  reader_in = rw h.readopen_kept (InCall-rouse_if _ s.pipe.readopen s.reader i.reader_in);
}

module _ {killed : Bool} {p : Pipe} {n : ℕ} {g : Got} (v : IsValid p) (h : Reads killed p n g) where
  got-ReaderWaits :
      (writer_killed : Bool) (o : Outcome)
      → o ≡ read_ends killed p.writeopen (used p)
      → p.readopen ≡ true
      → ReaderWaits g.pipe writer_killed killed (after o n)
  got-ReaderWaits writer_killed returned e is_open = tt
  got-ReaderWaits writer_killed failed e is_open = tt
  got-ReaderWaits writer_killed asleep e is_open = (
    inl (used-length g.pipe ∙ ap length (h.queue ∙ ap (drop n) nothing ∙ drop-nil ℕ n)),
    h.readopen_kept ∙ is_open,
    h.writeopen_kept ∙ ground arith,
    ground arith,
  )
    where
      none_used : used p ≡ 0
      none_used = ground arith

      nothing : contents p ≡ []
      nothing = ap (window p.buf p.nread) none_used

  got-WriterWaits :
      (writer_killed : Bool) (o : Outcome) (t : Task (List ℕ))
      → o ≡ read_ends killed p.writeopen (used p)
      → WriterWaits p writer_killed t
      → WriterWaits g.pipe writer_killed (rouse_if (wakes_writer (read_wakes o)) t)
  got-WriterWaits writer_killed returned t e r = WriterWaits-rouse g.pipe writer_killed t
  got-WriterWaits writer_killed _ idle e r = tt
  got-WriterWaits writer_killed _ (ready bs) e r = tt
  got-WriterWaits writer_killed _ (sleeping bs) e r = absurd (omega (arith, r.0, none_used))
    where
      none_used : used p ≡ 0
      none_used = ground arith

pub got-Inv :
    {s : System} (n : ℕ) (g : Got)
    → Inv s
    → s.pipe.readopen ≡ true
    → Reads s.reader_killed s.pipe n g
    → Inv (got s n g)
got-Inv {s} n g i is_open h = record {
  valid = h.valid;
  stream =
      i.stream
      ∙ rw (h.bytes, h.queue, append_assoc)
          (ap (◌++◌ s.received) (sym (take-append-drop n (contents s.pipe))));
  writer_waits =
      rw h.woken
        (got-WriterWaits i.valid h s.writer_killed g.outcome s.writer h.outcome i.writer_waits);
  reader_waits = got-ReaderWaits i.valid h s.writer_killed g.outcome h.outcome is_open;
  writer_in = rw h.writeopen_kept (InCall-rouse_if _ s.pipe.writeopen s.writer i.writer_in);
  reader_in = InCall-after g.outcome g.pipe.readopen n (h.readopen_kept ∙ is_open);
}

pub same-IsValid :
    {p q : Pipe} → IsValid p → q.buf ≡ p.buf → q.nread ≡ p.nread → q.nwrite ≡ p.nwrite → IsValid q
same-IsValid v b r w = record {
  storage = ap length b ∙ v.storage;
  nread_lt = omega arith;
  nwrite_lt = omega arith;
  used_le = rw (r, w) v.used_le;
}

pub ReaderWaits-killed :
    (p : Pipe) (writer_killed killed : Bool) (t : Task ℕ)
    → ReaderWaits p writer_killed killed t
    → ReaderWaits p true killed t
ReaderWaits-killed p writer_killed killed idle h = tt
ReaderWaits-killed p writer_killed killed (ready n) h = tt
ReaderWaits-killed p writer_killed killed (sleeping n) h = (inr refl, h.1, h.2, h.3)
