-- ===== src/Pipe/Read.antt =====
-- What one section of `piperead` does to the byte queue of the pipe.
use cse314_operating_system.Base.{
  ℕ, zero, suc, ◌%◌, ◌≡◌, refl, ap, ◌≢◌, inl, inr, Bool, true, false, ◌&&◌, List, [], ◌∷◌, arith,
  Bool-cases, ◌==◌, if◌then◌else◌, get_or, take, drop, take-nil, drop-nil,
}
use cse314_operating_system.Pipe.{
  Pipe, Chan, at_nwrite, Outcome, returned, failed, asleep, is_empty, copy, Got, read_from,
}
use cse314_operating_system.Pipe.Inv.{
  IsValid, used, contents, is_empty_iff, advance, advance-IsValid, contents-advance, window,
}

contents-empty : {p : Pipe} → IsValid p → is_empty p ≡ true → contents p ≡ []
contents-empty {p} v e =
    let none_used : used p ≡ 0 = (is_empty_iff v).0 e in ap (window p.buf p.nread) none_used

record Copies (p : Pipe) (n : ℕ) (r : List ℕ × Pipe) : Type 0 where
  valid : IsValid r.1
  bytes : r.0 ≡ take n (contents p)
  queue : contents r.1 ≡ drop n (contents p)
  readopen_kept : r.1.readopen ≡ p.readopen
  writeopen_kept : r.1.writeopen ≡ p.writeopen

copy-Copies : (n : ℕ) (p : Pipe) → IsValid p → Copies p n (copy n p)
unfolding copy
copy-Copies zero p v = record {
  valid = v;
  bytes = refl;
  queue = refl;
  readopen_kept = refl;
  writeopen_kept = refl;
}
copy-Copies (suc n) p v = elim (Bool-cases (is_empty p)) [
  | inl none_left ↦ rw none_left (record {
    valid = v;
    bytes = rw (contents-empty v none_left);
    queue = rw (contents-empty v none_left);
    readopen_kept = refl;
    writeopen_kept = refl;
  })
  | inr more ↦
      let ne : used p ≢ 0 = ground (arith, is_empty_iff v) in
      let later = copy-Copies n (advance p) (advance-IsValid v ne) in
      rw more (record {
        valid = later.valid;
        bytes = rw (contents-advance v ne) (ap (◌∷◌ (get_or p.buf (p.nread % 512) 0)) later.bytes);
        queue = rw (contents-advance v ne) later.queue;
        readopen_kept = later.readopen_kept;
        writeopen_kept = later.writeopen_kept;
      })
]

-- How a section of `piperead` ends, at a ring that holds `count` bytes.
abbrev pub read_ends : (killed writeopen : Bool) (count : ℕ) → Outcome
read_ends killed writeopen count =
    if count == 0 && writeopen then if killed then failed else asleep else returned

abbrev pub read_wakes : Outcome → List Chan
read_wakes returned = at_nwrite ∷ []
read_wakes _ = []

pub record Reads (killed : Bool) (p : Pipe) (n : ℕ) (g : Got) : Type 0 where
  pub valid : IsValid g.pipe
  pub bytes : g.bytes ≡ take n (contents p)
  pub queue : contents g.pipe ≡ drop n (contents p)
  pub outcome : g.outcome ≡ read_ends killed p.writeopen (used p)
  pub woken : g.woken ≡ read_wakes g.outcome
  pub readopen_kept : g.pipe.readopen ≡ p.readopen
  pub writeopen_kept : g.pipe.writeopen ≡ p.writeopen

read-stalled :
    (killed : Bool) {p : Pipe} (n : ℕ)
    → IsValid p
    → (is_empty p && p.writeopen) ≡ true
    → Reads killed p n (
        if killed
        then record { pipe = p; bytes = []; woken = []; outcome = failed }
        else record { pipe = p; bytes = []; woken = []; outcome = asleep })
read-stalled true {p} n v e =
    let none_left : contents p ≡ [] = contents-empty v (ground arith) in
    record {
      valid = v;
      bytes = rw (none_left, take-nil ℕ n);
      queue = rw (none_left, drop-nil ℕ n);
      outcome = ground (arith, is_empty_iff v);
      woken = refl;
      readopen_kept = refl;
      writeopen_kept = refl;
    }
read-stalled false {p} n v e =
    let none_left : contents p ≡ [] = contents-empty v (ground arith) in
    record {
      valid = v;
      bytes = rw (none_left, take-nil ℕ n);
      queue = rw (none_left, drop-nil ℕ n);
      outcome = ground (arith, is_empty_iff v);
      woken = refl;
      readopen_kept = refl;
      writeopen_kept = refl;
    }

-- For a pipe whose ring is valid, one section of `piperead` of `n` bytes hands out the first `n` of the
-- bytes held, or all, and leaves the others. It returns if there are any or the write end is closed,
-- and then wakes the writers; with none and the write end open it fails if the process is killed,
-- goes to sleep otherwise, and wakes nobody. It leaves the ends open or closed as they were.
pub read_from-Reads :
    (killed : Bool) (p : Pipe) (n : ℕ) → IsValid p → Reads killed p n (read_from killed p n)
unfolding read_from
read_from-Reads killed p n v = elim (Bool-cases (is_empty p && p.writeopen)) [
  | inl stalled ↦ rw stalled (read-stalled killed n v stalled)
  | inr ready ↦
      let copied = copy-Copies n p v in
      rw ready (record {
        valid = copied.valid;
        bytes = copied.bytes;
        queue = copied.queue;
        outcome = ground (arith, is_empty_iff v);
        woken = refl;
        readopen_kept = copied.readopen_kept;
        writeopen_kept = copied.writeopen_kept;
      })
]
