-- ===== src/Pipe/Refine.antt =====
-- What one section of `pipewrite` and of `piperead` does to the byte queue of the pipe.
use cse314_operating_system.Base.{
  ℕ, suc, ◌-◌, ◌<◌, ◌≡◌, refl, sym, ◌∙◌, ◌≢◌, inl, inr, Bool, true, false, not, ◌||◌, List, [], ◌∷◌,
  ◌++◌, append-nil, append_assoc, arith, Bool-cases, leb, if◌then◌else◌, length, take, drop,
  take-zero, drop-zero, take-nil, drop-nil, take-cons, drop-cons,
}
use cse314_operating_system.Pipe.{
  Pipe, Chan, at_nread, Outcome, returned, failed, asleep, is_full, put, Written, write_from,
}
use cse314_operating_system.Pipe.Inv.{
  IsValid, used, contents, is_full_iff, put-IsValid, used-put, contents-put,
}

abbrev pub room : Pipe → ℕ
room p = 512 - used p

-- How a section of `pipewrite` with `len` bytes left ends, at a ring with room for `space` bytes.
abbrev pub write_ends : (killed readopen : Bool) (space len : ℕ) → Outcome
write_ends killed readopen space len =
    if leb len space then returned else if not readopen || killed then failed else asleep

abbrev pub wakes : Outcome → List Chan
wakes failed = []
wakes _ = at_nread ∷ []

write_ends-next :
    (killed readopen : Bool) (space len : ℕ)
    → space ≢ 0
    → write_ends killed readopen (space - 1) len ≡ write_ends killed readopen space (suc len)
write_ends-next killed readopen space len h = ground arith

-- At a full ring.
write_ends-full :
    (killed readopen x : Bool) (space len : ℕ)
    → space ≡ 0
    → x ≡ (not readopen || killed)
    → (if x then failed else asleep) ≡ write_ends killed readopen space (suc len)
write_ends-full killed readopen x space len h e = ground arith

pub record Writes (killed : Bool) (p : Pipe) (bs : List ℕ) (w : Written) : Type 0 where
  pub valid : IsValid w.pipe
  pub queue : contents w.pipe ≡ contents p ++ take (room p) bs
  pub rest : w.rest ≡ drop (room p) bs
  pub outcome : w.outcome ≡ write_ends killed p.readopen (room p) (length bs)
  pub woken : w.woken ≡ wakes w.outcome
  pub readopen_kept : w.pipe.readopen ≡ p.readopen
  pub writeopen_kept : w.pipe.writeopen ≡ p.writeopen

open-put :
    (p : Pipe) (b : ℕ) → ((put p b).readopen ≡ p.readopen) × ((put p b).writeopen ≡ p.writeopen)
unfolding put
open-put p b = (refl, refl)

blocked-Writes :
    (killed : Bool) {p : Pipe} (b : ℕ) (bs : List ℕ)
    → IsValid p
    → room p ≡ 0
    → (x : Bool) → x ≡ (not p.readopen || killed)
    → Writes killed p (b ∷ bs) (
        if x
        then record { pipe = p; rest = b ∷ bs; woken = []; outcome = failed }
        else record { pipe = p; rest = b ∷ bs; woken = at_nread ∷ []; outcome = asleep })
blocked-Writes killed {p} b bs v e true h = record {
  valid = v;
  queue = rw (take-zero (b ∷ bs) (room p) e) (sym (append-nil (contents p)));
  rest = sym (drop-zero (b ∷ bs) (room p) e);
  outcome = write_ends-full killed p.readopen true (room p) (length bs) e h;
  woken = refl;
  readopen_kept = refl;
  writeopen_kept = refl;
}
blocked-Writes killed {p} b bs v e false h = record {
  valid = v;
  queue = rw (take-zero (b ∷ bs) (room p) e) (sym (append-nil (contents p)));
  rest = sym (drop-zero (b ∷ bs) (room p) e);
  outcome = write_ends-full killed p.readopen false (room p) (length bs) e h;
  woken = refl;
  readopen_kept = refl;
  writeopen_kept = refl;
}

step-Writes :
    (killed : Bool) {p : Pipe} (b : ℕ) (bs : List ℕ) (w : Written)
    → IsValid p
    → used p < 512
    → Writes killed (put p b) bs w
    → Writes killed p (b ∷ bs) w
step-Writes killed {p} b bs w v lt h =
    let fewer : room (put p b) ≡ room p - 1 = omega (arith, used-put b v lt) in
    let some_room : room p ≢ 0 = omega arith in
    record {
      valid = h.valid;
      queue =
          h.queue
          ∙ rw (contents-put b v lt, fewer, take-cons b bs (room p) some_room)
              (append_assoc (contents p) (b ∷ []) (take (room p - 1) bs));
      rest = rw (drop-cons b bs (room p) some_room, ← fewer) h.rest;
      outcome =
          h.outcome
          ∙ rw ((open-put p b).0, fewer)
              (write_ends-next killed p.readopen (room p) (length bs) some_room);
      woken = h.woken;
      readopen_kept = h.readopen_kept ∙ (open-put p b).0;
      writeopen_kept = h.writeopen_kept ∙ (open-put p b).1;
    }

-- For a pipe whose ring is valid, one section of `pipewrite` appends to the bytes held the first of its
-- own that fit, and leaves the rest. It returns if all fit, fails if they do not and the read end is
-- closed or the process killed, and goes to sleep otherwise. It wakes the readers unless it fails,
-- and leaves the ends open or closed as they were.
pub write_from-Writes :
    (killed : Bool) (p : Pipe) (bs : List ℕ)
    → IsValid p
    → Writes killed p bs (write_from killed p bs)
unfolding write_from
write_from-Writes killed p [] v = record {
  valid = v;
  queue = rw (take-nil ℕ (room p)) (sym (append-nil (contents p)));
  rest = sym (drop-nil ℕ (room p));
  outcome = ground arith;
  woken = refl;
  readopen_kept = refl;
  writeopen_kept = refl;
}
write_from-Writes killed p (b ∷ bs) v = elim (Bool-cases (is_full p)) [
  | inl full ↦ rw full (blocked-Writes killed b bs v (omega (arith, (is_full_iff v).0 full)) _ refl)
  | inr more ↦
      let lt : used p < 512 = ground (arith, is_full_iff v) in
      rw more (
        step-Writes killed b bs _ v lt (write_from-Writes killed (put p b) bs (put-IsValid b v lt)))
]
