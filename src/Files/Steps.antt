-- ===== src/Files/Steps.antt =====
-- The calls on descriptors by any processes in any order: a count of references that agrees with the descriptors.
use cse314_operating_system.Base.{
  ℕ, zero, suc, ◌+◌, ◌≤◌, ◌<◌, ◌≡◌, refl, sym, subst, ◌∙◌, inl, inr, Bool, Option, none, some, List,
  [], ◌∷◌, arith, leb, Bool-cases, Option-cases, length, get_or, set, replicate,
}
use cse314_operating_system.Files.{
  nofile, File, Kind, fd_inode, no_file, Ofile, State, of, nfile, filealloc, fdalloc, argfd,
  sys_dup, sys_close, open_as, open_file, dup_all, fork_files, close_all, cleared, exit_files,
}
use cse314_operating_system.Files.Count.{
  is, uses, total, ref_at, total-set, uses-fdalloc, uses-clear, uses-get, uses-cleared, total-get,
  filedup-Adds, filealloc-Adds, fileclose-Dropped,
}

-- A call by process `p`
pub data Call : Type 0 where
  dups : (p fd : ℕ) → Call
  closes : (p fd : ℕ) → Call
  opens : (p inum : ℕ) (readable writable : Bool) → Call
  forks : (p q : ℕ) → Call
  exits : (p : ℕ) → Call

unfoldable pub run : State → Call → Option State
run s (dups p fd) = sys_dup s p fd
run s (closes p fd) = sys_close s p fd
run s (opens p inum readable writable) = open_file s p inum readable writable
run s (forks p q) = fork_files s p q
run s (exits p) = exit_files s p

-- The processes are in the table, and a child is one with no descriptor, as `allocproc` finds it.
unfoldable pub Allowed : State → Call → Type 0
Allowed s (dups p fd) = p < length s.procs
Allowed s (closes p fd) = p < length s.procs
Allowed s (opens p inum readable writable) = p < length s.procs
Allowed s (forks p q) = (q < length s.procs) × ((g : ℕ) → uses g (of s q) ≡ 0)
Allowed s (exits p) = p < length s.procs

-- The references of each file are the descriptors that are open on it.
pub Counted : State → Type 0
Counted s = (g : ℕ) → ref_at s.files g ≡ total g s.procs

-- No file, and `n` processes with no descriptor
abbrev pub initial : (n : ℕ) → State
initial n = record { files = replicate nfile no_file; procs = replicate n (replicate 16 none) }

-- What calls, one after another, make of the tables
pub data Reach (n : ℕ) : State → Type 0 where
  start : Reach n (initial n)
  later : {s t : State} (c : Call) → Reach n s → Allowed s c → run s c ≡ some t → Reach n t

-- A call that does not panic and keeps the counts
pub Kept : Option State → Type 0
Kept r = (s' : State) × (r ≡ some s') × Counted s'

argfd-some : (os : Ofile) (fd f : ℕ) → argfd os fd ≡ some f → get_or os fd none ≡ some f
unfolding argfd
argfd-some os fd f e = elim (Bool-cases (leb nofile fd)) [
  | inl t ↦ let no : argfd os fd ≡ none = rw t refl in absurd (cc (e, no))
  | inr t ↦ let yes : argfd os fd ≡ get_or os fd none = rw t refl in sym yes ∙ e
]

uses_le : (s : State) (p g : ℕ) → Counted s → uses g (of s p) ≤ ref_at s.files g
unfolding Counted
uses_le s p g k = omega (arith, total-get s.procs p g, k g)

is_self : (f : ℕ) → is f f ≡ 1
is_self f = ground arith

dup_all-refs :
    (os : Ofile) (fs : List File)
    → ((g : ℕ) → uses g os ≤ ref_at fs g)
    → (fs' : List File) × (dup_all os fs ≡ some fs')
      × ((g : ℕ) → ref_at fs' g ≡ ref_at fs g + uses g os)
unfolding dup_all
dup_all-refs [] fs h = (fs, refl, λ g. omega arith)
dup_all-refs (none ∷ os) fs h = dup_all-refs os fs h
dup_all-refs (some f ∷ os) fs h =
    let (fs', e, a) = filedup-Adds fs f (omega (arith, h f, is_self f)) in
    let (fs'', e', a') = dup_all-refs os fs' (λ g. omega (arith, h g, a g)) in
    (fs'', rw (e, dup_all) e', λ g. omega (arith, a g, a' g))

close_all-refs :
    (os : Ofile) (fs : List File)
    → ((g : ℕ) → uses g os ≤ ref_at fs g)
    → (fs' : List File) × (close_all os fs ≡ some fs')
      × ((g : ℕ) → ref_at fs' g + uses g os ≡ ref_at fs g)
unfolding close_all
close_all-refs [] fs h = (fs, refl, λ g. omega arith)
close_all-refs (none ∷ os) fs h = close_all-refs os fs h
close_all-refs (some f ∷ os) fs h =
    let d = fileclose-Dropped fs f (omega (arith, h f, is_self f)) in
    let (fs'', e', a') = close_all-refs os d.after (λ g. omega (arith, h g, d.drops g)) in
    (fs'', rw (d.is_after, close_all) e', λ g. omega (arith, d.drops g, a' g))

-- A process given new descriptors, with the references changed as they are
with_files-Kept :
    (s : State) (p : ℕ) (os : Ofile) (fs : List File)
    → Counted s
    → p < length s.procs
    → ((g : ℕ) → ref_at fs g + uses g (of s p) ≡ ref_at s.files g + uses g os)
    → Counted (record { files = fs; procs = set s.procs p os })
unfolding Counted
with_files-Kept s p os fs k h e g = omega (arith, k g, e g, total-set g p os s.procs h)

same_refs-Counted :
    (s : State) (fs : List File)
    → Counted s
    → ((g : ℕ) → ref_at fs g ≡ ref_at s.files g)
    → Counted (record s { files = fs })
unfolding Counted
same_refs-Counted s fs k e g = e g ∙ k g

sys_dup-Kept : (s : State) (p fd : ℕ) → Counted s → p < length s.procs → Kept (sys_dup s p fd)
unfolding sys_dup Kept
sys_dup-Kept s p fd k h = elim (Option-cases (argfd (of s p) fd)) [
  | inl n ↦ (s, rw (n, sys_dup) refl, k)
  | inr (f, n) ↦ elim (Option-cases (fdalloc (of s p) f)) [
    | inl m ↦ (s, rw (n, m, sys_dup) refl, k)
    | inr ((fd', os), m) ↦
        let used = uses-get (of s p) fd f (argfd-some (of s p) fd f n) in
        let (fs, e, a) = filedup-Adds s.files f (omega (arith, used, uses_le s p f k)) in
        (
          record { files = fs; procs = set s.procs p os },
          rw (n, m, e, sys_dup) refl,
          with_files-Kept s p os fs k h
              (λ g. omega (arith, a g, uses-fdalloc (of s p) os f fd' g m)),
        )
  ]
]

sys_close-Kept : (s : State) (p fd : ℕ) → Counted s → p < length s.procs → Kept (sys_close s p fd)
unfolding sys_close Kept
sys_close-Kept s p fd k h = elim (Option-cases (argfd (of s p) fd)) [
  | inl n ↦ (s, rw (n, sys_close) refl, k)
  | inr (f, n) ↦
      let open_on = argfd-some (of s p) fd f n in
      let d =
        fileclose-Dropped s.files f
          (omega (arith, uses-get (of s p) fd f open_on, uses_le s p f k)) in
      (
        record { files = d.after; procs = set s.procs p (set (of s p) fd none) },
        rw (n, d.is_after, sys_close) refl,
        with_files-Kept s p (set (of s p) fd none) d.after k h
            (λ g. omega (arith, d.drops g, uses-clear (of s p) fd f g open_on)),
      )
]

open_as-ref :
    (fs : List File) (f g : ℕ) (kind : Kind) (readable writable : Bool)
    → ref_at (open_as fs f kind readable writable) g ≡ ref_at fs g
open_as-ref [] f g kind readable writable = refl
open_as-ref (x ∷ fs) zero zero kind readable writable = refl
open_as-ref (x ∷ fs) zero (suc g) kind readable writable = refl
open_as-ref (x ∷ fs) (suc f) zero kind readable writable = refl
open_as-ref (x ∷ fs) (suc f) (suc g) kind readable writable =
    open_as-ref fs f g kind readable writable

open_file-Kept :
    (s : State) (p inum : ℕ) (readable writable : Bool)
    → Counted s
    → p < length s.procs
    → Kept (open_file s p inum readable writable)
unfolding open_file Kept
open_file-Kept s p inum readable writable k h = elim (Option-cases (filealloc s.files)) [
  | inl n ↦ (s, rw (n, open_file) refl, k)
  | inr ((f, fs), n) ↦
      let (free, one, a) = filealloc-Adds s.files fs f n in
      elim (Option-cases (fdalloc (of s p) f)) [
        | inl m ↦
            let d = fileclose-Dropped fs f (omega (arith, one)) in
            (
              record s { files = d.after },
              rw (n, m, d.is_after, open_file) refl,
              same_refs-Counted s d.after k (λ g. omega (arith, a g, d.drops g)),
            )
        | inr ((fd, os), m) ↦ (
          record {
            files = open_as fs f (fd_inode inum) readable writable;
            procs = set s.procs p os;
          },
          rw (n, m, open_file) refl,
          with_files-Kept s p os (open_as fs f (fd_inode inum) readable writable) k h (λ g. omega (
            arith,
            a g,
            uses-fdalloc (of s p) os f fd g m,
            open_as-ref fs f g (fd_inode inum) readable writable,
          )),
        )
      ]
]

fork_files-Kept :
    (s : State) (p q : ℕ)
    → Counted s
    → q < length s.procs
    → ((g : ℕ) → uses g (of s q) ≡ 0)
    → Kept (fork_files s p q)
unfolding fork_files Kept
fork_files-Kept s p q k h free =
    let (fs, e, a) = dup_all-refs (of s p) s.files (λ g. uses_le s p g k) in
    (
      record { files = fs; procs = set s.procs q (of s p) },
      rw (e, fork_files) refl,
      with_files-Kept s q (of s p) fs k h (λ g. omega (arith, a g, free g)),
    )

exit_files-Kept : (s : State) (p : ℕ) → Counted s → p < length s.procs → Kept (exit_files s p)
unfolding exit_files Kept
exit_files-Kept s p k h =
    let (fs, e, a) = close_all-refs (of s p) s.files (λ g. uses_le s p g k) in
    (
      record { files = fs; procs = set s.procs p (cleared (of s p)) },
      rw (e, exit_files) refl,
      with_files-Kept s p (cleared (of s p)) fs k h
          (λ g. omega (arith, a g, uses-cleared (of s p) g)),
    )

run-Kept : (s : State) (c : Call) → Counted s → Allowed s c → Kept (run s c)
unfolding run Allowed
run-Kept s (dups p fd) k h = sys_dup-Kept s p fd k h
run-Kept s (closes p fd) k h = sys_close-Kept s p fd k h
run-Kept s (opens p inum readable writable) k h = open_file-Kept s p inum readable writable k h
run-Kept s (forks p q) k (h, free) = fork_files-Kept s p q k h free
run-Kept s (exits p) k h = exit_files-Kept s p k h

no_file-ref : (m g : ℕ) → ref_at (replicate m no_file) g ≡ 0
no_file-ref zero g = refl
no_file-ref (suc m) zero = refl
no_file-ref (suc m) (suc g) = no_file-ref m g

uses-none : (m g : ℕ) → uses g (replicate m none) ≡ 0
uses-none zero g = refl
uses-none (suc m) g = uses-none m g

total-none : (n m g : ℕ) → total g (replicate n (replicate m none)) ≡ 0
total-none zero m g = refl
total-none (suc n) m g = omega (arith, uses-none m g, total-none n m g)

Reach-Counted : (n : ℕ) (s : State) → Reach n s → Counted s
unfolding Counted Kept
Reach-Counted n s start = λ g. no_file-ref nfile g ∙ sym (total-none n 16 g)
Reach-Counted n s (later {s = before} c r ok e) =
    let (next, ran, counted) = run-Kept before c (Reach-Counted n before r) ok in
    let same : s ≡ next = cc (e, ran) in subst Counted (sym same) counted

-- After any calls from a table with no open file, by any processes in any order, the references of each file are the
-- descriptors of all processes that are open on it; and one more allowed call does not panic and leaves it so.
pub Reach-Safe :
    (n : ℕ) (s : State) (c : Call) → Reach n s → Allowed s c → Counted s × Kept (run s c)
Reach-Safe n s c r ok = let k = Reach-Counted n s r in (k, run-Kept s c k ok)
