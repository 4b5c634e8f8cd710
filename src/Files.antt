-- ===== src/Files.antt =====
-- The table of open files and the descriptors of processes: Offline 4/xv6/file.c, the calls of sysfile.c on
-- descriptors, and the loops over descriptors in fork and exit of Offline 3/xv6/proc.c. A file is named by its place
-- in `ftable.file`, and each function is one hold of `ftable.lock`, or is built from such.
pub mod Count
pub mod Steps
mod Tests
use cse314_operating_system.Base.{
  ℕ, zero, suc, ◌+◌, ◌-◌, ◌*◌, ◌/◌, ◌%◌, ◌^◌, ◌≤◌, ◌<◌, min, ◌≡◌, refl, sym, ap, ap₂, subst, ◌∙◌,
  fun_ext, ◌≢◌, ◌↔◌, ◌⊎◌, inl, inr, Bool, true, false, not, ◌&&◌, ◌||◌, Option, none, some, List,
  [], ◌∷◌, ◌++◌, map, append-nil, append_assoc, arith, dec_lt, ℕ_discrete, ltb, leb, ◌==◌,
  if◌then◌else◌, ltb→lt, lt→ltb, leb→le, ==_iff, Bool-cases, Option-cases, length, get_elem?,
  get_or, set, take, drop, replicate, All, length-append, length-set,
}

-- The type of a file, with the end of the pipe or the inode that it is open on
pub data Kind : Type 0 where
  fd_none : Kind
  fd_pipe : (pipe : ℕ) → Kind
  fd_inode : (inum : ℕ) → Kind

-- `struct file`
pub record File : Type 0 where
  pub ref : ℕ
  pub kind : Kind
  pub readable : Bool
  pub writable : Bool
  pub off : ℕ

abbrev pub no_file : File
no_file = record { ref = 0; kind = fd_none; readable = false; writable = false; off = 0 }

-- `ofile` of a process, where `none` is 0
abbrev pub Ofile : Type 0
Ofile = List (Option ℕ)

-- NOFILE and NFILE
abbrev pub nofile : ℕ
nofile = 16

abbrev pub nfile : ℕ
nfile = 100

-- `filealloc`; `none` is 0.
pub filealloc : List File → Option (ℕ × List File)
filealloc [] = none
filealloc (f ∷ fs) = elim (f.ref == 0) [
  | true ↦ some (0, record f { ref = 1 } ∷ fs)
  | false ↦ elim (filealloc fs) [ none ↦ none | some (i, fs') ↦ some (suc i, f ∷ fs') ]
]

-- `filedup`; `none` is the panic. The counts stay below 2^31.
pub filedup : List File → (i : ℕ) → Option (List File)
filedup [] i = none
filedup (f ∷ fs) zero = if f.ref == 0 then none else some (record f { ref = f.ref + 1 } ∷ fs)
filedup (f ∷ fs) (suc i) = elim (filedup fs i) [ none ↦ none | some fs' ↦ some (f ∷ fs') ]

-- How `fileclose` ends: in a panic; with a reference less; or with the last reference gone, and the file as it was
-- for the pipe or the inode to be let go
pub data Closed : Type 0 where
  panics : Closed
  shared : List File → Closed
  last : File → List File → Closed

pub behind : File → Closed → Closed
behind f panics = panics
behind f (shared fs) = shared (f ∷ fs)
behind f (last ff fs) = last ff (f ∷ fs)

pub fileclose : List File → (i : ℕ) → Closed
fileclose [] i = panics
fileclose (f ∷ fs) zero =
    if f.ref == 0
    then panics
    else if ltb 0 (f.ref - 1)
    then shared (record f { ref = f.ref - 1 } ∷ fs)
    else last (record f { ref = 0 }) (record f { ref = 0; kind = fd_none } ∷ fs)
fileclose (f ∷ fs) (suc i) = behind f (fileclose fs i)

-- The table after a close; `none` is the panic.
pub after_close : Closed → Option (List File)
after_close panics = none
after_close (shared fs) = some fs
after_close (last ff fs) = some fs

-- `fdalloc`; `none` is -1.
pub fdalloc : Ofile → (f : ℕ) → Option (ℕ × Ofile)
fdalloc [] f = none
fdalloc (none ∷ os) f = some (0, some f ∷ os)
fdalloc (some g ∷ os) f = elim (fdalloc os f) [
  | none ↦ none
  | some (fd, os') ↦ some (suc fd, some g ∷ os')
]

-- `argfd`; a negative descriptor has a bit pattern above NOFILE.
pub argfd : Ofile → (fd : ℕ) → Option ℕ
argfd os fd = if leb nofile fd then none else get_or os fd none

-- The files and the descriptors of each process
pub record State : Type 0 where
  pub files : List File
  pub procs : List Ofile

abbrev pub of : State → (p : ℕ) → Ofile
of s p = get_or s.procs p []

abbrev pub with_files : State → (p : ℕ) → Ofile → Option (List File) → Option State
with_files s p os none = none
with_files s p os (some fs) = some (record { files = fs; procs = set s.procs p os })

-- `sys_dup`; `none` is a panic, and -1 leaves the state as it was.
pub sys_dup : State → (p fd : ℕ) → Option State
sys_dup s p fd = elim (argfd (of s p) fd) [
  | none ↦ some s
  | some f ↦ elim (fdalloc (of s p) f) [
    | none ↦ some s
    | some (fd', os) ↦ with_files s p os (filedup s.files f)
  ]
]

-- `sys_close`
pub sys_close : State → (p fd : ℕ) → Option State
sys_close s p fd = elim (argfd (of s p) fd) [
  | none ↦ some s
  | some f ↦ with_files s p (set (of s p) fd none) (after_close (fileclose s.files f))
]

abbrev pub open_as : List File → (f : ℕ) (kind : Kind) (readable writable : Bool) → List File
open_as fs f kind readable writable = set fs f (record (get_or fs f no_file) {
  kind = kind;
  readable = readable;
  writable = writable;
  off = 0;
})

-- `sys_open` once it has the inode
pub open_file : State → (p inum : ℕ) (readable writable : Bool) → Option State
open_file s p inum readable writable = elim (filealloc s.files) [
  | none ↦ some s
  | some (f, fs) ↦ elim (fdalloc (of s p) f) [
    | none ↦ elim (after_close (fileclose fs f)) [
      | none ↦ none
      | some fs' ↦ some (record s { files = fs' })
    ]
    | some (fd, os) ↦ some (record {
      files = open_as fs f (fd_inode inum) readable writable;
      procs = set s.procs p os;
    })
  ]
]

-- The loop of `fork` over the descriptors of the parent
pub dup_all : Ofile → List File → Option (List File)
dup_all [] fs = some fs
dup_all (none ∷ os) fs = dup_all os fs
dup_all (some f ∷ os) fs = elim (filedup fs f) [ none ↦ none | some fs' ↦ dup_all os fs' ]

-- `fork` of process `p` into the slot `q`
pub fork_files : State → (p q : ℕ) → Option State
fork_files s p q = with_files s q (of s p) (dup_all (of s p) s.files)

-- The loop of `exit`
pub close_all : Ofile → List File → Option (List File)
close_all [] fs = some fs
close_all (none ∷ os) fs = close_all os fs
close_all (some f ∷ os) fs = elim (after_close (fileclose fs f)) [
  | none ↦ none
  | some fs' ↦ close_all os fs'
]

abbrev pub cleared : Ofile → Ofile
cleared [] = []
cleared (o ∷ os) = none ∷ cleared os

pub exit_files : State → (p : ℕ) → Option State
exit_files s p = with_files s p (cleared (of s p)) (close_all (of s p) s.files)
