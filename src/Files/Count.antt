-- ===== src/Files/Count.antt =====
-- Counting descriptors and references: what each operation does to one file's counts.
use cse314_operating_system.Base.{
  ℕ, zero, suc, ◌+◌, ◌-◌, ◌≤◌, ◌<◌, ◌≡◌, refl, ap, ◌∙◌, inl, inr, false, none, some, List, [], ◌∷◌,
  arith, ltb, ◌==◌, if◌then◌else◌, Bool-cases, Option-cases, length, get_or, set,
}
use cse314_operating_system.Files.{
  File, fd_none, no_file, Ofile, filealloc, filedup, fileclose, Closed, panics, shared, last,
  behind, after_close, fdalloc, cleared,
}

-- One for the file itself
abbrev pub is : (f g : ℕ) → ℕ
is f g = if f == g then 1 else 0

-- How many descriptors of a process are open on file `g`
abbrev pub uses : (g : ℕ) → Ofile → ℕ
uses g [] = 0
uses g (none ∷ os) = uses g os
uses g (some f ∷ os) = is f g + uses g os

-- How many descriptors of all processes are
abbrev pub total : (g : ℕ) → List Ofile → ℕ
total g [] = 0
total g (os ∷ oss) = uses g os + total g oss

abbrev pub ref_at : List File → (g : ℕ) → ℕ
ref_at fs g = (get_or fs g no_file).ref

pub is-suc : (f g : ℕ) → is (suc f) (suc g) ≡ is f g
is-suc f g = ground arith

pub total-set :
    (g p : ℕ) (os : Ofile) (oss : List Ofile)
    → p < length oss
    → total g (set oss p os) + uses g (get_or oss p []) ≡ total g oss + uses g os
total-set g p os [] h = absurd (omega arith)
total-set g zero os (x ∷ oss) h = omega arith
total-set g (suc p) os (x ∷ oss) h = omega (arith, total-set g p os oss (omega (arith, h)))

pub uses-fdalloc :
    (os os' : Ofile) (f fd g : ℕ) → fdalloc os f ≡ some (fd, os') → uses g os' ≡ uses g os + is f g
unfolding fdalloc
uses-fdalloc [] os' f fd g e = absurd (cc e)
uses-fdalloc (none ∷ os) os' f fd g e =
    let same : os' ≡ some f ∷ os = cc e in ap (uses g) same ∙ omega arith
uses-fdalloc (some h ∷ os) os' f fd g e = elim (Option-cases (fdalloc os f)) [
  | inl n ↦ let no : fdalloc (some h ∷ os) f ≡ none = rw n refl in absurd (cc (e, no))
  | inr ((k, ks), n) ↦
      let yes : fdalloc (some h ∷ os) f ≡ some (suc k, some h ∷ ks) = rw n refl in
      let same : os' ≡ some h ∷ ks = cc (e, yes) in
      ap (uses g) same ∙ omega (arith, uses-fdalloc os ks f k g n)
]

pub uses-clear :
    (os : Ofile) (fd f g : ℕ)
    → get_or os fd none ≡ some f
    → uses g (set os fd none) + is f g ≡ uses g os
uses-clear [] fd f g e = absurd (cc e)
uses-clear (o ∷ os) zero f g e = rw e (omega arith)
uses-clear (none ∷ os) (suc fd) f g e = uses-clear os fd f g e
uses-clear (some h ∷ os) (suc fd) f g e = omega (arith, uses-clear os fd f g e)

pub uses-get : (os : Ofile) (fd f : ℕ) → get_or os fd none ≡ some f → 0 < uses f os
uses-get os fd f e = ground (arith, uses-clear os fd f f e)

pub uses-cleared : (os : Ofile) (g : ℕ) → uses g (cleared os) ≡ 0
uses-cleared [] g = refl
uses-cleared (o ∷ os) g = uses-cleared os g

pub total-get : (oss : List Ofile) (p g : ℕ) → uses g (get_or oss p []) ≤ total g oss
total-get [] p g = omega arith
total-get (os ∷ oss) zero g = omega arith
total-get (os ∷ oss) (suc p) g = omega (arith, total-get oss p g)

-- A new reference to `i`, or one given up
abbrev pub Adds : (i : ℕ) → List File → List File → Type 0
Adds i fs fs' = (g : ℕ) → ref_at fs' g ≡ ref_at fs g + is i g

abbrev pub Drops : (i : ℕ) → List File → List File → Type 0
Drops i fs fs' = (g : ℕ) → ref_at fs' g + is i g ≡ ref_at fs g

Adds-suc : (f : File) (fs fs' : List File) (i : ℕ) → Adds i fs fs' → Adds (suc i) (f ∷ fs) (f ∷ fs')
Adds-suc f fs fs' i a zero = ground arith
Adds-suc f fs fs' i a (suc g) = omega (arith, a g, is-suc i g)

Drops-suc :
    (f : File) (fs fs' : List File) (i : ℕ) → Drops i fs fs' → Drops (suc i) (f ∷ fs) (f ∷ fs')
Drops-suc f fs fs' i a zero = ground arith
Drops-suc f fs fs' i a (suc g) = omega (arith, a g, is-suc i g)

Adds-zero : (f f' : File) (fs : List File) → f'.ref ≡ f.ref + 1 → Adds 0 (f ∷ fs) (f' ∷ fs)
Adds-zero f f' fs e zero = ground (arith, e)
Adds-zero f f' fs e (suc g) = ground arith

Drops-zero : (f f' : File) (fs : List File) → f'.ref + 1 ≡ f.ref → Drops 0 (f ∷ fs) (f' ∷ fs)
Drops-zero f f' fs e zero = ground (arith, e)
Drops-zero f f' fs e (suc g) = ground arith

pub filedup-Adds :
    (fs : List File) (i : ℕ)
    → 0 < ref_at fs i
    → (fs' : List File) × (filedup fs i ≡ some fs') × Adds i fs fs'
unfolding filedup
filedup-Adds [] i h = absurd (omega (arith, h))
filedup-Adds (f ∷ fs) zero h =
    let t : (f.ref == 0) ≡ false = ground (arith, h) in
    let f' : File = record f { ref = f.ref + 1 } in (f' ∷ fs, rw t refl, Adds-zero f f' fs refl)
filedup-Adds (f ∷ fs) (suc i) h =
    let (fs', e, a) = filedup-Adds fs i h in (f ∷ fs', rw e refl, Adds-suc f fs fs' i a)

pub filealloc-Adds :
    (fs fs' : List File) (i : ℕ)
    → filealloc fs ≡ some (i, fs')
    → (ref_at fs i ≡ 0) × (ref_at fs' i ≡ 1) × Adds i fs fs'
unfolding filealloc
filealloc-Adds [] fs' i e = absurd (cc e)
filealloc-Adds (f ∷ fs) fs' i e = elim (Bool-cases (f.ref == 0)) [
  | inl t ↦
      let f' : File = record f { ref = 1 } in
      let yes : filealloc (f ∷ fs) ≡ some (0, f' ∷ fs) = rw (t, filealloc) refl in
      let same : i ≡ 0 = cc (e, yes) in
      let rest : fs' ≡ f' ∷ fs = cc (e, yes) in
      let free : f.ref ≡ 0 = ground (arith, t) in
      rw (same, rest) (free, refl, Adds-zero f f' fs (omega (arith, free)))
  | inr t ↦ elim (Option-cases (filealloc fs)) [
    | inl n ↦ let no : filealloc (f ∷ fs) ≡ none = rw (t, n, filealloc) refl in absurd (cc (e, no))
    | inr ((k, ks), n) ↦
        let yes : filealloc (f ∷ fs) ≡ some (suc k, f ∷ ks) = rw (t, n, filealloc) refl in
        let same : i ≡ suc k = cc (e, yes) in
        let rest : fs' ≡ f ∷ ks = cc (e, yes) in
        let (free, one, a) = filealloc-Adds fs ks k n in
        rw (same, rest) (free, one, Adds-suc f fs ks k a)
  ]
]

-- A table whose place `i` has a reference less, and a free file there when that was the last one
pub record Dropped (i : ℕ) (fs : List File) (c : Closed) : Type 0 where
  pub after : List File
  pub is_after : after_close c ≡ some after
  pub drops : Drops i fs after

behind-Dropped :
    (f : File) (fs : List File) (i : ℕ) (c : Closed)
    → Dropped i fs c
    → Dropped (suc i) (f ∷ fs) (behind f c)
unfolding behind after_close
behind-Dropped f fs i panics d = absurd (cc (d.is_after))
behind-Dropped f fs i (shared ks) d =
    let same : ks ≡ d.after = cc (d.is_after) in
    record {
      after = f ∷ d.after;
      is_after = rw same refl;
      drops = Drops-suc f fs d.after i d.drops;
    }
behind-Dropped f fs i (last ff ks) d =
    let same : ks ≡ d.after = cc (d.is_after) in
    record {
      after = f ∷ d.after;
      is_after = rw same refl;
      drops = Drops-suc f fs d.after i d.drops;
    }

pub fileclose-Dropped : (fs : List File) (i : ℕ) → 0 < ref_at fs i → Dropped i fs (fileclose fs i)
unfolding fileclose after_close
fileclose-Dropped [] i h = absurd (omega (arith, h))
fileclose-Dropped (f ∷ fs) zero h =
    let t : (f.ref == 0) ≡ false = ground (arith, h) in
    elim (Bool-cases (ltb 0 (f.ref - 1))) [
      | inl more ↦
          let f' : File = record f { ref = f.ref - 1 } in
          record {
            after = f' ∷ fs;
            is_after = rw (t, more) refl;
            drops = Drops-zero f f' fs (omega (arith, h));
          }
      | inr none_left ↦
          let f' : File = record f { ref = 0; kind = fd_none } in
          record {
            after = f' ∷ fs;
            is_after = rw (t, none_left) refl;
            drops = Drops-zero f f' fs (ground (arith, h, none_left));
          }
    ]
fileclose-Dropped (f ∷ fs) (suc i) h =
    behind-Dropped f fs i (fileclose fs i) (fileclose-Dropped fs i h)
