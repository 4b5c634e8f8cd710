-- ===== src/Path/Link.antt =====
-- A directory after `dirlink`.
use cse314_operating_system.Base.{
  ℕ, zero, suc, ◌+◌, ◌≡◌, refl, ap, ap₂, ◌∙◌, ◌≢◌, Bool, true, false, Option, none, some, List, [],
  ◌∷◌, arith, ◌==◌, if◌then◌else◌, take, length, ◌⊎◌, ◌<◌, ◌%◌, ◌^◌,
}
use cse314_operating_system.Base.{take}
use cse314_operating_system.Path.{
  Dirent, same_prefix, namecmp, lookup_from, dirlookup, LinkResult, refused, panics, linked,
}

==-refl : (a : ℕ) → (a == a) ≡ true
==-refl a = ground arith

same_prefix-take : (n : ℕ) (s : List ℕ) → same_prefix n s (take n s) ≡ true
unfolding same_prefix
same_prefix-take zero s = refl
same_prefix-take (suc n) [] = refl
same_prefix-take (suc n) (c ∷ s) = rw (==-refl c) (same_prefix-take n s)

-- The directory as a map: the inode number of the first entry in use with a name
pub entry_of : List Dirent → (name : List ℕ) → Option ℕ
entry_of [] name = none
entry_of (de ∷ des) name =
    let rest = entry_of des name in
    if de.inum == 0 then rest else if namecmp name de.name then some de.inum else rest

abbrev pub inum_of : Option (ℕ × ℕ) → Option ℕ
inum_of none = none
inum_of (some (off, inum)) = some inum

inum_of-if :
    (b : Bool) (x y : Option (ℕ × ℕ))
    → inum_of (if b then x else y) ≡ (if b then inum_of x else inum_of y)
inum_of-if true x y = refl
inum_of-if false x y = refl

lookup_from-entry_of :
    (off : ℕ) (des : List Dirent) (name : List ℕ)
    → inum_of (lookup_from off des name) ≡ entry_of des name
unfolding lookup_from entry_of
lookup_from-entry_of off [] name = refl
lookup_from-entry_of off (de ∷ des) name =
    let rest = lookup_from-entry_of (off + 1) des name in
    inum_of-if (de.inum == 0) (lookup_from (off + 1) des name)
      (if namecmp name de.name then some (off, de.inum) else lookup_from (off + 1) des name)
    ∙ ap₂ (λ x y. if de.inum == 0 then x else y) rest
        (inum_of-if (namecmp name de.name) (some (off, de.inum)) (lookup_from (off + 1) des name)
          ∙ ap (λ x. if namecmp name de.name then some de.inum else x) rest)

-- `dirlookup` answers the inode number that the directory maps the name to.
pub dirlookup-entry_of :
    (des : List Dirent) (name : List ℕ) → inum_of (dirlookup des name) ≡ entry_of des name
unfolding dirlookup
dirlookup-entry_of des name = lookup_from-entry_of 0 des name

-- The inode number of an entry; 0 behind the end
abbrev pub inum_at : List Dirent → ℕ → ℕ
inum_at [] k = 0
inum_at (de ∷ des) zero = de.inum
inum_at (de ∷ des) (suc k) = inum_at des k

-- What `dirlink` answers: -1 when the directory has the name, a panic when it has not and the entry cannot be
-- written, and else a directory that maps the name to the number
abbrev pub Linked :
    (has_room : Bool) (des : List Dirent) (name : List ℕ) (inum : ℕ) → LinkResult → Type 0
Linked has_room des name inum refused = (n : ℕ) × (entry_of des name ≡ some n)
Linked has_room des name inum panics =
    (entry_of des name ≡ none)
    × (((k : ℕ) → k < 4480 → inum_at des k ≢ 0)
        ⊎ (((k : ℕ) → k < length des → inum_at des k ≢ 0) × (has_room ≡ false)))
Linked has_room des name inum (linked des') =
    (entry_of des name ≡ none)
    × ((other : List ℕ)
        → inum_of (dirlookup des' other)
          ≡ (if namecmp other name then some (inum % 2 ^ 16) else inum_of (dirlookup des other)))
