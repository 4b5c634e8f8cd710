-- ===== src/Path.antt =====
-- Directories and path names of Offline 4/xv6/fs.c (the same in Offline 3/xv6). A C string is the list of its
-- characters before the terminator, a directory the list of its entries, and the cached
-- inodes are known by their numbers, on the one device.
pub mod Link
pub mod Hold
pub mod Namex
pub mod Walk
mod Tests
use cse314_operating_system.Base.{
  ℕ, zero, suc, ◌+◌, ◌-◌, ◌*◌, ◌/◌, ◌%◌, ◌^◌, ◌≤◌, ◌<◌, min, ◌≡◌, refl, sym, ap, ap₂, subst, ◌∙◌,
  fun_ext, ◌≢◌, ◌↔◌, ◌⊎◌, inl, inr, Bool, true, false, not, ◌&&◌, ◌||◌, Option, none, some, List,
  [], ◌∷◌, ◌++◌, map, append-nil, append_assoc, arith, dec_lt, ℕ_discrete, ltb, leb, ◌==◌,
  if◌then◌else◌, ltb→lt, lt→ltb, leb→le, ==_iff, Bool-cases, Option-cases, length, get_elem?,
  get_or, set, take, drop, replicate, All, length-append, length-set,
}
use cse314_operating_system.Base.{take, drop}
use native.Mathlib.Nat.{mod-lt}

-- DIRSIZ
abbrev pub dirsiz : ℕ
dirsiz = 14

-- `struct dirent`, with its number, an `ushort`, and its name up to the terminator or the fourteenth byte
pub record Dirent : Type 0 where
  pub inum : ℕ
  pub is_ushort : inum < 2 ^ 16
  pub name : List ℕ

-- Whether `strncmp` answers 0 for the first `n` characters
pub same_prefix : (n : ℕ) → List ℕ → List ℕ → Bool
same_prefix zero s t = true
same_prefix (suc n) [] [] = true
same_prefix (suc n) [] (d ∷ t) = false
same_prefix (suc n) (c ∷ s) [] = false
same_prefix (suc n) (c ∷ s) (d ∷ t) = c == d && same_prefix n s t

-- `namecmp`, with true for 0
pub namecmp : List ℕ → List ℕ → Bool
namecmp s t = same_prefix dirsiz s t

-- The loop of `dirlookup` from entry `off` on: the place and the inode number of the entry it finds
pub lookup_from : (off : ℕ) → List Dirent → (name : List ℕ) → Option (ℕ × ℕ)
lookup_from off [] name = none
lookup_from off (de ∷ des) name =
    let rest = lookup_from (off + 1) des name in
    if de.inum == 0 then rest else if namecmp name de.name then some (off, de.inum) else rest

-- `dirlookup` of a directory; offsets are counted in entries.
pub dirlookup : List Dirent → (name : List ℕ) → Option (ℕ × ℕ)
dirlookup des name = lookup_from 0 des name

-- What `dirlink` assigns to `de`: the number is cut to an `ushort`, the name to DIRSIZ characters.
abbrev pub new_entry : (name : List ℕ) → (inum : ℕ) → Dirent
new_entry name inum = record {
  inum = inum % 2 ^ 16;
  is_ushort = mod-lt inum (omega arith);
  name = take dirsiz name;
}

-- The second loop of `dirlink`: the place, in entries, of the first empty entry, or the end of the directory
pub free_place : List Dirent → ℕ
free_place [] = 0
free_place (de ∷ des) = let rest = free_place des in if de.inum == 0 then 0 else suc rest

-- The write of `dirlink`, at that place
pub put_entry : Dirent → List Dirent → List Dirent
put_entry new [] = new ∷ []
put_entry new (de ∷ des) =
    let rest = put_entry new des in if de.inum == 0 then new ∷ des else de ∷ rest

-- MAXFILE * BSIZE / sizeof(de), with the blocks of 512 bytes and 140 blocks of a file of param.h and fs.h
abbrev pub max_entries : ℕ
max_entries = 140 * 512 / 16

-- How `dirlink` ends: -1, its panic, or 0 with the directory
pub data LinkResult : Type 0 where
  refused : LinkResult
  panics : LinkResult
  linked : List Dirent → LinkResult

-- `dirlink`. `writei` answers less than 16 for an entry behind the largest file, and `has_room` says whether
-- the disk has the blocks that an entry behind the end of the directory needs: `balloc` panics when it has none.
-- The entries are whole, so that `readi` answers 16.
unfoldable pub dirlink : (has_room : Bool) → List Dirent → (name : List ℕ) → (inum : ℕ) → LinkResult
dirlink has_room des name inum = elim (dirlookup des name) [
  | some _ ↦ refused
  | none ↦
      let off = free_place des in
      if leb max_entries off || (off == length des && not has_room)
      then panics
      else linked (put_entry (new_entry name inum) des)
]

-- The first and the last loop of `skipelem`
pub skip_slashes : List ℕ → List ℕ
skip_slashes [] = []
skip_slashes (c ∷ s) = if c == b'/' then skip_slashes s else c ∷ s

-- The second loop: the element, and what follows it
pub element : List ℕ → List ℕ × List ℕ
element [] = ([], [])
element (c ∷ s) = if c == b'/' then ([], c ∷ s) else let (e, rest) = element s in (c ∷ e, rest)

-- `skipelem` of a path that has no slash in front: the name and the rest
pub split_element : List ℕ → Option (List ℕ × List ℕ)
split_element [] = none
split_element (c ∷ s) = let (e, rest) = element (c ∷ s) in some (take dirsiz e, skip_slashes rest)

pub skipelem : List ℕ → Option (List ℕ × List ℕ)
skipelem path = split_element (skip_slashes path)

-- What the inode of a number is: one with type 0, a directory, or another
pub data Node : Type 0 where
  no_type : Node
  directory : List Dirent → Node
  other : Node

abbrev pub Tree : Type 0
Tree = ℕ → Node

-- NINODE
abbrev pub ninode : ℕ
ninode = 50

-- The cache of inodes: how many references there are to the inode of each number, and how many slots have one
pub record Cache : Type 0 where
  pub refs : ℕ → ℕ
  pub used : ℕ

abbrev pub add_ref : (ℕ → ℕ) → (inum : ℕ) → ℕ → ℕ
add_ref refs inum i = if i == inum then refs i + 1 else refs i

-- `iget`; `none` is the panic: the inode is not in the cache, and no slot is free.
pub get : Cache → (inum : ℕ) → Option Cache
get c inum =
    if c.refs inum == 0
    then if leb ninode c.used
      then none
      else some (record { refs = add_ref c.refs inum; used = c.used + 1 })
    else some (record c { refs = add_ref c.refs inum })

-- `idup`
pub dup : Cache → (inum : ℕ) → Cache
dup c inum = record c { refs = add_ref c.refs inum }

-- `iput` of an inode with another reference or a link
pub put : Cache → (inum : ℕ) → Cache
put c inum = record {
  refs = λ i. if i == inum then c.refs i - 1 else c.refs i;
  used = if c.refs inum == 1 then c.used - 1 else c.used;
}

abbrev pub is_empty : List ℕ → Bool
is_empty [] = true
is_empty (c ∷ s) = false

-- The entry of a name in the directory of an inode number, when it is one
pub find : Tree → (ip : ℕ) → (name : List ℕ) → Option ℕ
find t ip name = elim (t ip) [
  | no_type ↦ none
  | other ↦ none
  | directory des ↦ elim (dirlookup des name) [ none ↦ none | some (off, inum) ↦ some inum ]
]

abbrev pub is_dir : Tree → (ip : ℕ) → Bool
is_dir t ip = elim (t ip) [ no_type ↦ false | other ↦ false | directory _ ↦ true ]

-- Whether `ilock` panics
abbrev pub is_free : Tree → (ip : ℕ) → Bool
is_free t ip = elim (t ip) [ no_type ↦ true | other ↦ false | directory _ ↦ false ]

-- How `namex` ends: in a panic of `iget` or `ilock`, or with the inode and the last name, or 0
pub data Walked : Type 0 where
  panics : Walked
  ends : Option (ℕ × List ℕ) → Cache → Walked

-- The loop of `namex`; `none` when the rounds do not suffice. `dirlookup` is called for a directory of whole entries, so
-- that it does not panic before its `iget`.
pub namex_from :
    (rounds : ℕ) → Tree → Cache → (ip : ℕ) (path name : List ℕ) (parent : Bool) → Option Walked
namex_from zero t c ip path name parent = none
namex_from (suc f) t c ip path name parent = elim (skipelem path) [
  | none ↦ some (if parent then ends none (put c ip) else ends (some (ip, name)) c)
  | some (e, rest) ↦ elim (is_free t ip) [
    | true ↦ some panics
    | false ↦ elim (is_dir t ip) [
      | false ↦ some (ends none (put c ip))
      | true ↦ elim (parent && is_empty rest) [
        | true ↦ some (ends (some (ip, e)) c)
        | false ↦ elim (find t ip e) [
          | none ↦ some (ends none (put c ip))
          | some next ↦ elim (get c next) [
            | none ↦ some panics
            | some c' ↦ namex_from f t (put c' ip) next rest e parent
          ]
        ]
      ]
    ]
  ]
]

-- ROOTINO
abbrev pub rootino : ℕ
rootino = 1

abbrev pub absolute : List ℕ → Bool
absolute [] = false
absolute (c ∷ s) = c == b'/'

-- `namex`; a round takes at least a character off the path.
pub namex : Tree → Cache → (cwd : ℕ) (path name : List ℕ) (parent : Bool) → Option Walked
namex t c cwd path name parent =
    if absolute path
    then elim (get c rootino) [
      | none ↦ some panics
      | some c' ↦ namex_from (suc (length path)) t c' rootino path name parent
    ]
    else namex_from (suc (length path)) t (dup c cwd) cwd path name parent

pub namei : Tree → Cache → (cwd : ℕ) (path : List ℕ) → Option Walked
namei t c cwd path = namex t c cwd path [] false

pub nameiparent : Tree → Cache → (cwd : ℕ) (path : List ℕ) → Option Walked
nameiparent t c cwd path = namex t c cwd path [] true
