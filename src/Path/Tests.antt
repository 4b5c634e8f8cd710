-- ===== src/Path/Tests.antt =====
-- Paths and directories at concrete inputs.
use cse314_operating_system.Base.{
  inr, inl, Bool-cases, false, ℕ, ◌+◌, ◌≡◌, refl, true, Option, none, some, List, [], ◌∷◌, arith,
  ◌==◌, if◌then◌else◌,
}
use cse314_operating_system.Path.{
  Tree, Cache, Walked, panics, ends, directory, other, is_free, get, dup, put, Dirent, put_entry,
  new_entry, skipelem, namei, namex, dirlookup, skip_slashes, split_element, element, namex_from,
  find, lookup_from, namecmp, same_prefix,
}
use cse314_operating_system.Path.Hold.{one_of, fresh_of}
use cse314_operating_system.Path.Walk.{components}
use cse314_operating_system.Path.Namex.{walk, namex_lem}

-- The examples of the comment above `skipelem`
skipelem-examples :
    (skipelem (b'/' ∷ b'/' ∷ b'a' ∷ b'/' ∷ b'/' ∷ b'b' ∷ b'b' ∷ [])
      ≡ some (b'a' ∷ [], b'b' ∷ b'b' ∷ []))
    × (skipelem (b'a' ∷ []) ≡ some (b'a' ∷ [], []))
    × (skipelem (b'/' ∷ b'/' ∷ []) ≡ none)
unfolding skipelem skip_slashes split_element element
skipelem-examples = (refl, refl, refl)

abbrev tree : Tree
tree inum =
    if inum == 1
    then directory (record { inum = 7; is_ushort = omega arith; name = b'd' ∷ [] } ∷ [])
    else if inum == 7
    then directory (
        record { inum = 0; is_ushort = omega arith; name = b'f' ∷ [] }
        ∷ record { inum = 9; is_ushort = omega arith; name = b'f' ∷ [] }
        ∷ [])
    else other

abbrev path : List ℕ
path = b'/' ∷ b'd' ∷ b'/' ∷ b'/' ∷ b'f' ∷ b'/' ∷ []

-- The inode number of a result
abbrev inode_of : Option Walked → Option (Option ℕ)
inode_of none = none
inode_of (some panics) = none
inode_of (some (ends none c)) = some none
inode_of (some (ends (some (ip, name)) c)) = some (some ip)

-- A cache in which only the current directory has a reference
abbrev cached : Cache
cached = record { refs = λ i. if i == 3 then 1 else 0; used = 1 }

namei-example : inode_of (namei tree cached 3 path) ≡ some (some 9)
unfolding namei namex namex_from get dup put find dirlookup lookup_from namecmp same_prefix skipelem
    skip_slashes split_element element
namei-example = refl

abbrev one_empty : List Dirent
one_empty = record { inum = 0; is_ushort = omega arith; name = [] } ∷ []

-- An inode number of seventeen bits is not found.
dirlink-large : dirlookup (put_entry (new_entry (b'x' ∷ []) 65536) one_empty) (b'x' ∷ []) ≡ none
unfolding dirlookup lookup_from put_entry
dirlink-large = refl

-- A full cache makes `iget` panic.
namei_full :
    namei tree (record { refs = λ i. if i == 3 then 1 else 0; used = 50 }) 3 path ≡ some panics
unfolding namei namex get
namei_full = refl

tree-typed :
    (ip next : ℕ) (name : List ℕ) → find tree ip name ≡ some next → is_free tree next ≡ false
tree-typed ip next name e = elim (Bool-cases (next == 1)) [
  | inl root ↦ rw (root, is_free) refl
  | inr away ↦ elim (Bool-cases (next == 7)) [
    | inl seven ↦ rw (away, is_free, seven) refl
    | inr elsewhere ↦ rw (away, is_free, elsewhere) refl
  ]
]

namex_lem_example :
    (c' : Cache) × (namex tree cached 3 path [] true
      ≡ some (ends (walk tree 1 (components path) [] true) c'))
    × ((i : ℕ) → c'.refs i ≡ cached.refs i + one_of i (walk tree 1 (components path) [] true))
    × (c'.used ≡ 1 + fresh_of cached.refs (walk tree 1 (components path) [] true))
namex_lem_example = namex_lem tree cached 3 path [] true tree-typed (omega arith) (omega arith) refl
