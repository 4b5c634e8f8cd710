-- ===== src/Path/Namex.antt =====
-- `namex` walks the elements of the path, and keeps the counts of references.
use cse314_operating_system.Base.{
  leb, Bool-cases, ◌≤◌, ℕ, zero, suc, ◌+◌, ◌<◌, ◌≡◌, refl, sym, ap, subst, ◌∙◌, inl, inr, Bool,
  true, false, ◌&&◌, Option, none, some, List, [], ◌∷◌, arith, ◌==◌, if◌then◌else◌, Option-cases,
  length, take,
}
use cse314_operating_system.Base.{take}
use cse314_operating_system.Path.{
  dirsiz, skipelem, is_empty, Tree, Cache, add_ref, get, dup, put, find, is_dir, is_free, panics,
  ends, namex_from, namex, rootino, absolute,
}
use cse314_operating_system.Path.Hold.{
  one_of, fresh_of, Holds, Answers, Answers-none, Answers-stays, Holds-next,
}
use cse314_operating_system.Path.Walk.{components, is_nil, Skipped, skipelem-Skipped}

-- The walk over the elements of a path: with `parent`, to the directory that the last one is in.
pub walk : Tree → (ip : ℕ) → List (List ℕ) → (name : List ℕ) → (parent : Bool) → Option (ℕ × List ℕ)
walk t ip [] name parent = if parent then none else some (ip, name)
walk t ip (e ∷ es) name parent = elim (is_dir t ip) [
  | false ↦ none
  | true ↦ elim (parent && is_nil es) [
    | true ↦ some (ip, take dirsiz e)
    | false ↦ elim (find t ip (take dirsiz e)) [
      | none ↦ none
      | some next ↦ walk t next es (take dirsiz e) parent
    ]
  ]
]

walk-end :
    (t : Tree) (ip : ℕ) (name : List ℕ) (parts : List (List ℕ)) (parent : Bool)
    → parts ≡ []
    → walk t ip parts name parent ≡ (if parent then none else some (ip, name))
unfolding walk
walk-end t ip name parts parent e = rw (e, walk) refl

-- The walk at its first element
abbrev walk_on :
    Tree
    → (ip : ℕ) (e : List ℕ) (es : List (List ℕ)) (parent dir last : Bool) (next : Option ℕ)
    → Option (ℕ × List ℕ)
walk_on t ip e es parent false last next = none
walk_on t ip e es parent true true next = some (ip, take dirsiz e)
walk_on t ip e es parent true false none = none
walk_on t ip e es parent true false (some n) = walk t n es (take dirsiz e) parent

walk-cons :
    (t : Tree) (ip : ℕ) (name e : List ℕ) (parts es : List (List ℕ)) (parent : Bool)
    → parts ≡ e ∷ es
    → walk t ip parts name parent
      ≡ walk_on t ip e es parent (is_dir t ip) (parent && is_nil es) (find t ip (take dirsiz e))
unfolding walk
walk-cons t ip name e parts es parent eq =
    ap (λ p. walk t ip p name parent) eq
    ∙ by_cases (is_dir t ip) (parent && is_nil es) (find t ip (take dirsiz e))
  where
    by_cases :
        (dir last : Bool) (next : Option ℕ)
        → elim dir [
          | false ↦ none
          | true ↦ elim last [
            | true ↦ some (ip, take dirsiz e)
            | false ↦ elim next [ none ↦ none | some n ↦ walk t n es (take dirsiz e) parent ]
          ]
        ]
          ≡ walk_on t ip e es parent dir last next
    by_cases false last next = refl
    by_cases true true next = refl
    by_cases true false none = refl
    by_cases true false (some n) = refl

module _ (t : Tree)
    (typed : (ip next : ℕ) (name : List ℕ) → find t ip name ≡ some next → is_free t next ≡ false)
    (old : Cache) (room : old.used ≤ 48) where
  -- The end of the path
  Answers-end :
      (c : Cache) (ip : ℕ) (name : List ℕ) (r : Option (ℕ × List ℕ)) (b : Bool)
      → Holds old c ip
      → r ≡ (if b then none else some (ip, name))
      → Answers old r (some (if b then ends none (put c ip) else ends (some (ip, name)) c))
  Answers-end c ip name r true h e = rw e (Answers-none old c ip h)
  Answers-end c ip name r false h e = rw e (Answers-stays old c ip name h)

  -- One element of the path
  Answers-element :
      (f : ℕ) (c : Cache) (ip : ℕ) (e rest : List ℕ) (es : List (List ℕ)) (parent : Bool)
      (r : Option (ℕ × List ℕ)) (dir last : Bool) (next : Option ℕ)
      → Holds old c ip
      → next ≡ find t ip (take dirsiz e)
      → r ≡ walk_on t ip e es parent dir last next
      → ((n : ℕ) (c' : Cache)
          → Holds old c' n
          → is_free t n ≡ false
          → Answers old
              (walk t n es (take dirsiz e) parent)
              (namex_from f t c' n rest (take dirsiz e) parent))
      → Answers old r (elim dir [
        | false ↦ some (ends none (put c ip))
        | true ↦ elim last [
          | true ↦ some (ends (some (ip, take dirsiz e)) c)
          | false ↦ elim next [
            | none ↦ some (ends none (put c ip))
            | some n ↦ elim (get c n) [
              | none ↦ some panics
              | some c' ↦ namex_from f t (put c' ip) n rest (take dirsiz e) parent
            ]
          ]
        ]
      ])
  Answers-element f c ip e rest es parent r false last next h found on ih =
      rw on (Answers-none old c ip h)
  Answers-element f c ip e rest es parent r true true next h found on ih =
      rw on (Answers-stays old c ip (take dirsiz e) h)
  Answers-element f c ip e rest es parent r true false none h found on ih =
      rw on (Answers-none old c ip h)
  Answers-element f c ip e rest es parent r true false (some n) h found on ih =
      let (c', got, holds) = Holds-next old c ip n room h in
      rw (on, got) (ih n (put c' ip) holds (typed ip n (take dirsiz e) (sym found)))

  namex_from-Answers :
      (f : ℕ) (c : Cache) (ip : ℕ) (path name : List ℕ) (parent : Bool)
      → length path < f
      → is_free t ip ≡ false
      → Holds old c ip
      → Answers old (walk t ip (components path) name parent) (namex_from f t c ip path name parent)
  unfolding namex_from
  namex_from-Answers zero c ip path name parent enough used h = absurd (omega arith)
  namex_from-Answers (suc f) c ip path name parent enough used h =
      elim (Option-cases (skipelem path)) [
        | inl e ↦
            let over : components path ≡ [] = subst (Skipped path) e (skipelem-Skipped path) in
            rw (e, namex_from)
              (Answers-end c ip name (walk t ip (components path) name parent) parent h
                (walk-end t ip name (components path) parent over))
        | inr ((el, rest), e) ↦
            let (e0, parts, named, less, done) = subst (Skipped path) e (skipelem-Skipped path) in
            let on =
              walk-cons t ip name e0 (components path) (components rest) parent parts
              ∙ ap
                  (λ b.
                    walk_on t ip e0 (components rest) parent (is_dir t ip) (parent && b)
                      (find t ip (take dirsiz e0)))
                  (sym done) in
            rw (e ∙ ap (λ n. some (n, rest)) named, used, namex_from)
              (Answers-element f c ip e0 rest (components rest) parent
                (walk t ip (components path) name parent) (is_dir t ip) (parent && is_empty rest)
                (find t ip (take dirsiz e0)) h refl on
                (λ n c' held used'.
                  namex_from-Answers f c' n rest (take dirsiz e0) parent
                    (omega (arith, less, enough)) used' held))
      ]

  Holds-dup : (cwd : ℕ) → 0 < old.refs cwd → Holds old (dup old cwd) cwd
  unfolding dup
  Holds-dup cwd held = record { refs = λ i. ground arith; used = ground (arith, held) }

  -- The root in the cache
  Holds-get : (ip : ℕ) → (c : Cache) × (get old ip ≡ some c) × Holds old c ip
  unfolding get
  Holds-get ip = elim (Bool-cases (old.refs ip == 0)) [
    | inl new ↦
        let roomy : leb 50 old.used ≡ false = ground (arith, room) in
        (
          record { refs = add_ref old.refs ip; used = old.used + 1 },
          rw (new, roomy, get) refl,
          record { refs = λ i. ground arith; used = ground (arith, new) },
        )
    | inr cached ↦ (
      record old { refs = add_ref old.refs ip },
      rw (cached, get) refl,
      record { refs = λ i. ground arith; used = ground (arith, cached) },
    )
  ]

-- `namex` ends with a round for each character of the path and one more, and without a panic, if two slots of the
-- inode cache are free, the current directory is in the cache, and the inodes that it starts from and that the
-- entries of directories name have a type; each inode that it gives up is taken to have a link or another reference,
-- so that `iput` frees none. It walks the elements of the path, split at its slashes, from the root for an absolute
-- path and from the current directory for another: through directories only, each element cut to fourteen
-- characters, and with `parent` up to the directory of the last element. Of all the references that it takes it
-- keeps the one to its result, and none when there is no result; and it takes no slot of the cache but that of its
-- result.
pub namex_lem :
    (t : Tree) (c : Cache) (cwd : ℕ) (path name : List ℕ) (parent : Bool)
    → ((ip next : ℕ) (entry : List ℕ) → find t ip entry ≡ some next → is_free t next ≡ false)
    → c.used ≤ 48
    → 0 < c.refs cwd
    → is_free t (if absolute path then rootino else cwd) ≡ false
    → let result = walk t (if absolute path then rootino else cwd) (components path) name parent in
      (c' : Cache) × (namex t c cwd path name parent ≡ some (ends result c'))
      × ((i : ℕ) → c'.refs i ≡ c.refs i + one_of i result)
      × (c'.used ≡ c.used + fresh_of c.refs result)
unfolding namex
namex_lem t c cwd path name parent typed room held used = elim (Bool-cases (absolute path)) [
  | inl root ↦
      let (c1, got, h) = Holds-get t typed c room rootino in
      let used' = subst (λ b. is_free t (if b then rootino else cwd) ≡ false) root used in
      let a =
        namex_from-Answers t typed c room (suc (length path)) c1 rootino path name parent
          (omega arith) used' h in
      rw (root, got, namex) (a.cache, a.answer, a.refs, a.used)
  | inr here ↦
      let used' = subst (λ b. is_free t (if b then rootino else cwd) ≡ false) here used in
      let a =
        namex_from-Answers t typed c room (suc (length path)) (dup c cwd) cwd path name parent
          (omega arith) used' (Holds-dup t typed c room cwd held) in
      rw (here, namex) (a.cache, a.answer, a.refs, a.used)
]
