-- ===== src/Path/Walk.antt =====
-- `skipelem` and `namex` against a path split at its slashes.
use cse314_operating_system.Base.{
  ℕ, ◌≤◌, ◌<◌, ◌≡◌, refl, sym, ap, subst, ◌∙◌, inl, inr, Bool, true, false, Option, none, some,
  List, [], ◌∷◌, arith, ◌==◌, if◌then◌else◌, Bool-cases, length, take,
}
use cse314_operating_system.Base.{take}
use cse314_operating_system.Path.{dirsiz, skip_slashes, element, split_element, skipelem, is_empty}

-- A path split at each slash, and its elements that are not empty
abbrev pub push : ℕ → List (List ℕ) → List (List ℕ)
push c [] = (c ∷ []) ∷ []
push c (w ∷ ws) = (c ∷ w) ∷ ws

pub split : List ℕ → List (List ℕ)
split [] = [] ∷ []
split (c ∷ s) = let rest = split s in if c == b'/' then [] ∷ rest else push c rest

abbrev pub nonempty : List (List ℕ) → List (List ℕ)
nonempty [] = []
nonempty ([] ∷ ws) = nonempty ws
nonempty ((c ∷ w) ∷ ws) = (c ∷ w) ∷ nonempty ws

abbrev pub components : List ℕ → List (List ℕ)
components path = nonempty (split path)

skip_slashes-stay : (c : ℕ) (s : List ℕ) → (c == b'/') ≡ false → skip_slashes (c ∷ s) ≡ c ∷ s
unfolding skip_slashes
skip_slashes-stay c s other = rw (other, skip_slashes) refl

components-skip_slashes : (s : List ℕ) → components (skip_slashes s) ≡ components s
unfolding skip_slashes split
components-skip_slashes [] = refl
components-skip_slashes (c ∷ s) = elim (Bool-cases (c == b'/')) [
  | inl slash ↦ rw (slash, skip_slashes, split) (components-skip_slashes s)
  | inr other ↦ ap components (skip_slashes-stay c s other)
]

-- What follows the first element of a path, without its slash
abbrev after : List ℕ → List (List ℕ)
after [] = []
after (c ∷ s) = split s

split-element : (s : List ℕ) → let (e, rest) = element s in split s ≡ e ∷ after rest
unfolding split element
split-element [] = refl
split-element (c ∷ s) = elim (Bool-cases (c == b'/')) [
  | inl slash ↦ rw (slash, element, split) refl
  | inr other ↦ rw (other, element, split, split-element s) refl
]

-- The rest is nothing, or starts with a slash.
element-rest : (s : List ℕ) → let (e, rest) = element s in components rest ≡ nonempty (after rest)
unfolding split element
element-rest [] = refl
element-rest (c ∷ s) = elim (Bool-cases (c == b'/')) [
  | inl slash ↦ rw (slash, element, split, slash) refl
  | inr other ↦ rw (other, element) (element-rest s)
]

length-element : (s : List ℕ) → let (e, rest) = element s in length rest ≤ length s
unfolding element
length-element [] = omega arith
length-element (c ∷ s) = elim (Bool-cases (c == b'/')) [
  | inl slash ↦ rw (slash, element) (omega arith)
  | inr other ↦ rw (other, element) (omega (arith, length-element s))
]

length-skip_slashes : (s : List ℕ) → length (skip_slashes s) ≤ length s
unfolding skip_slashes
length-skip_slashes [] = omega arith
length-skip_slashes (c ∷ s) = ground (arith, length-skip_slashes s)

abbrev pub is_nil : List (List ℕ) → Bool
is_nil [] = true
is_nil (w ∷ ws) = false

-- What is left after the slashes starts with another character.
skip_slashes-first :
    (s : List ℕ) (c : ℕ) (s' : List ℕ) → skip_slashes s ≡ c ∷ s' → (c == b'/') ≡ false
unfolding skip_slashes
skip_slashes-first [] c s' e = absurd (cc e)
skip_slashes-first (d ∷ s) c s' e = elim (Bool-cases (d == b'/')) [
  | inl slash ↦
      skip_slashes-first s c s'
        (subst (λ b. (if b then skip_slashes s else d ∷ s) ≡ c ∷ s') slash e)
  | inr other ↦
      let same : d ∷ s ≡ c ∷ s' =
        subst (λ b. (if b then skip_slashes s else d ∷ s) ≡ c ∷ s') other e in
      let first : d ≡ c = cc same in subst (λ x. (x == b'/') ≡ false) first other
]

is_nil-push : (c : ℕ) (ws : List (List ℕ)) → is_nil (nonempty (push c ws)) ≡ false
is_nil-push c [] = refl
is_nil-push c (w ∷ ws) = refl

-- A path with no slash in front is empty when it has no element.
is_empty-components :
    (s : List ℕ)
    → ((c : ℕ) (s' : List ℕ) → s ≡ c ∷ s' → (c == b'/') ≡ false)
    → is_empty s ≡ is_nil (components s)
unfolding split
is_empty-components [] first = refl
is_empty-components (c ∷ s) first = sym (rw (first c s refl, split) (is_nil-push c (split s)))

-- What `skipelem` answers: nothing when the path has no element; else the first fourteen characters of the first
-- element, and a shorter path with the other elements, which is empty when there are none.
abbrev pub Skipped : (path : List ℕ) → Option (List ℕ × List ℕ) → Type 0
Skipped path none = components path ≡ []
Skipped path (some (name, rest)) =
    (e : List ℕ) × (components path ≡ e ∷ components rest)
    × (name ≡ take dirsiz e)
    × (length rest < length path)
    × (is_empty rest ≡ is_nil (components rest))

split_element-Skipped :
    (s : List ℕ)
    → ((c : ℕ) (s' : List ℕ) → s ≡ c ∷ s' → (c == b'/') ≡ false)
    → Skipped s (split_element s)
unfolding split_element split element
split_element-Skipped [] first = refl
split_element-Skipped (c ∷ s) first =
    let (e, rest) = element s in
    let other = first c s refl in
    rw (other, element)
      (
        c ∷ e,
        rw (split-element s)
            (ap (λ r. (c ∷ e) ∷ r) (sym (components-skip_slashes rest ∙ element-rest s))),
        refl,
        omega (arith, length-skip_slashes rest, length-element s),
        is_empty-components (skip_slashes rest) (skip_slashes-first rest),
      )

Skipped-slashes :
    (path s : List ℕ) (o : Option (List ℕ × List ℕ))
    → components s ≡ components path
    → length s ≤ length path
    → Skipped s o
    → Skipped path o
Skipped-slashes path s none same short e = sym same ∙ e
Skipped-slashes path s (some (name, rest)) same short (e, parts, named, less, done) =
    (e, sym same ∙ parts, named, omega (arith, less, short), done)

pub skipelem-Skipped : (path : List ℕ) → Skipped path (skipelem path)
unfolding skipelem
skipelem-Skipped path =
    Skipped-slashes path (skip_slashes path) (split_element (skip_slashes path))
      (components-skip_slashes path) (length-skip_slashes path)
      (split_element-Skipped (skip_slashes path) (skip_slashes-first path))
