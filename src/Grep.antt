-- ===== src/Grep.antt =====
-- The matcher of Offline 4/xv6/grep.c (the same file in Offline 3/xv6). A C string is the list of its
-- characters before the terminator.
pub mod Search
mod Tests
use cse314_operating_system.Base.{
  ℕ, zero, suc, ◌+◌, ◌-◌, ◌*◌, ◌/◌, ◌%◌, ◌^◌, ◌≤◌, ◌<◌, min, ◌≡◌, refl, sym, ap, ap₂, subst, ◌∙◌,
  fun_ext, ◌≢◌, ◌↔◌, ◌⊎◌, inl, inr, Bool, true, false, not, ◌&&◌, ◌||◌, Option, none, some, List,
  [], ◌∷◌, ◌++◌, map, append-nil, append_assoc, arith, dec_lt, ℕ_discrete, ltb, leb, ◌==◌,
  if◌then◌else◌, ltb→lt, lt→ltb, leb→le, ==_iff, Bool-cases, Option-cases, length, get_elem?,
  get_or, set, take, drop, replicate, All, length-append, length-set,
}

-- '^', '*', '$' and '.'
abbrev caret : ℕ
caret = 94

abbrev asterisk : ℕ
asterisk = 42

abbrev dollar : ℕ
dollar = 36

abbrev dot : ℕ
dot = 46

abbrev pub is_end : List ℕ → Bool
is_end [] = true
is_end (t ∷ ts) = false

-- `matchstar`, with `matchhere` of the rest of the pattern
pub match_star : (c : ℕ) → (here : List ℕ → Bool) → List ℕ → Bool
match_star c here [] = here []
match_star c here (t ∷ ts) =
    let more = match_star c here ts in if here (t ∷ ts) then true else (t == c || c == dot) && more

-- The last two lines of `matchhere`
pub match_one : (r : ℕ) → (here : List ℕ → Bool) → List ℕ → Bool
match_one r here [] = false
match_one r here (t ∷ ts) = (r == dot || r == t) && here ts

pub match_here : List ℕ → List ℕ → Bool
match_here [] text = true
match_here (r ∷ []) text = if r == dollar then is_end text else match_one r (match_here []) text
match_here (r ∷ s ∷ re) text =
    if s == asterisk
    then match_star r (match_here re) text
    else match_one r (match_here (s ∷ re)) text

-- The loop of `match`
pub search_from : (here : List ℕ → Bool) → List ℕ → Bool
search_from here [] = here []
search_from here (t ∷ ts) = let more = search_from here ts in if here (t ∷ ts) then true else more

-- `match`
pub match_text : List ℕ → List ℕ → Bool
match_text [] text = search_from (match_here []) text
match_text (r ∷ re) text =
    if r == caret then match_here re text else search_from (match_here (r ∷ re)) text
