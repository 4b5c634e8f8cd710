-- ===== src/Grep/Search.antt =====
-- What the loops of the matcher find.
use cse314_operating_system.Base.{
  ℕ, zero, suc, ◌≤◌, ◌≡◌, refl, ◌↔◌, inl, inr, Bool, true, false, ◌&&◌, ◌||◌, List, [], ◌∷◌, arith,
  ◌==◌, if◌then◌else◌, Bool-cases, length, get_or, take, drop, All,
}
use cse314_operating_system.Grep.{match_star, match_here, search_from, match_text}

-- A suffix of the text that passes the test
abbrev pub Somewhere : (List ℕ → Bool) → List ℕ → Type 0
Somewhere here text = (k : ℕ) × (k ≤ length text) × (here (drop k text) ≡ true)

-- A suffix of the text that passes the test, behind characters that `c` stands for
abbrev pub AfterRun : ℕ → (List ℕ → Bool) → List ℕ → Type 0
AfterRun c here text =
    (k : ℕ) × (k ≤ length text)
    × All (λ t. (t == c || c == 46) ≡ true) (take k text)
    × (here (drop k text) ≡ true)

next : (a b : Bool) → a ≡ false → (if a then true else b) ≡ true → b ≡ true
next true b h e = absurd (grind (arith, h))
next false b h e = e

both : (a b : Bool) → (a && b) ≡ true → (a ≡ true) × (b ≡ true)
both true b e = (refl, e)
both false b e = absurd (grind (arith, e))

search_from-Somewhere :
    (here : List ℕ → Bool) (text : List ℕ) → search_from here text ≡ true → Somewhere here text
unfolding search_from
search_from-Somewhere here [] e = (0, omega arith, e)
search_from-Somewhere here (t ∷ ts) e = elim (Bool-cases (here (t ∷ ts))) [
  | inl found ↦ (0, omega arith, found)
  | inr later ↦
      let (k, le, found) =
        search_from-Somewhere here ts (next (here (t ∷ ts)) (search_from here ts) later e) in
      (suc k, omega arith, found)
]

Somewhere-search_from :
    (here : List ℕ → Bool) (text : List ℕ) (k : ℕ)
    → k ≤ length text
    → here (drop k text) ≡ true
    → search_from here text ≡ true
unfolding search_from
Somewhere-search_from here [] zero le e = e
Somewhere-search_from here [] (suc k) le e = absurd (omega arith)
Somewhere-search_from here (t ∷ ts) zero le e = rw (e, search_from) refl
Somewhere-search_from here (t ∷ ts) (suc k) le e =
    let later = Somewhere-search_from here ts k (omega arith) e in
    elim (Bool-cases (here (t ∷ ts))) [
      | inl found ↦ rw (found, search_from) refl
      | inr no_match ↦ rw (no_match, search_from) later
    ]

-- Without `^` in front, a pattern matches a text exactly when `matchhere` accepts the text from some
-- position on, its end included.
pub match_text-Somewhere :
    (re text : List ℕ)
    → (get_or re 0 0 == 94) ≡ false
    → (match_text re text ≡ true) ↔ Somewhere (match_here re) text
unfolding match_text
match_text-Somewhere [] text h = (
  search_from-Somewhere (match_here []) text,
  λ (k, le, e). Somewhere-search_from (match_here []) text k le e,
)
match_text-Somewhere (r ∷ re) text h =
    rw (h, match_text)
      (
        search_from-Somewhere (match_here (r ∷ re)) text,
        λ w. Somewhere-search_from (match_here (r ∷ re)) text w.0 w.1 w.2,
      )

match_star-AfterRun :
    (c : ℕ) (here : List ℕ → Bool) (text : List ℕ)
    → match_star c here text ≡ true
    → AfterRun c here text
unfolding match_star
match_star-AfterRun c here [] e = (0, omega arith, tt, e)
match_star-AfterRun c here (t ∷ ts) e = elim (Bool-cases (here (t ∷ ts))) [
  | inl found ↦ (0, omega arith, tt, found)
  | inr later ↦
      let (fits, more) =
        both (t == c || c == 46) (match_star c here ts)
          (next (here (t ∷ ts)) ((t == c || c == 46) && match_star c here ts) later e) in
      let (k, le, run, found) = match_star-AfterRun c here ts more in
      (suc k, omega arith, (fits, run), found)
]

AfterRun-match_star :
    (c : ℕ) (here : List ℕ → Bool) (text : List ℕ) (k : ℕ)
    → k ≤ length text
    → All (λ t. (t == c || c == 46) ≡ true) (take k text)
    → here (drop k text) ≡ true
    → match_star c here text ≡ true
unfolding match_star
AfterRun-match_star c here [] zero le run e = e
AfterRun-match_star c here [] (suc k) le run e = absurd (omega arith)
AfterRun-match_star c here (t ∷ ts) zero le run e = rw (e, match_star) refl
AfterRun-match_star c here (t ∷ ts) (suc k) le run e =
    let more = AfterRun-match_star c here ts k (omega arith) run.1 e in
    elim (Bool-cases (here (t ∷ ts))) [
      | inl found ↦ rw (found, match_star) refl
      | inr no_match ↦ rw (no_match, run.0, match_star) more
    ]

-- `matchstar` succeeds exactly when the rest of the pattern matches behind some number of characters, none
-- included, that the starred one stands for.
pub match_star-run :
    (c : ℕ) (here : List ℕ → Bool) (text : List ℕ)
    → (match_star c here text ≡ true) ↔ AfterRun c here text
match_star-run c here text =
    (match_star-AfterRun c here text, λ w. AfterRun-match_star c here text w.0 w.1 w.2 w.3)
