-- ===== src/Shell/Print.antt =====
-- Commands written as a line: with as few parentheses as the levels of the grammar allow, and a space behind each
-- word.
use cse314_operating_system.Base.{
  ℕ, ◌+◌, ◌≤◌, ◌<◌, ◌≡◌, refl, ◌⊎◌, inl, inr, Bool, true, false, not, ◌||◌, List, [], ◌∷◌, ◌++◌,
  arith, ltb, ◌==◌, if◌then◌else◌, Bool-cases, length, All, length-append,
}
use cse314_operating_system.Shell.{
  Cmd, exec, redir, pipe, list, back, Redir, whitespace, strchr, is_symbol, skip,
}

-- The words of a command, in front of what follows
abbrev pub show_words : List (List ℕ) → List ℕ → List ℕ
show_words [] rest = rest
show_words (w ∷ ws) rest = w ++ 32 ∷ show_words ws rest

abbrev pub show_redir : Redir → List ℕ → List ℕ
show_redir r rest = (if r.fd == 0 then b'<' else b'>') ∷ (r.file ++ 32 ∷ rest)

abbrev pub show_redirs : List Redir → List ℕ → List ℕ
show_redirs [] rest = rest
show_redirs (r ∷ rs) rest = show_redir r (show_redirs rs rest)

abbrev pub in_parens : Bool → (List ℕ → List ℕ) → List ℕ → List ℕ
in_parens true f rest = b'(' ∷ f (b')' ∷ rest)
in_parens false f rest = f rest

-- A command at a level: 0 where a list may stand, 1 where `&` may, 2 for a pipe, and 3
unfoldable pub show : (level : ℕ) → Cmd → List ℕ → List ℕ
show l (exec ws) rest = show_words ws rest
show l (redir c r) rest = show 3 c (show_redir r rest)
show l (pipe c d) rest = in_parens (ltb 2 l) (λ r. show 3 c (b'|' ∷ show 2 d r)) rest
show l (list c d) rest = in_parens (ltb 0 l) (λ r. show 1 c (b';' ∷ show 0 d r)) rest
show l (back c) rest = in_parens (ltb 1 l) (λ r. show 1 c (b'&' ∷ r)) rest

-- A character of a word
abbrev pub is_plain : (c : ℕ) → Bool
is_plain c = not (strchr whitespace c || is_symbol c)

abbrev pub IsWord : List ℕ → Type 0
IsWord [] = ⊥
IsWord (c ∷ w) = (is_plain c ≡ true) × All (λ d. is_plain d ≡ true) w

-- The redirections that the shell has
abbrev pub IsRedir : Redir → Type 0
IsRedir r = IsWord r.file × ((r.mode ≡ 0 × (r.fd ≡ 0)) ⊎ (r.mode ≡ 0x201 × (r.fd ≡ 1)))

-- A command that can be written: its words have characters, none of them special, and there are fewer than MAXARGS
unfoldable pub Printable : Cmd → Type 0
Printable (exec ws) = All IsWord ws × (length ws < 10)
Printable (redir c r) = Printable c × IsRedir r
Printable (pipe c d) = Printable c × Printable d
Printable (list c d) = Printable c × Printable d
Printable (back c) = Printable c

pub show_words_le : (ws : List (List ℕ)) (rest : List ℕ) → length rest ≤ length (show_words ws rest)
show_words_le [] rest = omega arith
show_words_le (w ∷ ws) rest =
    omega (arith, length-append w (32 ∷ show_words ws rest), show_words_le ws rest)

pub show_redirs_le :
    (rs : List Redir) (rest : List ℕ) → length rs + length rest ≤ length (show_redirs rs rest)
show_redirs_le [] rest = omega arith
show_redirs_le (r ∷ rs) rest =
    omega (arith, length-append r.file (32 ∷ show_redirs rs rest), show_redirs_le rs rest)

pub show_le : (l : ℕ) (c : Cmd) (rest : List ℕ) → length rest ≤ length (show l c rest)
unfolding show
show_le l (exec ws) rest = show_words_le ws rest
show_le l (redir c r) rest =
    omega (arith, show_le 3 c (show_redir r rest), length-append r.file (32 ∷ rest))
show_le l (pipe c d) rest = elim (Bool-cases (ltb 2 l)) [
  | inl t ↦
      rw (t, show)
        (omega (arith, show_le 3 c (b'|' ∷ show 2 d (b')' ∷ rest)), show_le 2 d (b')' ∷ rest)))
  | inr t ↦ rw (t, show) (omega (arith, show_le 3 c (b'|' ∷ show 2 d rest), show_le 2 d rest))
]
show_le l (list c d) rest = elim (Bool-cases (ltb 0 l)) [
  | inl t ↦
      rw (t, show)
        (omega (arith, show_le 1 c (b';' ∷ show 0 d (b')' ∷ rest)), show_le 0 d (b')' ∷ rest)))
  | inr t ↦ rw (t, show) (omega (arith, show_le 1 c (b';' ∷ show 0 d rest), show_le 0 d rest))
]
show_le l (back c) rest = elim (Bool-cases (ltb 1 l)) [
  | inl t ↦ rw (t, show) (omega (arith, show_le 1 c (b'&' ∷ b')' ∷ rest)))
  | inr t ↦ rw (t, show) (omega (arith, show_le 1 c (b'&' ∷ rest)))
]

-- A line with no white space in front
abbrev pub Tight : List ℕ → Type 0
Tight s = skip s ≡ s

Tight-word : (w r : List ℕ) → IsWord w → Tight (w ++ r)
unfolding skip
Tight-word [] r h = absurd h
Tight-word (c ∷ w) r h =
    let t : strchr whitespace c ≡ false = ground (arith, h.0) in rw (t, skip) refl

pub Tight-words :
    (ws : List (List ℕ)) (rest : List ℕ) → All IsWord ws → Tight rest → Tight (show_words ws rest)
Tight-words [] rest h t = t
Tight-words (w ∷ ws) rest h t = Tight-word w (32 ∷ show_words ws rest) h.0

pub Tight-redir : (r : Redir) (rest : List ℕ) → Tight (show_redir r rest)
unfolding skip
Tight-redir r rest = elim (Bool-cases (r.fd == 0)) [ inl t ↦ rw t refl | inr t ↦ rw t refl ]

pub Tight-redirs : (rs : List Redir) (rest : List ℕ) → Tight rest → Tight (show_redirs rs rest)
Tight-redirs [] rest t = t
Tight-redirs (r ∷ rs) rest t = Tight-redir r (show_redirs rs rest)

pub Tight-paren : (s : List ℕ) → Tight (b'(' ∷ s)
unfolding skip
Tight-paren s = refl

pub Tight-closing : (s : List ℕ) → Tight (b')' ∷ s)
unfolding skip
Tight-closing s = refl

pub Tight-bar : (s : List ℕ) → Tight (b'|' ∷ s)
unfolding skip
Tight-bar s = refl

pub Tight-semi : (s : List ℕ) → Tight (b';' ∷ s)
unfolding skip
Tight-semi s = refl

pub Tight-and : (s : List ℕ) → Tight (b'&' ∷ s)
unfolding skip
Tight-and s = refl

pub Tight-show :
    (l : ℕ) (c : Cmd) (rest : List ℕ) → Printable c → Tight rest → Tight (show l c rest)
unfolding show Printable
Tight-show l (exec ws) rest h t = Tight-words ws rest h.0 t
Tight-show l (redir c r) rest h t = Tight-show 3 c (show_redir r rest) h.0 (Tight-redir r rest)
Tight-show l (pipe c d) rest h t = elim (Bool-cases (ltb 2 l)) [
  | inl p ↦ rw (p, show) (Tight-paren (show 3 c (b'|' ∷ show 2 d (b')' ∷ rest))))
  | inr p ↦ rw (p, show) (Tight-show 3 c (b'|' ∷ show 2 d rest) h.0 (Tight-bar (show 2 d rest)))
]
Tight-show l (list c d) rest h t = elim (Bool-cases (ltb 0 l)) [
  | inl p ↦ rw (p, show) (Tight-paren (show 1 c (b';' ∷ show 0 d (b')' ∷ rest))))
  | inr p ↦ rw (p, show) (Tight-show 1 c (b';' ∷ show 0 d rest) h.0 (Tight-semi (show 0 d rest)))
]
Tight-show l (back c) rest h t = elim (Bool-cases (ltb 1 l)) [
  | inl p ↦ rw (p, show) (Tight-paren (show 1 c (b'&' ∷ b')' ∷ rest)))
  | inr p ↦ rw (p, show) (Tight-show 1 c (b'&' ∷ rest) h (Tight-and rest))
]
