-- ===== src/Shell/Words.antt =====
-- Words and redirections read back.
use cse314_operating_system.Base.{
  ℕ, zero, suc, ◌<◌, ◌≡◌, refl, sym, ap, ◌∙◌, inl, inr, Bool, true, false, ◌||◌, List, [], ◌∷◌,
  ◌++◌, arith, ◌==◌, if◌then◌else◌, Bool-cases, length, All,
}
use cse314_operating_system.Shell.{
  Redir, ok, whitespace, singles, strchr, is_symbol, skip, word_of, next_is, token, gettoken, peek,
  redir_of, parseredirs,
}
use cse314_operating_system.Shell.Ends.{gettoken-skip}
use cse314_operating_system.Shell.Print.{
  is_plain, IsWord, IsRedir, show_redir, show_redirs, Tight, Tight-redirs,
}

-- The line ends, or goes on with one of the characters
abbrev pub follows : (toks : List ℕ) → List ℕ → Bool
follows toks [] = true
follows toks (c ∷ r) = strchr toks c

-- What may stand behind a command without parentheses
abbrev pub stops : List ℕ
stops = b'|' ∷ b')' ∷ b'&' ∷ b';' ∷ []

pub Tight-follows : (rest : List ℕ) → follows stops rest ≡ true → Tight rest
unfolding skip
Tight-follows [] f = refl
Tight-follows (c ∷ r) f =
    let t : strchr whitespace c ≡ false = ground (arith, f) in rw (t, skip) refl

pub Tight-∷ : (c : ℕ) (r : List ℕ) → strchr whitespace c ≡ false → Tight (c ∷ r)
unfolding skip
Tight-∷ c r t = rw (t, skip) refl

pub peek_cons :
    (toks : List ℕ) (c : ℕ) (r : List ℕ)
    → strchr whitespace c ≡ false
    → peek toks (c ∷ r) ≡ strchr toks c
unfolding peek skip
peek_cons toks c r t = rw (t, peek, skip) refl

-- `peek` of other characters than those that may follow
pub peek-follows :
    (toks fs rest : List ℕ)
    → ((c : ℕ) → strchr fs c ≡ true → (strchr toks c ≡ false) × (strchr whitespace c ≡ false))
    → follows fs rest ≡ true
    → peek toks rest ≡ false
unfolding peek skip
peek-follows toks fs [] apart f = refl
peek-follows toks fs (c ∷ r) apart f =
    let (other, space) = apart c f in peek_cons toks c r space ∙ other

word_of-append :
    (w r : List ℕ) → All (λ c. is_plain c ≡ true) w → word_of (w ++ 32 ∷ r) ≡ (w, 32 ∷ r)
unfolding word_of
word_of-append [] r h = refl
word_of-append (c ∷ w) r h =
    let t : (strchr whitespace c || is_symbol c) ≡ false = ground (arith, h.0) in
    rw (t, word_of-append w r h.1, word_of) refl

-- The token of a word
pub token-word :
    (w r : List ℕ)
    → IsWord w
    → Tight r
    → token (w ++ 32 ∷ r) ≡ record { ret = b'a'; word = w; rest = r }
unfolding token skip
token-word [] r h t = absurd h
token-word (c ∷ w) r h t =
    let gt : (c == b'>') ≡ false = ground (arith, h.0) in
    let single : strchr singles c ≡ false = ground (arith, h.0) in
    rw (gt, single, word_of-append (c ∷ w) r h, token) (rw t refl)

-- The redirections in the order in which they are read, added to those so far
abbrev pub added : List Redir → List Redir → List Redir
added [] acc = acc
added (r ∷ rs) acc = added rs (r ∷ acc)

abbrev pub redir_symbols : List ℕ
redir_symbols = b'<' ∷ b'>' ∷ []

-- The first token of a redirection, and its symbol in front of a rest
redir_token :
    (c : ℕ) (s : List ℕ)
    → Tight s
    → next_is b'>' s ≡ false
    → strchr redir_symbols c ≡ true
    → token (c ∷ s) ≡ record { ret = c; word = c ∷ []; rest = s }
unfolding token
redir_token c s t n h = elim (Bool-cases (c == b'>')) [
  | inl gt ↦ let is : c ≡ b'>' = ground (arith, gt) in rw (is, n, token) (rw t refl)
  | inr other ↦
      let single : strchr singles c ≡ true = ground (arith, h, other) in
      rw (other, single, token) (rw t refl)
]

redir_eq : (r r' : Redir) → r.file ≡ r'.file → r.mode ≡ r'.mode → r.fd ≡ r'.fd → r ≡ r'
redir_eq r r' e m f = cc

symbol_of :
    (r : Redir)
    → IsRedir r
    → (c : ℕ) × ((if r.fd == 0 then b'<' else b'>') ≡ c)
      × (strchr redir_symbols c ≡ true)
      × (redir_of c r.file ≡ r)
unfolding redir_of
symbol_of r (w, inl (m, f)) = (b'<', rw f refl, refl, redir_eq _ r refl (sym m) (sym f))
symbol_of r (w, inr (m, f)) = (b'>', rw f refl, refl, redir_eq _ r refl (sym m) (sym f))

pub gettoken-Tight : (s : List ℕ) → Tight s → gettoken s ≡ token s
unfolding gettoken
gettoken-Tight s t = ap token t

Tight-file : (w r : List ℕ) → IsWord w → Tight (w ++ 32 ∷ r) × (next_is b'>' (w ++ 32 ∷ r) ≡ false)
unfolding skip
Tight-file [] r h = absurd h
Tight-file (c ∷ w) r h =
    let t : strchr whitespace c ≡ false = ground (arith, h.0) in
    (rw (t, skip) refl, ground (arith, h.0))

parseredirs_at :
    (n : ℕ) (acc : List Redir) (c : ℕ) (file s : List ℕ)
    → strchr redir_symbols c ≡ true
    → IsWord file
    → Tight s
    → parseredirs (suc n) acc (c ∷ (file ++ 32 ∷ s)) ≡ parseredirs n (redir_of c file ∷ acc) s
unfolding parseredirs
parseredirs_at n acc c file s h w t =
    let line : List ℕ = c ∷ (file ++ 32 ∷ s) in
    let space : strchr whitespace c ≡ false = ground (arith, h) in
    let there : peek redir_symbols line ≡ true =
      peek_cons redir_symbols c (file ++ 32 ∷ s) space ∙ h in
    let (tight, other) = Tight-file file s w in
    let first : gettoken (skip line) ≡ record { ret = c; word = c ∷ []; rest = file ++ 32 ∷ s } =
      gettoken-skip line
      ∙ gettoken-Tight line (Tight-∷ c (file ++ 32 ∷ s) space)
      ∙ redir_token c (file ++ 32 ∷ s) tight other h in
    let second : gettoken (file ++ 32 ∷ s) ≡ record { ret = b'a'; word = file; rest = s } =
      gettoken-Tight (file ++ 32 ∷ s) tight ∙ token-word file s w t in
    rw (there, first, second, parseredirs) refl

parseredirs_step :
    (n : ℕ) (acc : List Redir) (r : Redir) (s : List ℕ)
    → IsRedir r
    → Tight s
    → parseredirs (suc n) acc (show_redir r s) ≡ parseredirs n (r ∷ acc) s
parseredirs_step n acc r s h t =
    let (c, is, symbol, same) = symbol_of r h in
    rw is (parseredirs_at n acc c r.file s symbol h.0 t ∙ ap (λ q. parseredirs n (q ∷ acc) s) same)

-- A line that does not go on with a redirection is left as it is.
pub parseredirs_end :
    (n : ℕ) (acc : List Redir) (s : List ℕ)
    → peek redir_symbols s ≡ false
    → Tight s
    → parseredirs (suc n) acc s ≡ ok (acc, s)
unfolding parseredirs
parseredirs_end n acc s p t = rw (p, t, parseredirs) refl

no_redir : (rest : List ℕ) → follows stops rest ≡ true → peek redir_symbols rest ≡ false
no_redir rest f =
    peek-follows redir_symbols stops rest (λ c h. (ground (arith, h), ground (arith, h))) f

-- `parseredirs` reads back all redirections that were written.
pub parseredirs-show :
    (n : ℕ) (acc rs : List Redir) (rest : List ℕ)
    → All IsRedir rs
    → follows stops rest ≡ true
    → length rs < n
    → parseredirs n acc (show_redirs rs rest) ≡ ok (added rs acc, rest)
parseredirs-show zero acc rs rest h f k = absurd (omega (arith, k))
parseredirs-show (suc n) acc [] rest h f k =
    parseredirs_end n acc rest (no_redir rest f) (Tight-follows rest f)
parseredirs-show (suc n) acc (r ∷ rs) rest h f k =
    parseredirs_step n acc r (show_redirs rs rest) h.0 (Tight-redirs rs rest (Tight-follows rest f))
    ∙ parseredirs-show n (r ∷ acc) rs rest h.1 f (omega (arith, k))
