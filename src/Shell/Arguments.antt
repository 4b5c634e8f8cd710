-- ===== src/Shell/Arguments.antt =====
-- The words of a command read back, with the redirections behind them.
use cse314_operating_system.Base.{
  ℕ, zero, suc, ◌+◌, ◌≤◌, ◌<◌, ◌≡◌, refl, sym, ap, ◌∙◌, true, false, List, [], ◌∷◌, ◌++◌,
  append-nil, append_assoc, arith, leb, length, All, length-append,
}
use cse314_operating_system.Shell.{
  Redir, ok, ◌>>=◌, whitespace, strchr, skip, token, gettoken, peek, parseredirs, parseargs,
}
use cse314_operating_system.Shell.Ends.{gettoken-skip}
use cse314_operating_system.Shell.Print.{
  is_plain, IsWord, IsRedir, show_words, show_redirs, show_words_le, show_redirs_le, Tight,
  Tight-words, Tight-redirs,
}
use cse314_operating_system.Shell.Words.{
  follows, stops, Tight-follows, Tight-∷, peek_cons, token-word, added, redir_symbols,
  gettoken-Tight, parseredirs_end, parseredirs-show,
}

-- `peek` of special characters at a word
pub peek-word :
    (toks w r : List ℕ)
    → ((c : ℕ) → is_plain c ≡ true → strchr toks c ≡ false)
    → IsWord w
    → peek toks (w ++ r) ≡ false
peek-word toks [] r special h = absurd h
peek-word toks (c ∷ w) r special h = peek_cons toks c (w ++ r) (ground (arith, h.0)) ∙ special c h.0

-- What is left to read when the redirections in front have been read
abbrev pub pending : List (List ℕ) → List Redir → List ℕ → List Redir × List ℕ
pending [] rs rest = (added rs [], rest)
pending (w ∷ ws) rs rest = ([], show_words (w ∷ ws) (show_redirs rs rest))

Tight-line :
    (ws : List (List ℕ)) (rs : List Redir) (rest : List ℕ)
    → All IsWord ws
    → follows stops rest ≡ true
    → Tight (show_words ws (show_redirs rs rest))
Tight-line ws rs rest h f =
    Tight-words ws (show_redirs rs rest) h (Tight-redirs rs rest (Tight-follows rest f))

pub parseredirs-pending :
    (n : ℕ) (ws : List (List ℕ)) (rs : List Redir) (rest : List ℕ)
    → All IsWord ws
    → All IsRedir rs
    → follows stops rest ≡ true
    → length rs < n
    → parseredirs n [] (show_words ws (show_redirs rs rest)) ≡ ok (pending ws rs rest)
parseredirs-pending n [] rs rest h k f l = parseredirs-show n [] rs rest k f l
parseredirs-pending zero (w ∷ ws) rs rest h k f l = absurd (omega (arith, l))
parseredirs-pending (suc n) (w ∷ ws) rs rest h k f l =
    parseredirs_end n [] (show_words (w ∷ ws) (show_redirs rs rest))
      (peek-word redir_symbols w (32 ∷ show_words ws (show_redirs rs rest))
        (λ c p. ground (arith, p)) h.0)
      (Tight-line (w ∷ ws) rs rest h f)

parseargs_end :
    (n argc : ℕ) (args : List (List ℕ)) (rs : List Redir) (rest : List ℕ)
    → follows stops rest ≡ true
    → parseargs (suc n) argc args rs rest ≡ ok ((args, rs), rest)
unfolding parseargs peek skip gettoken token
parseargs_end n argc args rs [] f = refl
parseargs_end n argc args rs (c ∷ r) f =
    let space : strchr whitespace c ≡ false = ground (arith, f) in
    let there : peek stops (c ∷ r) ≡ true = peek_cons stops c r space ∙ f in
    rw (there, Tight-∷ c r space, parseargs) refl

parseargs_step :
    (n argc : ℕ) (args : List (List ℕ)) (w s : List ℕ)
    → IsWord w
    → Tight s
    → argc + 1 < 10
    → parseargs (suc n) argc args [] (w ++ 32 ∷ s)
      ≡ (parseredirs n [] s >>= λ (rs', s'). parseargs n (argc + 1) (args ++ w ∷ []) rs' s')
unfolding parseargs
parseargs_step n argc args w s h t few =
    let line : List ℕ = w ++ 32 ∷ s in
    let tight : Tight line = Tight-words (w ∷ []) s (h, tt) t in
    let go_on : peek stops line ≡ false = peek-word stops w (32 ∷ s) (λ c p. ground (arith, p)) h in
    let first : gettoken (skip line) ≡ record { ret = b'a'; word = w; rest = s } =
      gettoken-skip line ∙ gettoken-Tight line tight ∙ token-word w s h t in
    let fits : leb 10 (argc + 1) ≡ false = ground (arith, few) in
    rw (go_on, first, fits, parseargs) refl

pub pending_le :
    (ws : List (List ℕ)) (rs : List Redir) (rest : List ℕ)
    → length (pending ws rs rest).1 ≤ length (show_words ws (show_redirs rs rest))
pending_le [] rs rest = omega (arith, show_redirs_le rs rest)
pending_le (w ∷ ws) rs rest = omega arith

pub parseargs-show :
    (n argc : ℕ) (args ws : List (List ℕ)) (rs : List Redir) (rest : List ℕ)
    → All IsWord ws
    → All IsRedir rs
    → follows stops rest ≡ true
    → argc + length ws < 10
    → length (pending ws rs rest).1 < n
    → parseargs n argc args (pending ws rs rest).0 (pending ws rs rest).1
      ≡ ok ((args ++ ws, added rs []), rest)
parseargs-show zero argc args ws rs rest h k f few l = absurd (omega (arith, l))
parseargs-show (suc n) argc args [] rs rest h k f few l =
    parseargs_end n argc args (added rs []) rest f
    ∙ ap (λ a. ok ((a, added rs []), rest)) (sym (append-nil args))
parseargs-show (suc n) argc args (w ∷ ws) rs rest h k f few l =
    let more : List ℕ = show_words ws (show_redirs rs rest) in
    let left = pending_le ws rs rest in
    let shorter = length-append w (32 ∷ more) in
    let redirs =
      parseredirs-pending n ws rs rest h.1 k f (
        omega
          (arith, l, shorter, show_words_le ws (show_redirs rs rest), show_redirs_le rs rest)) in
    let others =
      parseargs-show n (argc + 1) (args ++ w ∷ []) ws rs rest h.1 k f (omega (arith, few))
        (omega (arith, l, left, shorter)) in
    parseargs_step n argc args w more h.0 (Tight-line ws rs rest h.1 f) (omega (arith, few))
    ∙ ap (λ q. q >>= λ (rs', s'). parseargs n (argc + 1) (args ++ w ∷ []) rs' s') redirs
    ∙ others
    ∙ ap (λ a. ok ((a, added rs []), rest)) (append_assoc args (w ∷ []) ws)
