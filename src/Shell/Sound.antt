-- ===== src/Shell/Sound.antt =====
-- The commands that the parser of the shell makes can all be written.
use cse314_operating_system.Base.{
  ℕ, zero, suc, ◌+◌, ◌*◌, ◌<◌, ◌≡◌, refl, sym, ap, subst, ◌∙◌, inl, inr, Bool, true, false, ◌||◌,
  List, [], ◌∷◌, ◌++◌, arith, leb, ◌==◌, if◌then◌else◌, Bool-cases, length, All, length-append,
}
use cse314_operating_system.Shell.{
  Cmd, exec, back, Redir, Panic, Result, ok, panics, out_of_fuel, ◌>>=◌, whitespace, singles,
  strchr, is_symbol, skip, word_of, next_is, token, gettoken, peek, redir_of, wrap, parseredirs,
  parseargs, parsebacks, parseline, parsepipe, parseexec, parseblock, all_read, parsecmd,
  missing_file, missing_paren, no_block, not_word, too_many_args,
}
use cse314_operating_system.Shell.Ends.{skip-cases}
use cse314_operating_system.Shell.Print.{is_plain, IsWord, IsRedir, Printable, show}
use cse314_operating_system.Shell.RoundTrip.{parsecmd-show}

-- What a result holds, if it is no error
pub Yields : {A : Type 0} → (A → Type 0) → Result A → Type 0
Yields P (ok (a, s)) = P a
Yields P (panics p) = Unit
Yields P out_of_fuel = Unit

module _ {A : Type 0} (P : A → Type 0) where
  Yields-if :
      (b : Bool) (x y : Result A)
      → (b ≡ true → Yields P x)
      → (b ≡ false → Yields P y)
      → Yields P (if b then x else y)
  Yields-if true x y h k = h refl
  Yields-if false x y h k = k refl

  Yields->>= :
      {B : Type 0} (Q : B → Type 0) (r : Result B) (f : B × List ℕ → Result A)
      → Yields Q r
      → ((b : B) (s : List ℕ) → Q b → Yields P (f (b, s)))
      → Yields P (r >>= f)
  unfolding Yields
  Yields->>= Q (ok (b, s)) f e h = h b s e
  Yields->>= Q (panics p) f e h = tt
  Yields->>= Q out_of_fuel f e h = tt

  Yields-ok : (a : A) (s : List ℕ) → P a → Yields P (ok (a, s))
  unfolding Yields
  Yields-ok a s h = h

  Yields-panics : (p : Panic) → Yields P (panics p)
  unfolding Yields
  Yields-panics p = tt

word_of-plain : (s : List ℕ) → All (λ c. is_plain c ≡ true) (word_of s).0
unfolding word_of
word_of-plain [] = tt
word_of-plain (c ∷ s) = elim (Bool-cases (strchr whitespace c || is_symbol c)) [
  | inl t ↦ rw (t, word_of) tt
  | inr t ↦ rw (t, word_of) (rw t refl, word_of-plain s)
]

word_of-IsWord :
    (c : ℕ) (s : List ℕ) → (strchr whitespace c || is_symbol c) ≡ false → IsWord (word_of (c ∷ s)).0
unfolding word_of
word_of-IsWord c s t = rw (t, word_of) (rw t refl, word_of-plain s)

token-IsWord :
    (c : ℕ) (s : List ℕ)
    → strchr whitespace c ≡ false
    → (token (c ∷ s)).ret ≡ b'a'
    → IsWord (token (c ∷ s)).word
unfolding token
token-IsWord c s t a = elim (Bool-cases (c == b'>')) [
  | inl gt ↦ elim (Bool-cases (next_is b'>' s)) [
    | inl two ↦
        let is : (token (c ∷ s)).ret ≡ b'+' = rw (gt, two, token) refl in
        absurd (omega (arith, a, is))
    | inr one ↦
        let is : (token (c ∷ s)).ret ≡ b'>' = rw (gt, one, token) refl in
        absurd (omega (arith, a, is))
  ]
  | inr other ↦ elim (Bool-cases (strchr singles c)) [
    | inl single ↦
        let is : (token (c ∷ s)).ret ≡ c = rw (other, single, token) refl in
        absurd (ground (arith, a, is, single))
    | inr word ↦ rw (other, word, token) (word_of-IsWord c s (ground (arith, t, other, word)))
  ]
]

gettoken-IsWord : (s : List ℕ) → ((gettoken s).ret == b'a') ≡ true → IsWord (gettoken s).word
unfolding gettoken token
gettoken-IsWord s h = elim (skip-cases s) [
  | inl q ↦ let is : (gettoken s).ret ≡ 0 = rw (q, token) refl in absurd (ground (arith, h, is))
  | inr (c, r, q, t) ↦
      let is : (token (c ∷ r)).ret ≡ b'a' = ap (λ x. (token x).ret) (sym q) ∙ ground (arith, h) in
      rw q (token-IsWord c r t is)
]

redir_of-IsRedir : (tok : ℕ) (file : List ℕ) → IsWord file → IsRedir (redir_of tok file)
unfolding redir_of
redir_of-IsRedir tok file w = elim (Bool-cases (tok == b'<')) [
  | inl t ↦ rw (t, redir_of) (w, inl (refl, refl))
  | inr t ↦ rw (t, redir_of) (w, inr (refl, refl))
]

parseredirs-IsRedir :
    (n : ℕ) (rs : List Redir) (s : List ℕ)
    → All IsRedir rs
    → Yields (All IsRedir) (parseredirs n rs s)
unfolding parseredirs Yields
parseredirs-IsRedir zero rs s h = tt
parseredirs-IsRedir (suc n) rs s h =
    let t = gettoken (skip s) in
    let f = gettoken t.rest in
    Yields-if (All IsRedir) (peek (b'<' ∷ b'>' ∷ []) s) _ _
      (λ p.
        Yields-if (All IsRedir) (f.ret == b'a') _ _
          (λ w.
            parseredirs-IsRedir n (redir_of t.ret f.word ∷ rs) f.rest
              (redir_of-IsRedir t.ret f.word (gettoken-IsWord t.rest w), h))
          (λ w. Yields-panics (All IsRedir) missing_file))
      (λ p. h)

-- What the loop of `parseexec` may hold
abbrev Arguments : List (List ℕ) × List Redir → Type 0
Arguments (args, rs) = All IsWord args × (length args < 10) × All IsRedir rs

All-snoc :
    (args : List (List ℕ)) (w : List ℕ) → All IsWord args → IsWord w → All IsWord (args ++ w ∷ [])
All-snoc [] w h k = (k, tt)
All-snoc (a ∷ args) w h k = (h.0, All-snoc args w h.1 k)

parseargs-Arguments :
    (n argc : ℕ) (args : List (List ℕ)) (rs : List Redir) (s : List ℕ)
    → All IsWord args
    → length args ≡ argc
    → argc < 10
    → All IsRedir rs
    → Yields Arguments (parseargs n argc args rs s)
unfolding parseargs Yields
parseargs-Arguments zero argc args rs s h e few k = tt
parseargs-Arguments (suc n) argc args rs s h e few k =
    let t = gettoken (skip s) in
    let all : Arguments (args, rs) = (h, omega (arith, e, few), k) in
    Yields-if Arguments (peek (b'|' ∷ b')' ∷ b'&' ∷ b';' ∷ []) s) _ _ (λ p. all)
      (λ p.
        Yields-if Arguments (t.ret == 0) _ _ (λ z. all)
          (λ z.
            Yields-if Arguments (t.ret == b'a') _ _
              (λ w.
                Yields-if Arguments (leb 10 (argc + 1)) _ _
                  (λ m. Yields-panics Arguments too_many_args)
                  (λ m.
                    Yields->>= Arguments (All IsRedir) (parseredirs n rs t.rest) _
                      (parseredirs-IsRedir n rs t.rest k)
                      (λ rs' s' k'.
                        parseargs-Arguments n (argc + 1) (args ++ t.word ∷ []) rs' s'
                          (All-snoc args t.word h (gettoken-IsWord (skip s) w))
                          (omega (arith, e, length-append args (t.word ∷ []))) (ground (arith, m))
                          k')))
              (λ w. Yields-panics Arguments not_word)))

wrap-Printable : (rs : List Redir) (c : Cmd) → All IsRedir rs → Printable c → Printable (wrap rs c)
unfolding Printable
wrap-Printable [] c h p = p
wrap-Printable (r ∷ rs) c h p = (wrap-Printable rs c h.1 p, h.0)

parsebacks-Printable :
    (n : ℕ) (c : Cmd) (s : List ℕ) → Printable c → Yields Printable (parsebacks n c s)
unfolding parsebacks Yields Printable
parsebacks-Printable zero c s h = tt
parsebacks-Printable (suc n) c s h =
    Yields-if Printable (peek (b'&' ∷ []) s) _ _
      (λ p. parsebacks-Printable n (back c) (gettoken (skip s)).rest h) (λ p. h)

mutual
  unfolding parseline parsepipe parseexec parseblock Yields Printable

  parseline-Printable : (n : ℕ) (s : List ℕ) → Yields Printable (parseline n s)
  parseline-Printable zero s = tt
  parseline-Printable (suc n) s =
      Yields->>= Printable Printable (parsepipe n s) _ (parsepipe-Printable n s) (λ c s1 p.
        Yields->>= Printable Printable (parsebacks n c s1) _ (parsebacks-Printable n c s1 p)
          (λ d s2 q.
            Yields-if Printable (peek (b';' ∷ []) s2) _ _
              (λ t.
                Yields->>= Printable Printable (parseline n (gettoken (skip s2)).rest) _
                  (parseline-Printable n (gettoken (skip s2)).rest) (λ e s3 r. (q, r)))
              (λ t. q)))

  parsepipe-Printable : (n : ℕ) (s : List ℕ) → Yields Printable (parsepipe n s)
  parsepipe-Printable zero s = tt
  parsepipe-Printable (suc n) s =
      Yields->>= Printable Printable (parseexec n s) _ (parseexec-Printable n s) (λ c s1 p.
        Yields-if Printable (peek (b'|' ∷ []) s1) _ _
          (λ t.
            Yields->>= Printable Printable (parsepipe n (gettoken (skip s1)).rest) _
              (parsepipe-Printable n (gettoken (skip s1)).rest) (λ d s2 q. (p, q)))
          (λ t. p))

  parseexec-Printable : (n : ℕ) (s : List ℕ) → Yields Printable (parseexec n s)
  parseexec-Printable zero s = tt
  parseexec-Printable (suc n) s =
      Yields-if Printable (peek (b'(' ∷ []) s) _ _ (λ t. parseblock-Printable n (skip s))
        (λ t.
          Yields->>= Printable (All IsRedir) (parseredirs n [] (skip s)) _
            (parseredirs-IsRedir n [] (skip s) tt)
            (λ rs s1 h.
              Yields->>= Printable Arguments (parseargs n 0 [] rs s1) _
                (parseargs-Arguments n 0 [] rs s1 tt refl (omega arith) h)
                (λ a s2 k. wrap-Printable a.1 (exec a.0) k.2 (k.0, k.1))))

  parseblock-Printable : (n : ℕ) (s : List ℕ) → Yields Printable (parseblock n s)
  parseblock-Printable zero s = tt
  parseblock-Printable (suc n) s =
      let inner = (gettoken (skip s)).rest in
      Yields-if Printable (peek (b'(' ∷ []) s) _ _
        (λ t.
          Yields->>= Printable Printable (parseline n inner) _ (parseline-Printable n inner)
            (λ c s1 p.
              Yields-if Printable (peek (b')' ∷ []) s1) _ _
                (λ u.
                  Yields->>= Printable (All IsRedir) (parseredirs n [] (gettoken (skip s1)).rest) _
                    (parseredirs-IsRedir n [] (gettoken (skip s1)).rest tt)
                    (λ rs s2 h. wrap-Printable rs c h p))
                (λ u. Yields-panics Printable missing_paren)))
        (λ t. Yields-panics Printable no_block)

all_read-Printable : (c : Cmd) (s : List ℕ) → Printable c → Yields Printable (all_read (c, s))
unfolding all_read Yields
all_read-Printable c s p = elim (skip-cases s) [
  | inl q ↦ rw (q, all_read) p
  | inr (d, r, q, t) ↦ rw (q, all_read) tt
]

parsecmd-Printable : (s : List ℕ) → Yields Printable (parsecmd s)
unfolding parsecmd
parsecmd-Printable s =
    Yields->>= Printable Printable (parseline (4 * length s + 4) s) all_read
      (parseline-Printable (4 * length s + 4) s) all_read-Printable

-- Each command that `parsecmd` makes of any line is well formed: its words have characters, none of them special,
-- there are fewer than MAXARGS in each simple command, and its redirections are those that the shell has. So it can
-- be written as a line again, and that line is parsed to the same command.
pub parsecmd-Sound :
    (s : List ℕ) (c : Cmd) (r : List ℕ)
    → parsecmd s ≡ ok (c, r)
    → Printable c × (parsecmd (show 0 c []) ≡ ok (c, []))
unfolding Yields
parsecmd-Sound s c r e =
    let p : Printable c = subst (Yields Printable) e (parsecmd-Printable s) in
    (p, parsecmd-show c p)
