-- ===== src/Shell/Total.antt =====
-- The parser of the shell ends: no round of it runs out.
use cse314_operating_system.Base.{
  ℕ, zero, suc, ◌+◌, ◌*◌, ◌≤◌, ◌<◌, inl, inr, List, [], ◌∷◌, ◌++◌, arith, leb, ◌==◌, length,
}
use cse314_operating_system.Shell.{
  Cmd, exec, pipe, list, back, Redir, missing_paren, no_block, not_word, too_many_args, leftovers,
  skip, gettoken, peek, wrap, parseredirs, parseargs, parsebacks, parseline, parsepipe, parseexec,
  parseblock, all_read, parsecmd,
}
use cse314_operating_system.Shell.Ends.{
  Ends, Ends-if, Ends->>=, Ends-ok, Ends-panics, Ends-le, skip-cases, skip_le, peek_lt, ret_lt,
  gettoken_le, parseredirs-Ends,
}

parseargs-Ends :
    (n argc : ℕ) (args : List (List ℕ)) (rs : List Redir) (s : List ℕ)
    → length s < n
    → Ends (length s) (parseargs n argc args rs s)
unfolding parseargs
parseargs-Ends zero argc args rs s h = absurd (omega (arith, h))
parseargs-Ends (suc n) argc args rs s h =
    let t = gettoken (skip s) in
    Ends-if _ (peek (b'|' ∷ b')' ∷ b'&' ∷ b';' ∷ []) s) _ _
      (λ p. Ends-ok _ (args, rs) (skip s) (skip_le s))
      (λ p.
        Ends-if _ (t.ret == 0) _ _
          (λ e. Ends-ok _ (args, rs) t.rest (omega (arith, gettoken_le (skip s), skip_le s)))
          (λ e.
            let shorter = ret_lt s e in
            Ends-if _ (t.ret == b'a') _ _
              (λ w.
                Ends-if _ (leb 10 (argc + 1)) _ _ (λ m. Ends-panics _ _ too_many_args)
                  (λ m.
                    Ends->>= (length t.rest) (length s) (parseredirs n rs t.rest) _
                      (parseredirs-Ends n rs t.rest (omega (arith, h, shorter)))
                      (λ rs' s' k. Ends-le (length s') (length s) _ (omega (arith, k, shorter)) (
                        parseargs-Ends n (argc + 1) (args ++ t.word ∷ []) rs' s'
                          (omega (arith, h, k, shorter))))))
              (λ w. Ends-panics _ _ not_word)))

parsebacks-Ends : (n : ℕ) (c : Cmd) (s : List ℕ) → length s < n → Ends (length s) (parsebacks n c s)
unfolding parsebacks
parsebacks-Ends zero c s h = absurd (omega (arith, h))
parsebacks-Ends (suc n) c s h =
    let r = (gettoken (skip s)).rest in
    Ends-if _ (peek (b'&' ∷ []) s) _ _
      (λ p.
        let shorter = peek_lt (b'&' ∷ []) s p in
        Ends-le (length r) (length s) _ (omega (arith, shorter))
          (parsebacks-Ends n (back c) r (omega (arith, h, shorter))))
      (λ p. Ends-ok _ c (skip s) (skip_le s))

mutual
  unfolding parseline parsepipe parseexec parseblock

  parseline-Ends : (n : ℕ) (s : List ℕ) → 4 * length s + 4 ≤ n → Ends (length s) (parseline n s)
  parseline-Ends zero s h = absurd (omega (arith, h))
  parseline-Ends (suc n) s h =
      Ends->>= (length s) (length s) (parsepipe n s) _ (parsepipe-Ends n s (omega (arith, h)))
        (λ c s1 k1.
          Ends->>= (length s1) (length s) (parsebacks n c s1) _
            (parsebacks-Ends n c s1 (omega (arith, h, k1)))
            (λ d s2 k2.
              Ends-if _ (peek (b';' ∷ []) s2) _ _
                (λ p.
                  let shorter = peek_lt (b';' ∷ []) s2 p in
                  let r = (gettoken (skip s2)).rest in
                  Ends->>= (length r) (length s) (parseline n r) _
                    (parseline-Ends n r (omega (arith, h, k1, k2, shorter)))
                    (λ e s3 k3. Ends-ok _ (list d e) s3 (omega (arith, k1, k2, k3, shorter))))
                (λ p. Ends-ok _ d (skip s2) (omega (arith, skip_le s2, k1, k2)))))

  parsepipe-Ends : (n : ℕ) (s : List ℕ) → 4 * length s + 3 ≤ n → Ends (length s) (parsepipe n s)
  parsepipe-Ends zero s h = absurd (omega (arith, h))
  parsepipe-Ends (suc n) s h =
      Ends->>= (length s) (length s) (parseexec n s) _ (parseexec-Ends n s (omega (arith, h)))
        (λ c s1 k1.
          Ends-if _ (peek (b'|' ∷ []) s1) _ _
            (λ p.
              let shorter = peek_lt (b'|' ∷ []) s1 p in
              let r = (gettoken (skip s1)).rest in
              Ends->>= (length r) (length s) (parsepipe n r) _
                (parsepipe-Ends n r (omega (arith, h, k1, shorter)))
                (λ d s2 k2. Ends-ok _ (pipe c d) s2 (omega (arith, k1, k2, shorter))))
            (λ p. Ends-ok _ c (skip s1) (omega (arith, skip_le s1, k1))))

  parseexec-Ends : (n : ℕ) (s : List ℕ) → 4 * length s + 2 ≤ n → Ends (length s) (parseexec n s)
  parseexec-Ends zero s h = absurd (omega (arith, h))
  parseexec-Ends (suc n) s h =
      Ends-if _ (peek (b'(' ∷ []) s) _ _
        (λ p.
          Ends-le (length (skip s)) (length s) _ (skip_le s)
            (parseblock-Ends n (skip s) (omega (arith, h, skip_le s))))
        (λ p.
          Ends->>= (length (skip s)) (length s) (parseredirs n [] (skip s)) _
            (parseredirs-Ends n [] (skip s) (omega (arith, h, skip_le s)))
            (λ rs s1 k1.
              Ends->>= (length s1) (length s) (parseargs n 0 [] rs s1) _
                (parseargs-Ends n 0 [] rs s1 (omega (arith, h, skip_le s, k1)))
                (λ a s2 k2. Ends-ok _ (wrap a.1 (exec a.0)) s2 (omega (arith, skip_le s, k1, k2)))))

  parseblock-Ends : (n : ℕ) (s : List ℕ) → 4 * length s + 1 ≤ n → Ends (length s) (parseblock n s)
  parseblock-Ends zero s h = absurd (omega (arith, h))
  parseblock-Ends (suc n) s h =
      Ends-if _ (peek (b'(' ∷ []) s) _ _
        (λ p.
          let shorter = peek_lt (b'(' ∷ []) s p in
          let r = (gettoken (skip s)).rest in
          Ends->>= (length r) (length s) (parseline n r) _
            (parseline-Ends n r (omega (arith, h, shorter)))
            (λ c s1 k1.
              Ends-if _ (peek (b')' ∷ []) s1) _ _
                (λ q.
                  let shorter1 = peek_lt (b')' ∷ []) s1 q in
                  let r1 = (gettoken (skip s1)).rest in
                  Ends->>= (length r1) (length s) (parseredirs n [] r1) _
                    (parseredirs-Ends n [] r1 (omega (arith, h, shorter, shorter1, k1)))
                    (λ rs s2 k2.
                      Ends-ok _ (wrap rs c) s2 (omega (arith, shorter, shorter1, k1, k2))))
                (λ q. Ends-panics _ _ missing_paren)))
        (λ p. Ends-panics _ _ no_block)

all_read-Ends : (c : Cmd) (s : List ℕ) → Ends 0 (all_read (c, s))
unfolding all_read
all_read-Ends c s = elim (skip-cases s) [
  | inl q ↦ rw (q, all_read) (Ends-ok 0 c [] (omega arith))
  | inr (d, r, q, t) ↦ rw (q, all_read) (Ends-panics _ 0 leftovers)
]

-- `parsecmd` ends on every line, with a command that all of the line was read for, or in one of its panics: four
-- rounds for each character and four more are enough.
pub parsecmd-Ends : (s : List ℕ) → Ends 0 (parsecmd s)
unfolding parsecmd
parsecmd-Ends s =
    Ends->>= (length s) 0 (parseline (4 * length s + 4) s) _
      (parseline-Ends (4 * length s + 4) s (omega arith)) (λ c r h. all_read-Ends c r)
