-- ===== src/Shell/RoundTrip.antt =====
-- The parser of the shell reads back every command that was written.
use cse314_operating_system.Base.{
  ℕ, zero, suc, ◌+◌, ◌*◌, ◌≤◌, ◌<◌, ◌≡◌, refl, ap, ◌∙◌, inl, inr, true, false, List, [], ◌∷◌, arith,
  ◌==◌, Bool-cases, length, All,
}
use cse314_operating_system.Shell.{
  Cmd, exec, redir, pipe, list, back, Redir, ok, ◌>>=◌, skip, token, gettoken, peek, parseredirs,
  parsebacks, parseline, parsepipe, parseexec, parseblock, all_read, parsecmd,
}
use cse314_operating_system.Shell.Print.{
  Tight-words, IsWord, IsRedir, Printable, show, show_words, show_redir, show_redirs, show_words_le,
  show_redirs_le, show_le, Tight, Tight-redirs, Tight-show, Tight-closing,
}
use cse314_operating_system.Shell.Words.{
  follows, stops, Tight-follows, peek-follows, added, parseredirs-show,
}
use cse314_operating_system.Shell.Arguments.{
  peek-word, pending_le, parseredirs-pending, parseargs-show,
}
use cse314_operating_system.Shell.Reads.{
  wrap_in, wrap-added, ands, line_stops, back_stops, pipe_stops, ReadsExec, ReadsPipe, read_backs,
  ReadsBack, ReadsLine, follows-weaken, parsepipe_lem, parseline_lem, pipe_ends, line_ends,
  parsebacks-ands,
}

length-ands : (k : ℕ) (rest : List ℕ) → k ≤ length (ands k rest)
length-ands zero rest = omega arith
length-ands (suc k) rest = omega (arith, length-ands k rest)

follows-ands :
    (k : ℕ) (rest : List ℕ)
    → follows back_stops rest ≡ true
    → follows pipe_stops (ands k rest) ≡ true
follows-ands zero rest f = follows-weaken back_stops pipe_stops rest (λ d h. ground (arith, h)) f
follows-ands (suc k) rest f = refl

module _ (c : Cmd) where
  -- A command that is written alike at two levels
  exec-pipe : ((r : List ℕ) → show 2 c r ≡ show 3 c r) → ReadsExec c → ReadsPipe c
  exec-pipe same reads zero rest f h = absurd (omega (arith, h))
  exec-pipe same reads (suc n) rest f h =
      let line : 4 * length (show 3 c rest) + 2 ≤ n = omega (arith, h, ap length (same rest)) in
      let any = follows-weaken pipe_stops stops rest (λ d k. ground (arith, k)) f in
      ap (parsepipe (suc n)) (same rest)
      ∙ parsepipe_lem n (show 3 c rest) (c, rest) (reads n [] rest tt any line)
      ∙ pipe_ends n c rest f

  pipe-back : ((r : List ℕ) → show 1 c r ≡ show 2 c r) → ReadsPipe c → ReadsBack c
  pipe-back same reads n k rest f h =
      let all : List ℕ = ands k rest in
      let line : 4 * length (show 2 c all) + 3 ≤ n = omega (arith, h, ap length (same all)) in
      ap (read_backs n) (same all)
      ∙ ap (λ m. m >>= λ (d, s). parsebacks n d s) (reads n all (follows-ands k rest f) line)
      ∙ parsebacks-ands n k c rest f (omega (arith, line, show_le 2 c all, length-ands k rest))

  back-line : ((r : List ℕ) → show 0 c r ≡ show 1 c r) → ReadsBack c → ReadsLine c
  back-line same reads zero rest f h = absurd (omega (arith, h))
  back-line same reads (suc n) rest f h =
      let line : 4 * length (show 1 c rest) + 3 ≤ n = omega (arith, h, ap length (same rest)) in
      let any = follows-weaken line_stops back_stops rest (λ d k. ground (arith, k)) f in
      ap (parseline (suc n)) (same rest)
      ∙ parseline_lem n (show 1 c rest) (c, rest) (reads n 0 rest any line)
      ∙ line_ends n c rest f

-- A command in parentheses
parseblock-show :
    (n : ℕ) (c : Cmd) (rs : List Redir) (rest : List ℕ)
    → Printable c
    → ReadsLine c
    → All IsRedir rs
    → follows stops rest ≡ true
    → 4 * length (show 0 c (b')' ∷ show_redirs rs rest)) + 4 ≤ n
    → parseblock (suc n) (b'(' ∷ show 0 c (b')' ∷ show_redirs rs rest)) ≡ ok (wrap_in rs c, rest)
unfolding parseblock peek gettoken token skip
parseblock-show n c rs rest p reads k f h =
    let redirs : List ℕ = show_redirs rs rest in
    let inside : List ℕ = show 0 c (b')' ∷ redirs) in
    let tight : Tight inside = Tight-show 0 c (b')' ∷ redirs) p (Tight-closing redirs) in
    let tight2 : Tight redirs = Tight-redirs rs rest (Tight-follows rest f) in
    let enough : length rs < n =
      omega (arith, h, show_le 0 c (b')' ∷ redirs), show_redirs_le rs rest) in
    let end : parseredirs n [] (skip redirs) ≡ ok (added rs [], rest) =
      ap (parseredirs n []) tight2 ∙ parseredirs-show n [] rs rest k f enough in
    rw (tight, reads n (b')' ∷ redirs) refl h, end) (ap (λ d. ok (d, rest)) (wrap-added rs [] c))

line-exec :
    (c : Cmd)
    → Printable c
    → ((r : List ℕ) → show 3 c r ≡ b'(' ∷ show 0 c (b')' ∷ r))
    → ReadsLine c
    → ReadsExec c
unfolding parseexec peek skip
line-exec c p same reads zero rs rest k f h = absurd (omega (arith, h))
line-exec c p same reads (suc zero) rs rest k f h = absurd (omega (arith, h))
line-exec c p same reads (suc (suc n)) rs rest k f h =
    let redirs : List ℕ = show_redirs rs rest in
    let line : 4 * length (show 0 c (b')' ∷ redirs)) + 4 ≤ n =
      omega (arith, h, ap length (same redirs)) in
    ap (parseexec (suc (suc n))) (same redirs) ∙ parseblock-show n c rs rest p reads k f line

no_paren-redir : (r : Redir) (s : List ℕ) → peek (b'(' ∷ []) (show_redir r s) ≡ false
unfolding peek skip
no_paren-redir r s = elim (Bool-cases (r.fd == 0)) [ inl t ↦ rw t refl | inr t ↦ rw t refl ]

-- No parenthesis in front of a command that has none
no_paren :
    (ws : List (List ℕ)) (rs : List Redir) (rest : List ℕ)
    → All IsWord ws
    → follows stops rest ≡ true
    → peek (b'(' ∷ []) (show_words ws (show_redirs rs rest)) ≡ false
no_paren (w ∷ ws) rs rest h f =
    peek-word (b'(' ∷ []) w (32 ∷ show_words ws (show_redirs rs rest)) (λ c p. ground (arith, p))
      h.0
no_paren [] [] rest h f =
    peek-follows (b'(' ∷ []) stops rest (λ c k. (ground (arith, k), ground (arith, k))) f
no_paren [] (r ∷ rs) rest h f = no_paren-redir r (show_redirs rs rest)

exec-ReadsExec : (ws : List (List ℕ)) → Printable (exec ws) → ReadsExec (exec ws)
unfolding parseexec show Printable
exec-ReadsExec ws p zero rs rest k f h = absurd (omega (arith, h))
exec-ReadsExec ws p (suc n) rs rest k f h =
    let line : List ℕ = show_words ws (show_redirs rs rest) in
    let tight : Tight line =
      Tight-words ws (show_redirs rs rest) p.0 (Tight-redirs rs rest (Tight-follows rest f)) in
    let inside : peek (b'(' ∷ []) line ≡ false = no_paren ws rs rest p.0 f in
    let some_words = show_words_le ws (show_redirs rs rest) in
    let redirs =
      parseredirs-pending n ws rs rest p.0 k f
        (omega (arith, h, some_words, show_redirs_le rs rest)) in
    let words =
      parseargs-show n 0 [] ws rs rest p.0 k f (omega (arith, p.1))
        (omega (arith, h, pending_le ws rs rest)) in
    rw (inside, tight, redirs, words, parseexec)
      (ap (λ d. ok (d, rest)) (wrap-added rs [] (exec ws)))

pipe-ReadsPipe :
    (c d : Cmd) → Printable c → Printable d → ReadsExec c → ReadsPipe d → ReadsPipe (pipe c d)
unfolding show peek gettoken token skip
pipe-ReadsPipe c d p q left right zero rest f h = absurd (omega (arith, h))
pipe-ReadsPipe c d p q left right (suc n) rest f h =
    let more : List ℕ = show 2 d rest in
    let tight : Tight more =
      Tight-show 2 d rest q
        (Tight-follows rest (follows-weaken pipe_stops stops rest (λ e k. ground (arith, k)) f)) in
    let longer = show_le 3 c (b'|' ∷ more) in
    let first = left n [] (b'|' ∷ more) tt refl (omega (arith, h)) in
    let second = right n rest f (omega (arith, h, longer)) in
    parsepipe_lem n (show 3 c (b'|' ∷ more)) (c, b'|' ∷ more) first ∙ rw (tight, second) refl

list-ReadsLine : (c d : Cmd) → Printable d → ReadsBack c → ReadsLine d → ReadsLine (list c d)
unfolding show peek gettoken token skip
list-ReadsLine c d q left right zero rest f h = absurd (omega (arith, h))
list-ReadsLine c d q left right (suc n) rest f h =
    let more : List ℕ = show 0 d rest in
    let tight : Tight more =
      Tight-show 0 d rest q
        (Tight-follows rest (follows-weaken line_stops stops rest (λ e k. ground (arith, k)) f)) in
    let longer = show_le 1 c (b';' ∷ more) in
    let first = left n 0 (b';' ∷ more) refl (omega (arith, h)) in
    let second = right n rest f (omega (arith, h, longer)) in
    parseline_lem n (show 1 c (b';' ∷ more)) (c, b';' ∷ more) first ∙ rw (tight, second) refl

-- All functions of the parser read what was written of a command.
record Reads (c : Cmd) : Type 0 where
  at_exec : ReadsExec c
  at_pipe : ReadsPipe c
  at_back : ReadsBack c
  at_line : ReadsLine c

printed-Reads : (c : Cmd) → Printable c → Reads c
unfolding show Printable
printed-Reads (exec ws) p =
    let e = exec-ReadsExec ws p in
    let f = exec-pipe (exec ws) (λ r. refl) e in
    let b = pipe-back (exec ws) (λ r. refl) f in
    record { at_exec = e; at_pipe = f; at_back = b; at_line = back-line (exec ws) (λ r. refl) b }
printed-Reads (redir c r) p =
    let sub = printed-Reads c p.0 in
    let e : ReadsExec (redir c r) = λ n rs rest k f h. sub.at_exec n (r ∷ rs) rest (p.1, k) f h in
    let f = exec-pipe (redir c r) (λ r. refl) e in
    let b = pipe-back (redir c r) (λ r. refl) f in
    record { at_exec = e; at_pipe = f; at_back = b; at_line = back-line (redir c r) (λ r. refl) b }
printed-Reads (pipe c d) p =
    let f =
      pipe-ReadsPipe c d p.0 p.1 (printed-Reads c p.0).at_exec (printed-Reads d p.1).at_pipe in
    let b = pipe-back (pipe c d) (λ r. refl) f in
    let l = back-line (pipe c d) (λ r. refl) b in
    record { at_exec = line-exec (pipe c d) p (λ r. refl) l; at_pipe = f; at_back = b; at_line = l }
printed-Reads (list c d) p =
    let l = list-ReadsLine c d p.1 (printed-Reads c p.0).at_back (printed-Reads d p.1).at_line in
    let e = line-exec (list c d) p (λ r. refl) l in
    let f = exec-pipe (list c d) (λ r. refl) e in
    record { at_exec = e; at_pipe = f; at_back = pipe-back (list c d) (λ r. refl) f; at_line = l }
printed-Reads (back c) p =
    let sub = printed-Reads c p in
    let b : ReadsBack (back c) = λ n k rest f h. sub.at_back n (suc k) rest f h in
    let l = back-line (back c) (λ r. refl) b in
    let e = line-exec (back c) p (λ r. refl) l in
    record { at_exec = e; at_pipe = exec-pipe (back c) (λ r. refl) e; at_back = b; at_line = l }

-- `parsecmd` reads back each command that was written as a line: with words of ordinary characters, fewer than
-- MAXARGS in each simple command, and redirections that the shell has. No parenthesis is lost, whatever the nesting.
pub parsecmd-show : (c : Cmd) → Printable c → parsecmd (show 0 c []) ≡ ok (c, [])
unfolding parsecmd all_read skip
parsecmd-show c p =
    ap (λ r. r >>= all_read)
      ((printed-Reads c p).at_line (4 * length (show 0 c []) + 4) [] refl (omega arith))
