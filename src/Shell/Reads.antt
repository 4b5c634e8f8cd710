-- ===== src/Shell/Reads.antt =====
-- What each function of the parser of the shell reads, and where it stops.
use cse314_operating_system.Base.{
  ℕ, zero, suc, ◌+◌, ◌*◌, ◌≤◌, ◌<◌, ◌≡◌, refl, sym, ap, ◌∙◌, true, false, List, [], ◌∷◌, arith,
  if◌then◌else◌, length, All,
}
use cse314_operating_system.Shell.{
  Cmd, redir, pipe, list, back, Redir, Result, ok, panics, out_of_fuel, ◌>>=◌, strchr, skip, token,
  gettoken, peek, wrap, parsebacks, parseline, parsepipe, parseexec,
}
use cse314_operating_system.Shell.Print.{IsRedir, show, show_redirs, Tight, Tight-and}
use cse314_operating_system.Shell.Words.{follows, stops, Tight-follows, peek-follows, added}

-- The command in redirections, the first of them inside
abbrev pub wrap_in : List Redir → Cmd → Cmd
wrap_in [] c = c
wrap_in (r ∷ rs) c = wrap_in rs (redir c r)

pub wrap-added : (rs acc : List Redir) (c : Cmd) → wrap (added rs acc) c ≡ wrap_in rs (wrap acc c)
wrap-added [] acc c = refl
wrap-added (r ∷ rs) acc c = wrap-added rs (r ∷ acc) c

-- A number of `&`, and what they make of a command
abbrev pub ands : (k : ℕ) → List ℕ → List ℕ
ands zero rest = rest
ands (suc k) rest = b'&' ∷ ands k rest

abbrev pub back_in : (k : ℕ) → Cmd → Cmd
back_in zero c = c
back_in (suc k) c = back_in k (back c)

-- What may stand behind a line, behind its `&`, and behind a pipe
abbrev pub line_stops : List ℕ
line_stops = b')' ∷ []

abbrev pub back_stops : List ℕ
back_stops = b')' ∷ b';' ∷ []

abbrev pub pipe_stops : List ℕ
pipe_stops = b')' ∷ b'&' ∷ b';' ∷ []

-- Each function of the parser reads what was written at its level.
abbrev pub ReadsExec : Cmd → Type 0
ReadsExec c =
    (n : ℕ) (rs : List Redir) (rest : List ℕ)
    → All IsRedir rs
    → follows stops rest ≡ true
    → 4 * length (show 3 c (show_redirs rs rest)) + 2 ≤ n
    → parseexec n (show 3 c (show_redirs rs rest)) ≡ ok (wrap_in rs c, rest)

abbrev pub ReadsPipe : Cmd → Type 0
ReadsPipe c =
    (n : ℕ) (rest : List ℕ)
    → follows pipe_stops rest ≡ true
    → 4 * length (show 2 c rest) + 3 ≤ n
    → parsepipe n (show 2 c rest) ≡ ok (c, rest)

abbrev pub read_backs : (n : ℕ) → List ℕ → Result Cmd
read_backs n s = parsepipe n s >>= λ (c, s1). parsebacks n c s1

abbrev pub ReadsBack : Cmd → Type 0
ReadsBack c =
    (n k : ℕ) (rest : List ℕ)
    → follows back_stops rest ≡ true
    → 4 * length (show 1 c (ands k rest)) + 3 ≤ n
    → read_backs n (show 1 c (ands k rest)) ≡ ok (back_in k c, rest)

abbrev pub ReadsLine : Cmd → Type 0
ReadsLine c =
    (n : ℕ) (rest : List ℕ)
    → follows line_stops rest ≡ true
    → 4 * length (show 0 c rest) + 4 ≤ n
    → parseline n (show 0 c rest) ≡ ok (c, rest)

pub follows-weaken :
    (fs gs rest : List ℕ)
    → ((c : ℕ) → strchr fs c ≡ true → strchr gs c ≡ true)
    → follows fs rest ≡ true
    → follows gs rest ≡ true
follows-weaken fs gs [] w f = refl
follows-weaken fs gs (c ∷ r) w f = w c f

bind_assoc :
    {A B C : Type 0} (m : Result A) (f : A × List ℕ → Result B) (g : B × List ℕ → Result C)
    → ((m >>= f) >>= g) ≡ (m >>= λ r. f r >>= g)
bind_assoc (ok r) f g = refl
bind_assoc (panics p) f g = refl
bind_assoc out_of_fuel f g = refl

-- The end of `parsepipe`, behind its first command
abbrev pub pipe_end : (n : ℕ) → Cmd × List ℕ → Result Cmd
pipe_end n r =
    if peek (b'|' ∷ []) r.1
    then (parsepipe n (gettoken (skip r.1)).rest >>= λ (d, s2). ok (pipe r.0 d, s2))
    else ok (r.0, skip r.1)

pub parsepipe_lem :
    (n : ℕ) (s : List ℕ) (r : Cmd × List ℕ)
    → parseexec n s ≡ ok r
    → parsepipe (suc n) s ≡ pipe_end n r
unfolding parsepipe
parsepipe_lem n s r e = ap (λ m. m >>= pipe_end n) e

-- and of `parseline`, behind its `&`
abbrev pub line_end : (n : ℕ) → Cmd × List ℕ → Result Cmd
line_end n r =
    if peek (b';' ∷ []) r.1
    then (parseline n (gettoken (skip r.1)).rest >>= λ (e, s3). ok (list r.0 e, s3))
    else ok (r.0, skip r.1)

pub parseline_lem :
    (n : ℕ) (s : List ℕ) (r : Cmd × List ℕ)
    → read_backs n s ≡ ok r
    → parseline (suc n) s ≡ line_end n r
unfolding parseline
parseline_lem n s r e =
    sym (bind_assoc (parsepipe n s) (λ (c, s1). parsebacks n c s1) (line_end n))
    ∙ ap (λ m. m >>= line_end n) e

pub pipe_ends :
    (n : ℕ) (c : Cmd) (rest : List ℕ)
    → follows pipe_stops rest ≡ true
    → pipe_end n (c, rest) ≡ ok (c, rest)
pipe_ends n c rest f =
    let other : peek (b'|' ∷ []) rest ≡ false =
      peek-follows (b'|' ∷ []) pipe_stops rest (λ d h. (ground (arith, h), ground (arith, h))) f in
    let tight =
      Tight-follows rest (follows-weaken pipe_stops stops rest (λ d h. ground (arith, h)) f) in
    rw (other, tight) refl

pub line_ends :
    (n : ℕ) (c : Cmd) (rest : List ℕ)
    → follows line_stops rest ≡ true
    → line_end n (c, rest) ≡ ok (c, rest)
line_ends n c rest f =
    let other : peek (b';' ∷ []) rest ≡ false =
      peek-follows (b';' ∷ []) line_stops rest (λ d h. (ground (arith, h), ground (arith, h))) f in
    let tight =
      Tight-follows rest (follows-weaken line_stops stops rest (λ d h. ground (arith, h)) f) in
    rw (other, tight) refl

pub Tight-ands : (k : ℕ) (rest : List ℕ) → follows back_stops rest ≡ true → Tight (ands k rest)
Tight-ands zero rest f =
    Tight-follows rest (follows-weaken back_stops stops rest (λ d h. ground (arith, h)) f)
Tight-ands (suc k) rest f = Tight-and (ands k rest)

-- The loop over `&`
pub parsebacks-ands :
    (n k : ℕ) (c : Cmd) (rest : List ℕ)
    → follows back_stops rest ≡ true
    → k < n
    → parsebacks n c (ands k rest) ≡ ok (back_in k c, rest)
unfolding parsebacks peek gettoken token skip
parsebacks-ands zero k c rest f h = absurd (omega (arith, h))
parsebacks-ands (suc n) zero c rest f h =
    let other : peek (b'&' ∷ []) rest ≡ false =
      peek-follows (b'&' ∷ []) back_stops rest (λ d h. (ground (arith, h), ground (arith, h))) f in
    let tight =
      Tight-follows rest (follows-weaken back_stops stops rest (λ d h. ground (arith, h)) f) in
    rw (other, tight, parsebacks) refl
parsebacks-ands (suc n) (suc k) c rest f h =
    rw (Tight-ands k rest f) (parsebacks-ands n k (back c) rest f (omega (arith, h)))
