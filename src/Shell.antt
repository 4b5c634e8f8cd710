-- ===== src/Shell.antt =====
-- The parser of the shell, Offline 4/xv6/sh.c (the same in Offline 3/xv6). The line is the list of its characters
-- before the terminator, `*ps` what is left of it, and a word the characters between the two pointers that
-- `gettoken` sets, where `nulterminate` ends it.
pub mod Ends
pub mod Total
pub mod Print
pub mod Words
pub mod Arguments
pub mod Reads
pub mod RoundTrip
pub mod Sound
mod Tests
use cse314_operating_system.Base.{
  ℕ, zero, suc, ◌+◌, ◌-◌, ◌*◌, ◌/◌, ◌%◌, ◌^◌, ◌≤◌, ◌<◌, min, ◌≡◌, refl, sym, ap, ap₂, subst, ◌∙◌,
  fun_ext, ◌≢◌, ◌↔◌, ◌⊎◌, inl, inr, Bool, true, false, not, ◌&&◌, ◌||◌, Option, none, some, List,
  [], ◌∷◌, ◌++◌, map, append-nil, append_assoc, arith, dec_lt, ℕ_discrete, ltb, leb, ◌==◌,
  if◌then◌else◌, ltb→lt, lt→ltb, leb→le, ==_iff, Bool-cases, Option-cases, length, get_elem?,
  get_or, set, take, drop, replicate, All, length-append, length-set,
}

-- What stops the shell with an error
pub data Panic : Type 0 where
  missing_file no_block missing_paren not_word too_many_args leftovers : Panic

-- The result of a parsing function with what it leaves of the line
pub data Result (A : Type 0) : Type 0 where
  ok : A × List ℕ → Result A
  panics : Panic → Result A
  out_of_fuel : Result A

infixl 5 ◌>>=◌
abbrev pub ◌>>=◌ : {A B : Type 0} → Result A → (A × List ℕ → Result B) → Result B
ok r >>= f = f r
panics p >>= f = panics p
out_of_fuel >>= f = out_of_fuel

-- `struct redircmd` without the command
pub record Redir : Type 0 where
  pub file : List ℕ
  pub mode : ℕ
  pub fd : ℕ

-- `struct cmd`
pub data Cmd : Type 0 where
  exec : (argv : List (List ℕ)) → Cmd
  redir : Cmd → Redir → Cmd
  pipe : (left right : Cmd) → Cmd
  list : (left right : Cmd) → Cmd
  back : Cmd → Cmd

-- `whitespace`, and those of the symbols that are tokens of one character each
abbrev pub whitespace : List ℕ
whitespace = 32 ∷ 9 ∷ 13 ∷ 10 ∷ 11 ∷ []

abbrev pub singles : List ℕ
singles = b'|' ∷ b'(' ∷ b')' ∷ b';' ∷ b'&' ∷ b'<' ∷ []

-- `strchr` of a character that is not the terminator
abbrev pub strchr : List ℕ → (c : ℕ) → Bool
strchr [] c = false
strchr (d ∷ s) c = d == c || strchr s c

-- `symbols`
abbrev pub is_symbol : (c : ℕ) → Bool
is_symbol c = c == b'>' || strchr singles c

-- The loop over white space
pub skip : List ℕ → List ℕ
skip [] = []
skip (c ∷ s) = if strchr whitespace c then skip s else c ∷ s

-- The loop over the characters of a word, and what follows it
pub word_of : List ℕ → List ℕ × List ℕ
word_of [] = ([], [])
word_of (c ∷ s) =
    let (w, r) = word_of s in if strchr whitespace c || is_symbol c then ([], c ∷ s) else (c ∷ w, r)

-- What `gettoken` returns and sets
pub record Token : Type 0 where
  pub ret : ℕ
  pub word : List ℕ
  pub rest : List ℕ

abbrev pub next_is : (c : ℕ) → List ℕ → Bool
next_is c [] = false
next_is c (d ∷ s) = d == c

-- `gettoken` behind the white space in front
pub token : List ℕ → Token
token [] = record { ret = 0; word = []; rest = [] }
token (c ∷ s) =
    if c == b'>'
    then if next_is b'>' s
      then record { ret = b'+'; word = b'>' ∷ b'>' ∷ []; rest = skip (drop 1 s) }
      else record { ret = b'>'; word = b'>' ∷ []; rest = skip s }
    else if strchr singles c
    then record { ret = c; word = c ∷ []; rest = skip s }
    else record { ret = b'a'; word = (word_of (c ∷ s)).0; rest = skip (word_of (c ∷ s)).1 }

pub gettoken : List ℕ → Token
gettoken s = token (skip s)

-- The answer of `peek`, which also moves behind the white space
pub peek : (toks : List ℕ) → List ℕ → Bool
peek toks s = elim (skip s) [ [] ↦ false | c ∷ r ↦ strchr toks c ]

-- The `switch` of `parseredirs`: O_RDONLY, or O_WRONLY|O_CREATE
pub redir_of : (tok : ℕ) → (file : List ℕ) → Redir
redir_of tok file =
    if tok == b'<'
    then record { file = file; mode = 0; fd = 0 }
    else record { file = file; mode = 0x201; fd = 1 }

-- The redirections of a command, the last first
abbrev pub wrap : List Redir → Cmd → Cmd
wrap [] c = c
wrap (r ∷ rs) c = redir (wrap rs c) r

-- `parseredirs`, which adds to the redirections so far
pub parseredirs : (fuel : ℕ) → List Redir → List ℕ → Result (List Redir)
parseredirs zero rs s = out_of_fuel
parseredirs (suc n) rs s =
    let t = gettoken (skip s) in
    let f = gettoken t.rest in
    let more = parseredirs n (redir_of t.ret f.word ∷ rs) f.rest in
    if peek (b'<' ∷ b'>' ∷ []) s
    then if f.ret == b'a' then more else panics missing_file
    else ok (rs, skip s)

-- The loop of `parseexec` over arguments and redirections
pub parseargs :
    (fuel argc : ℕ) → List (List ℕ) → List Redir → List ℕ → Result (List (List ℕ) × List Redir)
parseargs zero argc args rs s = out_of_fuel
parseargs (suc n) argc args rs s =
    let t = gettoken (skip s) in
    let more = parseredirs n rs t.rest >>= λ (rs', s').
    parseargs n (argc + 1) (args ++ t.word ∷ []) rs' s' in
    if peek (b'|' ∷ b')' ∷ b'&' ∷ b';' ∷ []) s
    then ok ((args, rs), skip s)
    else if t.ret == 0
    then ok ((args, rs), t.rest)
    else if t.ret == b'a'
    then if leb 10 (argc + 1) then panics too_many_args else more
    else panics not_word

-- The loop of `parseline` over `&`
pub parsebacks : (fuel : ℕ) → Cmd → List ℕ → Result Cmd
parsebacks zero c s = out_of_fuel
parsebacks (suc n) c s =
    let more = parsebacks n (back c) (gettoken (skip s)).rest in
    if peek (b'&' ∷ []) s then more else ok (c, skip s)

mutual
  pub parseline : (fuel : ℕ) → List ℕ → Result Cmd
  parseline zero s = out_of_fuel
  parseline (suc n) s = parsepipe n s >>= λ (c, s1). parsebacks n c s1 >>= λ (d, s2).
      let more = parseline n (gettoken (skip s2)).rest >>= λ (e, s3). ok (list d e, s3) in
      if peek (b';' ∷ []) s2 then more else ok (d, skip s2)

  pub parsepipe : (fuel : ℕ) → List ℕ → Result Cmd
  parsepipe zero s = out_of_fuel
  parsepipe (suc n) s = parseexec n s >>= λ (c, s1).
      let more = parsepipe n (gettoken (skip s1)).rest >>= λ (d, s2). ok (pipe c d, s2) in
      if peek (b'|' ∷ []) s1 then more else ok (c, skip s1)

  pub parseexec : (fuel : ℕ) → List ℕ → Result Cmd
  parseexec zero s = out_of_fuel
  parseexec (suc n) s =
      let block = parseblock n (skip s) in
      let command = parseredirs n [] (skip s) >>= λ (rs, s1).
      parseargs n 0 [] rs s1 >>= λ ((args, rs'), s2). ok (wrap rs' (exec args), s2) in
      if peek (b'(' ∷ []) s then block else command

  pub parseblock : (fuel : ℕ) → List ℕ → Result Cmd
  parseblock zero s = out_of_fuel
  parseblock (suc n) s =
      let inside = parseline n (gettoken (skip s)).rest >>= λ (c, s1).
      if peek (b')' ∷ []) s1
      then (parseredirs n [] (gettoken (skip s1)).rest >>= λ (rs, s2). ok (wrap rs c, s2))
      else panics missing_paren in
      if peek (b'(' ∷ []) s then inside else panics no_block

-- The end of `parsecmd`
pub all_read : Cmd × List ℕ → Result Cmd
all_read (c, s) = elim (skip s) [ [] ↦ ok (c, []) | d ∷ r ↦ panics leftovers ]

-- `parsecmd`, with four rounds for each character, since at most four functions call each other before one takes a
-- character
pub parsecmd : List ℕ → Result Cmd
parsecmd s = parseline (4 * length s + 4) s >>= all_read
