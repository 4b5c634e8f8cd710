-- ===== src/Shell/Ends.antt =====
-- What one function of the parser of the shell takes of the line.
use cse314_operating_system.Base.{
  ℕ, zero, suc, ◌≤◌, ◌<◌, ◌≡◌, refl, ap, ◌⊎◌, inl, inr, Bool, true, false, List, [], ◌∷◌, arith,
  ◌==◌, if◌then◌else◌, Bool-cases, length, drop,
}
use cse314_operating_system.Shell.{
  Redir, Panic, Result, ok, panics, out_of_fuel, ◌>>=◌, whitespace, singles, strchr, is_symbol,
  skip, word_of, next_is, token, gettoken, peek, redir_of, parseredirs, missing_file,
}

-- A result that leaves at most `m` characters, or a panic
pub Ends : {A : Type 0} (m : ℕ) → Result A → Type 0
Ends m (ok (a, s)) = length s ≤ m
Ends m (panics p) = Unit
Ends m out_of_fuel = ⊥

pub Ends-if :
    {A : Type 0} (m : ℕ) (b : Bool) (x y : Result A)
    → (b ≡ true → Ends m x)
    → (b ≡ false → Ends m y)
    → Ends m (if b then x else y)
Ends-if m true x y h k = h refl
Ends-if m false x y h k = k refl

pub Ends->>= :
    {A B : Type 0} (m k : ℕ) (r : Result A) (f : A × List ℕ → Result B)
    → Ends m r
    → ((a : A) (s : List ℕ) → length s ≤ m → Ends k (f (a, s)))
    → Ends k (r >>= f)
unfolding Ends
Ends->>= m k (ok (a, s)) f e h = h a s e
Ends->>= m k (panics p) f e h = e
Ends->>= m k out_of_fuel f e h = e

pub Ends-ok : {A : Type 0} (m : ℕ) (a : A) (s : List ℕ) → length s ≤ m → Ends m (ok (a, s))
unfolding Ends
Ends-ok m a s h = h

pub Ends-panics : (A : Type 0) (m : ℕ) (p : Panic) → Ends {A = A} m (panics p)
unfolding Ends
Ends-panics A m p = tt

pub Ends-le : {A : Type 0} (m k : ℕ) (r : Result A) → m ≤ k → Ends m r → Ends k r
unfolding Ends
Ends-le m k (ok (a, s)) h e = omega (arith, h, e)
Ends-le m k (panics p) h e = e
Ends-le m k out_of_fuel h e = e

pub skip_le : (s : List ℕ) → length (skip s) ≤ length s
unfolding skip
skip_le [] = omega arith
skip_le (c ∷ s) = ground (arith, skip_le s)

word_of_le : (s : List ℕ) → length (word_of s).1 ≤ length s
unfolding word_of
word_of_le [] = omega arith
word_of_le (c ∷ s) = ground (arith, word_of_le s)

drop_le : (s : List ℕ) → length (drop 1 s) ≤ length s
drop_le [] = omega arith
drop_le (c ∷ s) = omega arith

-- A token that starts with a character takes it.
word_of_lt :
    (c : ℕ) (s : List ℕ)
    → strchr whitespace c ≡ false
    → is_symbol c ≡ false
    → length (word_of (c ∷ s)).1 ≤ length s
unfolding word_of
word_of_lt c s t u = rw (t, u) (word_of_le s)

pub token_lt :
    (c : ℕ) (s : List ℕ) → strchr whitespace c ≡ false → length (token (c ∷ s)).rest ≤ length s
unfolding token
token_lt c s t = elim (Bool-cases (c == b'>')) [
  | inl gt ↦ elim (Bool-cases (next_is b'>' s)) [
    | inl two ↦ rw (gt, two, token) (omega (arith, skip_le (drop 1 s), drop_le s))
    | inr one ↦ rw (gt, one, token) (skip_le s)
  ]
  | inr other ↦ elim (Bool-cases (strchr singles c)) [
    | inl single ↦ rw (other, single, token) (skip_le s)
    | inr word ↦
        rw (other, word, token)
          (omega
            (arith, skip_le (word_of (c ∷ s)).1, word_of_lt c s t (ground (arith, other, word))))
  ]
]

-- What is left behind white space: nothing, or a character that is no space
pub skip-cases :
    (s : List ℕ)
    → (skip s ≡ []) ⊎ ((c : ℕ) × (r : List ℕ) × (skip s ≡ c ∷ r) × (strchr whitespace c ≡ false))
unfolding skip
skip-cases [] = inl refl
skip-cases (c ∷ s) = elim (Bool-cases (strchr whitespace c)) [
  | inl t ↦ rw (t, skip) (skip-cases s)
  | inr t ↦ inr (c, s, rw (t, skip) refl, t)
]

pub skip-skip : (s : List ℕ) → skip (skip s) ≡ skip s
unfolding skip
skip-skip [] = refl
skip-skip (c ∷ s) = elim (Bool-cases (strchr whitespace c)) [
  | inl t ↦ rw (t, skip) (skip-skip s)
  | inr t ↦ rw (t, skip) (rw (t, skip) refl)
]

pub gettoken-skip : (s : List ℕ) → gettoken (skip s) ≡ gettoken s
unfolding gettoken
gettoken-skip s = ap token (skip-skip s)

nothing_left : (s : List ℕ) → skip s ≡ [] → length (gettoken s).rest ≤ length s
unfolding gettoken token
nothing_left s q = rw (q, token) (omega arith)

-- `gettoken` takes a character where there is one.
gettoken_lt :
    (s : List ℕ) (c : ℕ) (r : List ℕ)
    → skip s ≡ c ∷ r
    → strchr whitespace c ≡ false
    → length (gettoken (skip s)).rest < length s
unfolding gettoken
gettoken_lt s c r q t =
    let whole : length (skip s) ≡ suc (length r) = ap length q in
    rw (skip-skip s, q) (omega (arith, token_lt c r t, skip_le s, whole))

pub gettoken_le : (s : List ℕ) → length (gettoken s).rest ≤ length s
gettoken_le s = elim (skip-cases s) [
  | inl q ↦ nothing_left s q
  | inr (c, r, q, t) ↦ rw (← gettoken-skip s) (omega (arith, gettoken_lt s c r q t))
]

pub peek_lt : (toks s : List ℕ) → peek toks s ≡ true → length (gettoken (skip s)).rest < length s
unfolding peek
peek_lt toks s p = elim (skip-cases s) [
  | inl q ↦ let end : peek toks s ≡ false = rw (q, peek) refl in absurd (cc (p, end))
  | inr (c, r, q, t) ↦ gettoken_lt s c r q t
]

pub ret_lt :
    (s : List ℕ)
    → ((gettoken (skip s)).ret == 0) ≡ false
    → length (gettoken (skip s)).rest < length s
unfolding gettoken token
ret_lt s e = elim (skip-cases s) [
  | inl q ↦
      let end : (gettoken (skip s)).ret ≡ 0 = rw (skip-skip s, q, token) refl in
      absurd (ground (arith, e, end))
  | inr (c, r, q, t) ↦ gettoken_lt s c r q t
]

pub parseredirs-Ends :
    (n : ℕ) (rs : List Redir) (s : List ℕ) → length s < n → Ends (length s) (parseredirs n rs s)
unfolding parseredirs
parseredirs-Ends zero rs s h = absurd (omega (arith, h))
parseredirs-Ends (suc n) rs s h =
    let t = gettoken (skip s) in
    let f = gettoken t.rest in
    Ends-if _ (peek (b'<' ∷ b'>' ∷ []) s) _ _
      (λ p.
        let shorter = peek_lt (b'<' ∷ b'>' ∷ []) s p in
        let after = gettoken_le t.rest in
        Ends-if _ (f.ret == b'a') _ _
          (λ w.
            Ends-le (length f.rest) (length s) (parseredirs n (redir_of t.ret f.word ∷ rs) f.rest)
              (omega (arith, shorter, after))
              (parseredirs-Ends n (redir_of t.ret f.word ∷ rs) f.rest
                (omega (arith, h, shorter, after))))
          (λ w. Ends-panics _ _ missing_file))
      (λ p. Ends-ok _ rs (skip s) (skip_le s))
