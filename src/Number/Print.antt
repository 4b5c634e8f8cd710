-- ===== src/Number/Print.antt =====
-- The digits of `printint`: their value, and that they fit in its buffer.
use cse314_operating_system.Base.{
  ℕ, zero, suc, ◌+◌, ◌-◌, ◌*◌, ◌/◌, ◌%◌, ◌^◌, ◌≤◌, ◌<◌, ◌≡◌, refl, sym, ap, subst, ◌∙◌, inl, inr,
  Bool, true, false, ◌&&◌, Option, some, List, [], ◌∷◌, arith, leb, ◌==◌, if◌then◌else◌, ==_iff,
  Bool-cases, length,
}
use native.Mathlib.Numerals.{unary_clauses}
use native.Mathlib.Nat.{mul-le-mul_left, mod-lt, div-add-mod', div-lt_iff_lt-mul}
use cse314_operating_system.Number.{negate, digit_char, push_digits, push_sign, printint}

-- The digit that a character stands for: `0` to `9`, or `A` to `F`; any other character has a value that no
-- digit has.
abbrev pub digit_value : ℕ → ℕ
digit_value c =
    if leb b'0' c && leb c b'9'
    then c - b'0'
    else if leb b'A' c && leb c b'F'
    then c - b'A' + 10
    else 16

-- The number that the text spells behind `n`
abbrev pub value : (base : ℕ) → List ℕ → ℕ → ℕ
value base [] n = n
value base (c ∷ cs) n = value base cs (n * base + digit_value c)

digit_value-char : (d : ℕ) → d < 16 → digit_value (digit_char d) ≡ d
unfolding digit_char
digit_value-char d h = ground arith

signed : (neg : Bool) (out : List ℕ) → length out ≤ 10 → length (push_sign neg out) ≤ 11
signed true out h = omega (arith, h)
signed false out h = omega (arith, h)

module _ (base : ℕ) (low : 10 ≤ base) (high : base ≤ 16) where
  last_digit :
      (x : ℕ) (buf : List ℕ)
      → value base (digit_char (x % base) ∷ buf) (x / base) ≡ value base buf x
  last_digit x buf =
      let small : x % base < base = mod-lt x (omega arith) in
      ap (value base buf) (
        ap (λ d. x / base * base + d) (digit_value-char (x % base) (omega (arith, small)))
        ∙ div-add-mod' x base)

  shorter : (k x : ℕ) → x < 10 ^ suc k → x / base < 10 ^ k
  shorter k x h =
      let h' : x < 10 ^ k * 10 = simp unary_clauses at h in
      (div-lt_iff_lt-mul {k = base} {x = x} {y = 10 ^ k} (omega arith)).1
        (omega (arith, h', mul-le-mul_left (10 ^ k) low))

  -- A result of the loop: what it spells, and how long it is
  abbrev Spelt : (k x : ℕ) (buf : List ℕ) → Option (List ℕ) → Type 0
  Spelt k x buf r =
      (out : List ℕ) × (r ≡ some out)
      × (value base out 0 ≡ value base buf x)
      × (length out ≤ k + length buf)

  push_digits-value :
      (f k x : ℕ) (buf : List ℕ)
      → k < f
      → x < 10 ^ suc k
      → Spelt (suc k) x buf (push_digits f x base buf)
  unfolding push_digits
  push_digits-value zero k x buf enough h = absurd (omega arith)
  push_digits-value (suc f) k x buf enough h = elim (Bool-cases (x / base == 0)) [
    | inl last ↦
        let none_left : x / base ≡ 0 = (==_iff (x / base) 0).0 last in
        rw last (
          digit_char (x % base) ∷ buf,
          refl,
          ap (value base (digit_char (x % base) ∷ buf)) (sym none_left) ∙ last_digit x buf,
          omega arith,
        )
    | inr more ↦ rw more (
        go k h more λ k' e.
          push_digits-value f k' (x / base) (digit_char (x % base) ∷ buf) (omega (arith, e))
            (shorter (suc k') x (subst (λ j. x < 10 ^ suc j) e h)))
  ]
    where
      go :
          (k : ℕ)
          → x < 10 ^ suc k
          → (x / base == 0) ≡ false
          → ((k' : ℕ)
              → k ≡ suc k'
              → Spelt
                  (suc k')
                  (x / base)
                  (digit_char (x % base) ∷ buf)
                  (push_digits f (x / base) base (digit_char (x % base) ∷ buf)))
          → Spelt (suc k) x buf (push_digits f (x / base) base (digit_char (x % base) ∷ buf))
      go zero h more rest = absurd (ground (arith, more, shorter 0 x h))
      go (suc k) h more rest =
          let (out, e, read, short) = rest k refl in
          (out, e, read ∙ last_digit x buf, omega (arith, short))

  -- The sign and the digits that `printint` prints for a number: `neg` when it prints a minus
  abbrev pub Prints : (neg : Bool) (x : ℕ) → Option (List ℕ) → Type 0
  Prints neg x r =
      (ds : List ℕ) × (r ≡ some (push_sign neg ds))
      × (value base ds 0 ≡ x)
      × (length (push_sign neg ds) ≤ 11)

  -- With ten rounds of its loop `printint` ends, in base 10 and in base 16 alike. It prints a minus sign for a
  -- negative `int` if it is asked to, and then digits that spell the number, or its negation, exactly; with the
  -- sign they are at most eleven characters, which its `buf` of sixteen holds.
  pub printint-Prints :
      (f xx : ℕ) (sgn : Bool)
      → xx < 2 ^ 32
      → Prints
          (sgn && leb (2 ^ 31) xx)
          (if sgn && leb (2 ^ 31) xx then negate xx else xx)
          (printint (10 + f) xx base sgn)
  unfolding printint
  printint-Prints f xx sgn h =
      let neg = sgn && leb (2 ^ 31) xx in
      let x = if neg then negate xx else xx in
      let (out, e, read, short) = push_digits-value (10 + f) 9 x [] (omega arith) (ground arith) in
      rw (printint, e) (out, refl, read, signed neg out short)
