-- ===== src/Number.antt =====
-- Numbers as text in Offline 4/xv6: `itoa` of fs.c, `atoi` of ulib.c and `printint` of printf.c
-- (the last two are the same in Offline 3/xv6). An `int` is its 32 bits.
pub mod Itoa
pub mod Print
mod Tests
use cse314_operating_system.Base.{
  ℕ, zero, suc, ◌+◌, ◌-◌, ◌*◌, ◌/◌, ◌%◌, ◌^◌, ◌≤◌, ◌<◌, min, ◌≡◌, refl, sym, ap, ap₂, subst, ◌∙◌,
  fun_ext, ◌≢◌, ◌↔◌, ◌⊎◌, inl, inr, Bool, true, false, not, ◌&&◌, ◌||◌, Option, none, some, List,
  [], ◌∷◌, ◌++◌, map, append-nil, append_assoc, arith, dec_lt, ℕ_discrete, ltb, leb, ◌==◌,
  if◌then◌else◌, ltb→lt, lt→ltb, leb→le, ==_iff, Bool-cases, Option-cases, length, get_elem?,
  get_or, set, take, drop, replicate, All, length-append, length-set,
}
use Prim.Native.Nat.{◌<◌}
use mathlib.Core.Logic.{dite}
use mathlib.Core.WellFounded.{Acc, WellFounded}
use cse314_operating_system.Strings.{Bytes, store}

acc_below : (k n : ℕ) → n < k → Acc ◌<◌ n
acc_below zero n h = absurd (omega arith)
acc_below (suc k) n h = Acc.intro n λ m lt. acc_below k m (omega arith)

lt_wf : WellFounded ◌<◌
unfolding acc_below
lt_wf = record { apply = λ n. acc_below (suc n) n (omega arith) }

tenth_lt : {n : ℕ} → 0 < n / 10 → n / 10 < n
tenth_lt h = omega arith

-- `-i` of an `int`
abbrev pub negate : ℕ → ℕ
negate i = (2 ^ 32 - i) % 2 ^ 32

advance_acc : (shifter : ℕ) → Acc ◌<◌ shifter → (p : ℕ) → ℕ
advance_acc n (Acc.intro _ smaller) p =
    dite (dec_lt 0 (n / 10)) (λ h. advance_acc (n / 10) (smaller (n / 10) (tenth_lt h)) (p + 1))
      (λ _. p + 1)

-- The first loop of `itoa`, which moves to where the digits end
pub advance : (shifter p : ℕ) → ℕ
advance n p = advance_acc n (lt_wf.apply n) p

put_back_acc : (i : ℕ) → Acc ◌<◌ i → (p : ℕ) → Bytes → Bytes
put_back_acc i (Acc.intro _ smaller) p m =
    let m' = store m (p - 1) (b'0' + i % 10) in
    dite (dec_lt 0 (i / 10)) (λ h. put_back_acc (i / 10) (smaller (i / 10) (tenth_lt h)) (p - 1) m')
      (λ _. m')

-- The second loop of `itoa`, which moves back and inserts the digits
pub put_back : (i p : ℕ) → Bytes → Bytes
put_back i p m = put_back_acc i (lt_wf.apply i) p m

-- The end of `itoa` at a non-negative number, with the text to start at `p`
pub put_digits : (i p : ℕ) → Bytes → Bytes
put_digits i p m = put_back i (advance i p) (store m (advance i p) 0)

-- `itoa` with the buffer at `b`. At the least `int` the multiplication by -1 overflows, and C says nothing;
-- there the model is not the code.
pub itoa : (i b : ℕ) → Bytes → Bytes
itoa i b m =
    if leb (2 ^ 31) i then put_digits (negate i) (b + 1) (store m b b'-') else put_digits i b m

-- The characters of a C string at `p`, without its end
pub put_chars : List ℕ → (p : ℕ) → Bytes → Bytes
put_chars [] p m = m
put_chars (c ∷ cs) p m = put_chars cs (p + 1) (store m p c)

-- "/.swap"
abbrev pub swap_prefix : List ℕ
swap_prefix = b'/' ∷ b'.' ∷ b's' ∷ b'w' ∷ b'a' ∷ b'p' ∷ []

-- DIGITS, the bytes of `path` in `createSwapFile` and `removeSwapFile`
abbrev pub path_bytes : ℕ
path_bytes = 14

-- The path that both of them build at `path`
pub swap_path : (pid path : ℕ) → Bytes → Bytes
swap_path pid path m = itoa pid (path + 6) (put_chars swap_prefix path m)

-- The loop of `atoi`, with the number so far; `none` when it has not ended after that many rounds.
pub atoi_from : (fuel : ℕ) → Bytes → (s n : ℕ) → Option ℕ
atoi_from zero m s n = none
atoi_from (suc f) m s n =
    let rest = atoi_from f m (s + 1) ((n * 10 + m s - b'0') % 2 ^ 32) in
    if leb b'0' (m s) && leb (m s) b'9' then rest else some n

pub atoi : (fuel : ℕ) → Bytes → (s : ℕ) → Option ℕ
atoi f m s = atoi_from f m s 0

-- `"0123456789ABCDEF"[d]`
pub digit_char : ℕ → ℕ
digit_char d = if ltb d 10 then b'0' + d else b'A' + (d - 10)

-- The do-while loop of `printint`: `buf`, with the character written last in front. `none` when it has not
-- ended after that many rounds.
pub push_digits : (fuel x base : ℕ) → List ℕ → Option (List ℕ)
push_digits zero x base buf = none
push_digits (suc f) x base buf =
    let rest = push_digits f (x / base) base (digit_char (x % base) ∷ buf) in
    if x / base == 0 then some (digit_char (x % base) ∷ buf) else rest

abbrev pub push_sign : Bool → List ℕ → List ℕ
push_sign neg buf = if neg then b'-' ∷ buf else buf

-- `printint`: the characters in the order of the calls of `putc`
pub printint : (fuel xx base : ℕ) (sgn : Bool) → Option (List ℕ)
printint f xx base sgn =
    let neg = sgn && leb (2 ^ 31) xx in
    elim (push_digits f (if neg then negate xx else xx) base []) [
      | none ↦ none
      | some buf ↦ some (push_sign neg buf)
    ]
