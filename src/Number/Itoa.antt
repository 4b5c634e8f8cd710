-- ===== src/Number/Itoa.antt =====
-- `atoi` reads back what `itoa` writes.
use cse314_operating_system.Base.{
  if_gt, ℕ, zero, suc, ◌+◌, ◌-◌, ◌*◌, ◌/◌, ◌%◌, ◌^◌, ◌≤◌, ◌<◌, ◌≡◌, refl, ap, ◌∙◌, ◌⊎◌, inr, ◌&&◌,
  some, List, [], ◌∷◌, arith, dec_lt, leb, if◌then◌else◌, length,
}
use native.Mathlib.Numerals.{unary_clauses}
use Prim.Native.Nat.{◌<◌}
use mathlib.Core.Logic.{if_neg, if_pos, ite, dite}
use mathlib.Core.WellFounded
use mathlib.Core.WellFounded.{Acc, Acc-prop}
use cse314_operating_system.Strings.{Bytes, store}
use cse314_operating_system.Number.{
  swap_prefix, path_bytes, put_chars, swap_path, lt_wf, tenth_lt, advance_acc, advance,
  put_back_acc, put_back, put_digits, itoa, atoi_from, atoi,
}

advance_acc_step :
    (n : ℕ) (w : Acc ◌<◌ n) (w' : Acc ◌<◌ (n / 10)) (p : ℕ)
    → advance_acc n w p ≡ ite (dec_lt 0 (n / 10)) (advance_acc (n / 10) w' (p + 1)) (p + 1)
unfolding advance_acc
advance_acc_step n (Acc.intro _ smaller) w' p = λ i.
    dite (dec_lt 0 (n / 10))
      (λ h. advance_acc (n / 10) (Acc-prop (smaller (n / 10) (tenth_lt h)) w' i) (p + 1))
      (λ _. p + 1)

advance_step : (n p : ℕ) → advance n p ≡ ite (dec_lt 0 (n / 10)) (advance (n / 10) (p + 1)) (p + 1)
unfolding advance
advance_step n = advance_acc_step n _ _

put_back_acc_step :
    (n : ℕ) (w : Acc ◌<◌ n) (w' : Acc ◌<◌ (n / 10)) (p : ℕ) (m : Bytes)
    → put_back_acc n w p m
      ≡ ite
          (dec_lt 0 (n / 10))
          (put_back_acc (n / 10) w' (p - 1) (store m (p - 1) (b'0' + n % 10)))
          (store m (p - 1) (b'0' + n % 10))
unfolding put_back_acc
put_back_acc_step n (Acc.intro _ smaller) w' p m = λ i.
    dite (dec_lt 0 (n / 10))
      (λ h.
        put_back_acc (n / 10) (Acc-prop (smaller (n / 10) (tenth_lt h)) w' i) (p - 1)
          (store m (p - 1) (b'0' + n % 10)))
      (λ _. store m (p - 1) (b'0' + n % 10))

put_back_step :
    (n p : ℕ) (m : Bytes)
    → put_back n p m
      ≡ ite
          (dec_lt 0 (n / 10))
          (put_back (n / 10) (p - 1) (store m (p - 1) (b'0' + n % 10)))
          (store m (p - 1) (b'0' + n % 10))
unfolding put_back
put_back_step n = put_back_acc_step n _ _

advance_more : (n p : ℕ) → 10 ≤ n → advance n p ≡ advance (n / 10) (p + 1)
advance_more n p h = ground (arith, advance_step n p)

advance_last : (n p : ℕ) → n < 10 → advance n p ≡ p + 1
advance_last n p h = ground (arith, advance_step n p)

put_back_more :
    (n p : ℕ) (m : Bytes)
    → 10 ≤ n
    → put_back n p m ≡ put_back (n / 10) (p - 1) (store m (p - 1) (b'0' + n % 10))
put_back_more n p m h = put_back_step n p m ∙ if_pos (dec_lt 0 (n / 10)) (omega arith) _ _

put_back_last : (n p : ℕ) (m : Bytes) → n < 10 → put_back n p m ≡ store m (p - 1) (b'0' + n % 10)
put_back_last n p m h = put_back_step n p m ∙ if_neg (dec_lt 0 (n / 10)) (omega arith) _ _

-- how many digits
abbrev pub width : ℕ → ℕ
width n = advance n 0

advance-width : (n p : ℕ) → advance n p ≡ p + width n
advance-width n =
    WellFounded.induction lt_wf {C = λ n. (p : ℕ) → advance n p ≡ p + advance n 0} n λ n ih p.
      elim (dec_lt n 10) [
        | Dec.yes h ↦ rw (advance_last n p h, advance_last n 0 h) refl
        | Dec.no h ↦ omega (
          arith,
          advance_more n p (omega arith),
          advance_more n 0 (omega arith),
          ih (n / 10) (omega arith) (p + 1),
          ih (n / 10) (omega arith) 1,
        )
      ]

width_more : (n : ℕ) → 10 ≤ n → width n ≡ 1 + width (n / 10)
width_more n h = advance_more n 0 h ∙ advance-width (n / 10) 1

width_last : (n : ℕ) → n < 10 → width n ≡ 1
width_last n h = advance_last n 0 h

-- Nothing is written but the digits.
put_back-frame :
    (n p x : ℕ) (m : Bytes) → (x < p) ⊎ (p + width n ≤ x) → put_back n (p + width n) m x ≡ m x
put_back-frame n =
    WellFounded.induction lt_wf
      {C = λ n.
        (p x : ℕ) (m : Bytes) → (x < p) ⊎ (p + width n ≤ x) → put_back n (p + width n) m x ≡ m x}
      n
      λ n ih p x m h. elim (dec_lt n 10) [
        | Dec.yes k ↦ rw (put_back_last n (p + width n) m k) (ground (arith, h, width_last n k))
        | Dec.no k ↦
            let at : p + width n - 1 ≡ p + width (n / 10) =
              omega (arith, width_more n (omega arith)) in
            rw (put_back_more n (p + width n) m (omega arith), at)
              (ih (n / 10) (omega arith) p x _ (ground (arith, h, width_more n (omega arith)))
                ∙ ground (arith, h, width_more n (omega arith)))
      ]

digit_test {ℓ} :
    {A : Type ℓ} (d : ℕ) (x y : A)
    → d < 10
    → (if leb b'0' (b'0' + d) && leb (b'0' + d) b'9' then x else y) ≡ x
digit_test d x y h = ground arith

atoi_digit :
    (f s n d : ℕ) (m : Bytes)
    → m s ≡ b'0' + d
    → d < 10
    → n * 10 + d < 2 ^ 31
    → atoi_from (suc f) m s n ≡ atoi_from f m (s + 1) (n * 10 + d)
unfolding atoi_from
atoi_digit f s n d m e small fits =
    rw (e, digit_test d)
      (ap (atoi_from f m (s + 1)) {x = (n * 10 + (b'0' + d) - b'0') % 2 ^ 32} (omega arith))

-- The same, with what is equal to the fuel, the place and the number after it
atoi_round :
    (f' f s s' n n' d : ℕ) (m : Bytes)
    → m s ≡ b'0' + d
    → d < 10
    → n' < 2 ^ 31
    → f' ≡ suc f
    → s' ≡ s + 1
    → n' ≡ n * 10 + d
    → atoi_from f' m s n ≡ atoi_from f m s' n'
atoi_round f' f s s' n n' d m e small fits ef es en =
    rw (ef, es, en) (atoi_digit f s n d m e small (omega (arith, en)))

atoi_stop : (f s n : ℕ) (m : Bytes) → m s ≡ 0 → atoi_from (suc f) m s n ≡ some n
unfolding atoi_from
atoi_stop f s n m e = rw e refl

digits_read :
    (n p f : ℕ) (m : Bytes)
    → n < 2 ^ 31
    → atoi_from (width n + f) (put_back n (p + width n) m) p 0
      ≡ atoi_from f (put_back n (p + width n) m) (p + width n) n
digits_read n =
    WellFounded.induction lt_wf
      {C = λ n.
        (p f : ℕ) (m : Bytes)
        → n < 2 ^ 31
        → atoi_from (width n + f) (put_back n (p + width n) m) p 0
          ≡ atoi_from f (put_back n (p + width n) m) (p + width n) n}
      n
      λ n ih p f m fits. elim (dec_lt n 10) [
        | Dec.yes k ↦
            rw (width_last n k, put_back_last n (p + 1) m k)
              (atoi_round (1 + f) f p (p + 1) 0 n n (store m (p + 1 - 1) (b'0' + n % 10))
                (ground arith) k (omega arith) (omega arith) (omega arith) (omega arith))
        | Dec.no k ↦
            let at : p + width n - 1 ≡ p + width (n / 10) =
              omega (arith, width_more n (omega arith)) in
            let fuel : width n + f ≡ width (n / 10) + (1 + f) =
              omega (arith, width_more n (omega arith)) in
            let m' = store m (p + width (n / 10)) (b'0' + n % 10) in
            rw (put_back_more n (p + width n) m (omega arith), at, fuel)
              (ih (n / 10) (omega arith) p (1 + f) m' (omega arith)
                ∙ atoi_round (1 + f) f (p + width (n / 10)) (p + width n) (n / 10) n (n % 10)
                    (put_back (n / 10) (p + width (n / 10)) m')
                    (put_back-frame (n / 10) p (p + width (n / 10)) m' (inr (omega arith))
                      ∙ ground arith)
                    (omega arith) (omega arith) (omega arith)
                    (omega (arith, width_more n (omega arith))) (omega arith))
      ]

width_bound : (k n : ℕ) → n < 10 ^ suc k → width n ≤ suc k
width_bound zero n h = omega (arith, width_last n (omega arith))
width_bound (suc k) n h = elim (dec_lt n 10) [
  | Dec.yes small ↦ omega (arith, width_last n small)
  | Dec.no big ↦
      let h' : n < 10 ^ k * 10 * 10 = simp unary_clauses at h in
      omega (
        arith,
        width_more n (omega arith),
        width_bound k (n / 10) (simp unary_clauses (omega (arith, h'))),
      )
]

itoa_nonneg :
    (i b : ℕ) (m : Bytes)
    → i < 2 ^ 31
    → itoa i b m ≡ put_back i (b + width i) (store m (b + width i) 0)
unfolding itoa put_digits
itoa_nonneg i b m h =
    rw
      (advance-width i b, if_gt (2 ^ 31) i _ (put_back i (b + width i) (store m (b + width i) 0)) h)
      refl

-- For every `int` that is not negative, `atoi` reads it back from the text that `itoa` writes: eleven rounds of
-- its loop are enough.
pub atoi-itoa : (i b f : ℕ) (m : Bytes) → i < 2 ^ 31 → atoi (11 + f) (itoa i b m) b ≡ some i
unfolding atoi
atoi-itoa i b f m h =
    let small = width_bound 9 i (omega arith) in
    let stored = store m (b + width i) 0 in
    rw (itoa_nonneg i b m h) (
      ap (λ r. atoi_from r (put_back i (b + width i) stored) b 0)
        {y = width i + suc (10 - width i + f)} (omega (arith, small))
      ∙ digits_read i b (suc (10 - width i + f)) stored h
      ∙ atoi_stop (10 - width i + f) (b + width i) i (put_back i (b + width i) stored)
          (put_back-frame i b (b + width i) stored (inr (omega arith)) ∙ ground arith))

-- A number of at most `k + 1` digits is written in `k + 2` bytes, the terminator among them: no other byte changes.
pub itoa-frame :
    (k i b x : ℕ) (m : Bytes)
    → i < 2 ^ 31
    → i < 10 ^ suc k
    → (x < b) ⊎ (b + (k + 2) ≤ x)
    → itoa i b m x ≡ m x
itoa-frame k i b x m h fits away =
    let short = width_bound k i fits in
    rw (itoa_nonneg i b m h) (
      put_back-frame i b x (store m (b + width i) 0) (ground (arith, short, away))
      ∙ ground (arith, short, away))

put_chars-frame :
    (cs : List ℕ) (p x : ℕ) (m : Bytes) → (x < p) ⊎ (p + length cs ≤ x) → put_chars cs p m x ≡ m x
unfolding put_chars
put_chars-frame [] p x m away = refl
put_chars-frame (c ∷ cs) p x m away =
    put_chars-frame cs (p + 1) x (store m p c) (ground (arith, away)) ∙ ground (arith, away)

-- For a pid of at most seven digits the path of the swap file stays in its array: no byte outside the
-- fourteen of `path` changes, and `atoi` reads the pid back from behind the prefix, so that two
-- processes have different paths.
pub swap_path-fits :
    (pid path f : ℕ) (m : Bytes)
    → pid < 10 ^ 7
    → ((x : ℕ) → (x < path) ⊎ (path + path_bytes ≤ x) → swap_path pid path m x ≡ m x)
      × (atoi (11 + f) (swap_path pid path m) (path + 6) ≡ some pid)
unfolding swap_path
swap_path-fits pid path f m h = (
  λ x away.
      itoa-frame 6 pid (path + 6) x (put_chars swap_prefix path m) (omega arith) h
        (ground (arith, away))
      ∙ put_chars-frame swap_prefix path x m (ground (arith, away)),
  atoi-itoa pid (path + 6) f (put_chars swap_prefix path m) (omega arith),
)
