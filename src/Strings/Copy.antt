-- ===== src/Strings/Copy.antt =====
-- What the string copies leave behind.
use cse314_operating_system.Base.{
  ℕ, zero, suc, ◌+◌, ◌-◌, ◌≤◌, ◌<◌, ◌≡◌, ap, ◌∙◌, ◌≢◌, ◌⊎◌, inl, inr, false, some, arith, ◌==◌,
  ==_iff, Bool-cases,
}
use cse314_operating_system.Strings.{Bytes, store, safestrcpy_from, safestrcpy, strlen}

-- A terminator within `n` bytes of `s`, and no byte changed outside them
pub record Terminated (s n : ℕ) (m m' : Bytes) : Type 0 where
  pub stop : ℕ
  pub within : stop < n
  pub zero_there : m' (s + stop) ≡ 0
  pub outside : (x : ℕ) → (x < s) ⊎ (s + n ≤ x) → m' x ≡ m x

Terminated-next :
    (s n : ℕ) (m m1 m' : Bytes)
    → ((x : ℕ) → (x < s) ⊎ (s + suc n ≤ x) → m1 x ≡ m x)
    → Terminated (s + 1) n m1 m'
    → Terminated s (suc n) m m'
Terminated-next s n m m1 m' same t = record {
  stop = suc t.stop;
  within = omega (arith, t.within);
  zero_there = ap m' {x = s + suc t.stop} (omega arith) ∙ t.zero_there;
  outside = λ x h. t.outside x (ground (arith, h)) ∙ same x h;
}

store-outside : (s n v : ℕ) (m : Bytes) (x : ℕ) → (x < s) ⊎ (s + suc n ≤ x) → store m s v x ≡ m x
store-outside s n v m x h = ground (arith, h)

safestrcpy_from-Terminated :
    (s t n : ℕ) (m : Bytes) → Terminated s (suc n) m (safestrcpy_from s t n m)
unfolding safestrcpy_from
safestrcpy_from-Terminated s t zero m = record {
  stop = 0;
  within = omega arith;
  zero_there = ground arith;
  outside = λ x h. ground (arith, h);
}
safestrcpy_from-Terminated s t (suc n) m = elim (Bool-cases (m t == 0)) [
  | inl ends ↦
      rw (ends, safestrcpy_from)
        (record {
          stop = 1;
          within = omega arith;
          zero_there = ground arith;
          outside = λ x h. ground (arith, h);
        })
  | inr more ↦
      rw (more, safestrcpy_from)
        (Terminated-next s (suc n) m _ _ (store-outside s (suc n) (m t) m)
          (safestrcpy_from-Terminated (s + 1) (t + 1) n (store m s (m t))))
]

-- With a positive length, `safestrcpy` leaves a terminator within the length, and changes no byte outside
-- it, whether or not the source has a terminator.
pub safestrcpy-Terminated : (s t n : ℕ) (m : Bytes) → 0 < n → Terminated s n m (safestrcpy s t n m)
unfolding safestrcpy
safestrcpy-Terminated s t zero m pos = absurd (omega arith)
safestrcpy-Terminated s t (suc n) m pos = safestrcpy_from-Terminated s t n m

not_zero : (v : ℕ) → (v == 0) ≡ false → v ≢ 0
not_zero v h e = ground (arith, h, e)

strlen-stop :
    (f : ℕ) (m : Bytes) (s n k : ℕ)
    → k < f
    → m (s + (n + k)) ≡ 0
    → (j : ℕ) × (strlen f m s n ≡ some (n + j)) × (m (s + (n + j)) ≡ 0) × (j ≤ k)
unfolding strlen
strlen-stop zero m s n k lt e = absurd (omega arith)
strlen-stop (suc f) m s n k lt e = elim (Bool-cases (m (s + n) == 0)) [
  | inl ends ↦ (
    0,
    rw (ends, strlen) (ap some (omega arith)),
    ap (λ i. m (s + i)) {x = n + 0} (omega arith) ∙ (==_iff (m (s + n)) 0).0 ends,
    omega arith,
  )
  | inr more ↦
      let later : k ≢ 0 =
        λ z. not_zero (m (s + n)) more (ap (λ i. m (s + i)) {x = n} (omega arith) ∙ e) in
      let (j, q, stop, le) =
        strlen-stop f m s (n + 1) (k - 1) (omega arith)
          (ap (λ i. m (s + i)) {x = n + 1 + (k - 1)} (omega arith) ∙ e) in
      (
        suc j,
        rw (more, strlen) (q ∙ ap some (omega arith)),
        ap (λ i. m (s + i)) {x = n + suc j} (omega arith) ∙ stop,
        omega arith,
      )
]

-- After a `safestrcpy` of positive length `n`, `strlen` ends within `n` rounds, with less than `n`.
strlen-safestrcpy :
    (s t n : ℕ) (m : Bytes)
    → 0 < n
    → (len : ℕ) × (strlen n (safestrcpy s t n m) s 0 ≡ some len) × (len < n)
strlen-safestrcpy s t n m pos =
    let r = safestrcpy-Terminated s t n m pos in
    let (j, q, stop, le) =
      strlen-stop n (safestrcpy s t n m) s 0 r.stop r.within
        (ap (λ i. safestrcpy s t n m (s + i)) {x = 0 + r.stop} (omega arith) ∙ r.zero_there) in
    (j, q ∙ ap some (omega arith), omega (arith, le, r.within))
