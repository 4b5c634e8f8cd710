-- ===== src/Strings/Compare.antt =====
-- `memset` and `memcmp`.
use cse314_operating_system.Base.{
  ℕ, zero, suc, ◌+◌, ◌*◌, ◌/◌, ◌%◌, ◌^◌, ◌<◌, ◌≡◌, refl, ap, ◌∙◌, ◌≢◌, ◌↔◌, inl, inr, false, ◌&&◌,
  arith, ltb, leb, ◌==◌, if◌then◌else◌, ==_iff, Bool-cases,
}
use cse314_operating_system.Strings.{
  Bytes, store, stosb, store_word, stosl, memset, byte_sub, memcmp,
}

-- The bytes of `m`, but `v` in `[d, d + n)`
abbrev pub filled : (d v n : ℕ) → Bytes → Bytes
filled d v n m x = if leb d x && ltb x (d + n) then v else m x

stosb-filled : (d c n : ℕ) (m : Bytes) (x : ℕ) → stosb d c n m x ≡ filled d (c % 256) n m x
unfolding stosb
stosb-filled d c zero m x = ground arith
stosb-filled d c (suc n) m x = stosb-filled (d + 1) c n (store m d (c % 256)) x ∙ ground arith

-- A word of four equal bytes
abbrev word_of : ℕ → ℕ
word_of b = b * 2 ^ 24 + b * 2 ^ 16 + b * 2 ^ 8 + b

store_word-filled :
    (d b : ℕ) (m : Bytes) (x : ℕ) → b < 256 → store_word d (word_of b) m x ≡ filled d b 4 m x
unfolding store_word
store_word-filled d b m x lt =
    let b0 : word_of b % 256 ≡ b = omega arith in
    let b1 : word_of b / 2 ^ 8 % 256 ≡ b = omega arith in
    let b2 : word_of b / 2 ^ 16 % 256 ≡ b = omega arith in
    let b3 : word_of b / 2 ^ 24 % 256 ≡ b = omega arith in
    rw (b0, b1, b2, b3, store_word) (ground arith)

filled-filled :
    (d b n : ℕ) (m m1 : Bytes) (x : ℕ)
    → m1 x ≡ filled d b 4 m x
    → filled (d + 4) b (n * 4) m1 x ≡ filled d b (suc n * 4) m x
filled-filled d b n m m1 x e = rw e (ground arith)

stosl-filled :
    (d b n : ℕ) (m : Bytes) (x : ℕ) → b < 256 → stosl d (word_of b) n m x ≡ filled d b (n * 4) m x
unfolding stosl
stosl-filled d b zero m x lt = ground arith
stosl-filled d b (suc n) m x lt =
    stosl-filled (d + 4) b n (store_word d (word_of b) m) x lt
    ∙ filled-filled d b n m (store_word d (word_of b) m) x (store_word-filled d b m x lt)

-- `memset` fills the region with the low byte of its argument, by words or by bytes.
memset-filled : (dst c n : ℕ) (m : Bytes) (x : ℕ) → memset dst c n m x ≡ filled dst (c % 256) n m x
unfolding memset
memset-filled dst c n m x = elim (Bool-cases (dst % 4 == 0 && n % 4 == 0)) [
  | inl words ↦
      let whole : n / 4 * 4 ≡ n = ground arith in
      rw (words, memset)
        (stosl-filled dst (c % 256) (n / 4) m x (omega arith)
          ∙ ap (λ k. filled dst (c % 256) k m x) whole)
  | inr bytes ↦ rw (bytes, memset) (stosb-filled dst c n m x)
]

-- The regions hold the same bytes.
abbrev pub Agree : Bytes → (s1 s2 n : ℕ) → Type 0
Agree m s1 s2 n = (j : ℕ) → j < n → m (s1 + j) ≡ m (s2 + j)

Agree-cons :
    (m : Bytes) (s1 s2 n : ℕ) → m s1 ≡ m s2 → Agree m (s1 + 1) (s2 + 1) n → Agree m s1 s2 (suc n)
Agree-cons m s1 s2 n e h zero lt = ap m {x = s1 + 0} (omega arith) ∙ e ∙ ap m {x = s2} (omega arith)
Agree-cons m s1 s2 n e h (suc j) lt =
    ap m {x = s1 + suc j} (omega arith) ∙ h j (omega arith) ∙ ap m {x = s2 + 1 + j} (omega arith)

Agree-tail : (m : Bytes) (s1 s2 n : ℕ) → Agree m s1 s2 (suc n) → Agree m (s1 + 1) (s2 + 1) n
Agree-tail m s1 s2 n h j lt =
    ap m {x = s1 + 1 + j} (omega arith)
    ∙ h (suc j) (omega arith)
    ∙ ap m {x = s2 + suc j} (omega arith)

not_zero_sub : (a b : ℕ) → a < 256 → b < 256 → (a == b) ≡ false → byte_sub a b ≢ 0
not_zero_sub a b ha hb ne e = ground arith

differs : (a b : ℕ) → (a == b) ≡ false → a ≢ b
differs a b ne e = ground arith

-- For memory of bytes, `memcmp` is 0 exactly when the two regions hold the same bytes.
pub memcmp-zero :
    (m : Bytes) (s1 s2 n : ℕ) → ((x : ℕ) → m x < 256) → (memcmp m s1 s2 n ≡ 0) ↔ Agree m s1 s2 n
unfolding memcmp
memcmp-zero m s1 s2 zero bytes = (λ e j lt. absurd (omega arith), λ h. refl)
memcmp-zero m s1 s2 (suc n) bytes = elim (Bool-cases (m s1 == m s2)) [
  | inl same ↦
      rw (same, memcmp)
        (
          λ e.
              Agree-cons m s1 s2 n ((==_iff (m s1) (m s2)).0 same)
                ((memcmp-zero m (s1 + 1) (s2 + 1) n bytes).0 e),
          λ h. (memcmp-zero m (s1 + 1) (s2 + 1) n bytes).1 (Agree-tail m s1 s2 n h),
        )
  | inr differ ↦
      rw (differ, memcmp)
        (
          λ e. absurd (not_zero_sub (m s1) (m s2) (bytes s1) (bytes s2) differ e),
          λ h. absurd (
              differs (m s1) (m s2) differ
                (ap m {x = s1} (omega arith) ∙ h 0 (omega arith) ∙ ap m {y = s2} (omega arith))),
        )
]
