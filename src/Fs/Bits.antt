-- ===== src/Fs/Bits.antt =====
-- Setting and clearing one bit of a byte.
use cse314_operating_system.Base.{
  ℕ, zero, suc, ◌+◌, ◌-◌, ◌*◌, ◌/◌, ◌%◌, ◌^◌, ◌≤◌, ◌≡◌, refl, sym, ap, ap₂, ◌∙◌, inl, inr, Bool,
  true, false, not, ◌&&◌, ◌||◌, arith, dec_lt, ◌==◌, if◌then◌else◌, Bool-cases,
}
use native.Mathlib.Nat.{div-div-eq-div-mul, div-eq_of_lt}
use native.Mathlib.Numerals.{unary_clauses}
use cse314_operating_system.Base.{has_bit, set_bit, clear_bit}

has_bit-half : (w a : ℕ) → has_bit w (a * 2) ≡ has_bit (w / 2) a
has_bit-half w a =
    ap (λ q. q % 2 == 1)
      (ap (λ c. w / c) {x = a * 2} {y = 2 * a} (omega arith) ∙ sym (div-div-eq-div-mul w 2 a))

set_bit-half : (w a : ℕ) → set_bit w (a * 2) / 2 ≡ set_bit (w / 2) a
set_bit-half w a = rw (has_bit-half w a) (halves (has_bit (w / 2) a))
  where
    halves : (b : Bool) → (if b then w else w + a * 2) / 2 ≡ (if b then w / 2 else w / 2 + a)
    halves true = refl
    halves false = omega arith

clear_bit-half : (w a : ℕ) → clear_bit w (a * 2) / 2 ≡ clear_bit (w / 2) a
clear_bit-half w a = rw (has_bit-half w a) (halves (has_bit (w / 2) a))
  where
    halves : (b : Bool) → (if b then w - a * 2 else w) / 2 ≡ (if b then w / 2 - a else w / 2)
    halves true = omega arith
    halves false = refl

set_bit-low : (w a : ℕ) → has_bit (set_bit w (a * 2)) 1 ≡ has_bit w 1
set_bit-low w a = low (has_bit w (a * 2))
  where
    low : (b : Bool) → has_bit (if b then w else w + a * 2) 1 ≡ has_bit w 1
    low true = refl
    low false = ap (λ q. q == 1) {x = (w + a * 2) / 1 % 2} {y = w / 1 % 2} (omega arith)

has_bit→le : (w a : ℕ) → has_bit w a ≡ true → a ≤ w
has_bit→le w a h = elim (dec_lt w a) [
  | Dec.yes small ↦
      let clear : has_bit w a ≡ false = ap (λ q. q % 2 == 1) (div-eq_of_lt small) in
      absurd (cc (sym h ∙ clear))
  | Dec.no big ↦ omega (arith, big)
]

clear_bit-low : (w a : ℕ) → has_bit (clear_bit w (a * 2)) 1 ≡ has_bit w 1
clear_bit-low w a = elim (Bool-cases (has_bit w (a * 2))) [
  | inl h ↦
      let room = has_bit→le w (a * 2) h in
      rw h (ap (λ q. q == 1) {x = (w - a * 2) / 1 % 2} {y = w / 1 % 2} (omega (arith, room)))
  | inr h ↦ rw h refl
]

two_pow : (k : ℕ) → 2 ^ suc k ≡ 2 ^ k * 2
two_pow k = simp unary_clauses (omega arith)

-- The bits of `w` behind the first, and the first
has_bit-suc : (w j : ℕ) → has_bit w (2 ^ suc j) ≡ has_bit (w / 2) (2 ^ j)
has_bit-suc w j = ap (has_bit w) (two_pow j) ∙ has_bit-half w (2 ^ j)

-- A bit set is set, and no other bit changes.
pub has_bit-set_bit :
    (w k j : ℕ) → has_bit (set_bit w (2 ^ k)) (2 ^ j) ≡ (j == k || has_bit w (2 ^ j))
has_bit-set_bit w zero zero = ground arith
has_bit-set_bit w zero (suc j) =
    has_bit-suc (set_bit w 1) j
    ∙ ap (λ h. has_bit h (2 ^ j)) {x = set_bit w 1 / 2} {y = w / 2} (ground arith)
    ∙ sym (has_bit-suc w j)
    ∙ ground arith
has_bit-set_bit w (suc k) zero =
    ap (λ a. has_bit (set_bit w a) 1) (two_pow k) ∙ set_bit-low w (2 ^ k) ∙ ground arith
has_bit-set_bit w (suc k) (suc j) =
    has_bit-suc (set_bit w (2 ^ suc k)) j
    ∙ ap (λ a. has_bit (set_bit w a / 2) (2 ^ j)) (two_pow k)
    ∙ ap (λ h. has_bit h (2 ^ j)) (set_bit-half w (2 ^ k))
    ∙ has_bit-set_bit (w / 2) k j
    ∙ ap₂ (λ x y. x || y) {x = j == k} {y = suc j == suc k} (ground arith) (sym (has_bit-suc w j))

-- A bit cleared is clear, and no other bit changes.
pub has_bit-clear_bit :
    (w k j : ℕ) → has_bit (clear_bit w (2 ^ k)) (2 ^ j) ≡ (not (j == k) && has_bit w (2 ^ j))
has_bit-clear_bit w zero zero = ground arith
has_bit-clear_bit w zero (suc j) =
    has_bit-suc (clear_bit w 1) j
    ∙ ap (λ h. has_bit h (2 ^ j)) {x = clear_bit w 1 / 2} {y = w / 2} (ground arith)
    ∙ sym (has_bit-suc w j)
    ∙ ground arith
has_bit-clear_bit w (suc k) zero =
    ap (λ a. has_bit (clear_bit w a) 1) (two_pow k) ∙ clear_bit-low w (2 ^ k) ∙ ground arith
has_bit-clear_bit w (suc k) (suc j) =
    has_bit-suc (clear_bit w (2 ^ suc k)) j
    ∙ ap (λ a. has_bit (clear_bit w a / 2) (2 ^ j)) (two_pow k)
    ∙ ap (λ h. has_bit h (2 ^ j)) (clear_bit-half w (2 ^ k))
    ∙ has_bit-clear_bit (w / 2) k j
    ∙ ap₂ (λ x y. not x && y) {x = j == k} {y = suc j == suc k} (ground arith)
        (sym (has_bit-suc w j))
