-- ===== src/Base/Or.antt =====
-- The bits of `|`.
use Prim.Native.Nat.{
  ℕ, zero, suc, ◌+◌, ◌*◌, ◌/◌, ◌%◌, ◌≤◌, ◌<◌, max, bit_or, digits, bit_or-bitwise,
}
use mathlib.Core.Path.{subst, sym, ◌≡◌, refl}
use native.Mathlib.Omega.{arith}

abbrev or_digits : ℕ → ℕ → ℕ → ℕ
or_digits n a b = digits (λ b. b) max n a b

or_digits_zero : (n b : ℕ) → or_digits n 0 b ≡ b
or_digits_zero zero b = refl
or_digits_zero (suc n) b = refl

or_digits_fuel : (n m a b : ℕ) → a ≤ n → a ≤ m → or_digits n a b ≡ or_digits m a b
or_digits_fuel zero zero a b p q = refl
or_digits_fuel zero (suc m) zero b p q = refl
or_digits_fuel zero (suc m) (suc a) b p q = absurd (omega arith)
or_digits_fuel (suc n) zero zero b p q = refl
or_digits_fuel (suc n) zero (suc a) b p q = absurd (omega arith)
or_digits_fuel (suc n) (suc m) zero b p q = refl
or_digits_fuel (suc n) (suc m) (suc a) b p q =
    omega (arith, or_digits_fuel n m (suc a / 2) (b / 2) (omega arith) (omega arith))

zero-bit_or : (b : ℕ) → bit_or 0 b ≡ b
zero-bit_or b = bit_or-bitwise 0 b

bit_or_step : (a b : ℕ) → bit_or a b ≡ bit_or (a / 2) (b / 2) * 2 + max (a % 2) (b % 2)
bit_or_step zero b = omega (arith, zero-bit_or b, zero-bit_or (b / 2))
bit_or_step (suc a) b = omega (
  arith,
  bit_or-bitwise (suc a) b,
  bit_or-bitwise (suc a / 2) (b / 2),
  or_digits_fuel a (suc a / 2) (suc a / 2) (b / 2) (omega arith) (omega arith),
)

bit_or-zero_fuel : (n a : ℕ) → a ≤ n → bit_or a 0 ≡ a
bit_or-zero_fuel n zero h = refl
bit_or-zero_fuel zero (suc a) h = absurd (omega arith)
bit_or-zero_fuel (suc n) (suc a) h =
    omega (arith, bit_or_step (suc a) 0, bit_or-zero_fuel n (suc a / 2) (omega arith))

abbrev shifted : (k q : ℕ) → ℕ
shifted zero q = q
shifted (suc k) q = shifted k q * 2

-- `|` adds a number to one whose lowest bits, as many as the other has, are clear.
bit_or-shifted : (k q b : ℕ) → b < shifted k 1 → bit_or (shifted k q) b ≡ shifted k q + b
bit_or-shifted zero q b h =
    let none_left : b ≡ 0 = omega arith in
    rw none_left (omega (arith, bit_or-zero_fuel q q (omega arith)))
bit_or-shifted (suc k) q b h =
    let half : shifted k q * 2 / 2 ≡ shifted k q = omega arith in
    let step : bit_or (shifted k q * 2) b
        ≡ bit_or (shifted k q) (b / 2) * 2 + max (shifted k q * 2 % 2) (b % 2) =
      subst
        (λ x. bit_or (shifted k q * 2) b ≡ bit_or x (b / 2) * 2 + max (shifted k q * 2 % 2) (b % 2))
        half (bit_or_step (shifted k q * 2) b) in
    omega (arith, step, bit_or-shifted k q (b / 2) (omega arith))

-- The address of a page takes the bits below it.
pub bit_or_page : (pa b : ℕ) → pa % 4096 ≡ 0 → b < 4096 → bit_or pa b ≡ pa + b
bit_or_page pa b al h =
    let e : shifted 12 (pa / 4096) ≡ pa = omega arith in
    rw (sym e) (bit_or-shifted 12 (pa / 4096) b h)
