-- ===== src/Prelude/Bits.antt =====
-- `bit_or` of a multiple of a power of two with a number below that power.
use Prim.Native.Nat.{
  ℕ, zero, suc, ◌+◌, ◌*◌, ◌/◌, ◌%◌, ◌^◌, ◌≤◌, ◌<◌, max, bit_or, digits, bit_or-bitwise,
}
use mathlib.Core.Path.{◌≡◌, refl, ap}
use native.Mathlib.Omega.{arith}
use native.Mathlib.Numerals.{unary_clauses}

abbrev or_digits : ℕ → ℕ → ℕ → ℕ
or_digits n a b = digits (λ b. b) max n a b

or_digits_fuel : (n m a b : ℕ) → a ≤ n → a ≤ m → or_digits n a b ≡ or_digits m a b
or_digits_fuel zero zero a b p q = refl
or_digits_fuel zero (suc m) zero b p q = refl
or_digits_fuel zero (suc m) (suc a) b p q = absurd (omega arith)
or_digits_fuel (suc n) zero zero b p q = refl
or_digits_fuel (suc n) zero (suc a) b p q = absurd (omega arith)
or_digits_fuel (suc n) (suc m) zero b p q = refl
or_digits_fuel (suc n) (suc m) (suc a) b p q =
    omega (arith, or_digits_fuel n m (suc a / 2) (b / 2) (omega arith) (omega arith))

zero-bit_or : (b : ℕ) → bit_or 0 b ≡ b
zero-bit_or b = bit_or-bitwise 0 b

bit_or_step : (a b : ℕ) → bit_or a b ≡ bit_or (a / 2) (b / 2) * 2 + max (a % 2) (b % 2)
bit_or_step zero b = omega (arith, zero-bit_or b, zero-bit_or (b / 2))
bit_or_step (suc a) b = omega (
  arith,
  bit_or-bitwise (suc a) b,
  bit_or-bitwise (suc a / 2) (b / 2),
  or_digits_fuel a (suc a / 2) (suc a / 2) (b / 2) (omega arith) (omega arith),
)

bit_or-zero : (n a : ℕ) → a ≤ n → bit_or a 0 ≡ a
bit_or-zero n zero h = refl
bit_or-zero zero (suc a) h = absurd (omega arith)
bit_or-zero (suc n) (suc a) h =
    omega (arith, bit_or_step (suc a) 0, bit_or-zero n (suc a / 2) (omega arith))

pub pow_suc : (k : ℕ) → 2 ^ suc k ≡ 2 ^ k * 2
pow_suc k = simp unary_clauses (omega arith)

mul-pow_suc : (a k : ℕ) → a * 2 ^ suc k ≡ a * 2 ^ k * 2
mul-pow_suc a k = rw (pow_suc k) (grind arith)

pub bit_or-append : (k a b : ℕ) → b < 2 ^ k → bit_or (a * 2 ^ k) b ≡ a * 2 ^ k + b
bit_or-append zero a zero h = omega (arith, bit_or-zero (a * 1) (a * 1) (omega arith))
bit_or-append zero a (suc b) h = absurd (omega arith)
bit_or-append (suc k) a b h =
    let e : a * 2 ^ suc k ≡ a * 2 ^ k * 2 = mul-pow_suc a k in
    rw e (
      let half : a * 2 ^ k * 2 / 2 ≡ a * 2 ^ k = omega arith in
      let step : bit_or (a * 2 ^ k * 2) b ≡ bit_or (a * 2 ^ k) (b / 2) * 2 + b % 2 =
        (omega (arith, bit_or_step (a * 2 ^ k * 2) b, ap (λ h. bit_or h (b / 2)) half)) in
      omega (arith, step, bit_or-append k a (b / 2) (omega (arith, pow_suc k))))
