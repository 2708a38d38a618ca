-- ===== src/Base/Bits.antt =====
-- `bit_or` of a number with low bits clear and a small number is their sum.
use Prim.Native.Nat.{
  ℕ, zero, suc, ◌+◌, ◌*◌, ◌/◌, ◌%◌, ◌^◌, ◌≤◌, ◌<◌, max, bit_or, digits, bit_or-bitwise,
}
use mathlib.Core.Path.{◌≡◌, refl, ap}
use native.Mathlib.Nat.{pow-suc}
use native.Mathlib.Omega.{arith}

abbrev or_digits : ℕ → ℕ → ℕ → ℕ
or_digits n a b = digits (λ b. b) max n a b

or_digits_fuel : (n k a b : ℕ) → a ≤ n → a ≤ k → or_digits n a b ≡ or_digits k a b
or_digits_fuel zero zero a b p q = refl
or_digits_fuel zero (suc k) zero b p q = refl
or_digits_fuel zero (suc k) (suc a) b p q = absurd (omega arith)
or_digits_fuel (suc n) zero zero b p q = refl
or_digits_fuel (suc n) zero (suc a) b p q = absurd (omega arith)
or_digits_fuel (suc n) (suc k) zero b p q = refl
or_digits_fuel (suc n) (suc k) (suc a) b p q =
    omega (arith, or_digits_fuel n k (suc a / 2) (b / 2) (omega arith) (omega arith))

zero-bit_or : (b : ℕ) → bit_or 0 b ≡ b
zero-bit_or b = bit_or-bitwise 0 b

-- The lowest digit.
bit_or_step : (a b : ℕ) → bit_or a b ≡ bit_or (a / 2) (b / 2) * 2 + max (a % 2) (b % 2)
bit_or_step zero b = omega (arith, zero-bit_or b, zero-bit_or (b / 2))
bit_or_step (suc a) b = omega (
  arith,
  bit_or-bitwise (suc a) b,
  bit_or-bitwise (suc a / 2) (b / 2),
  or_digits_fuel a (suc a / 2) (suc a / 2) (b / 2) (omega arith) (omega arith),
)

bit_or-zero_fuel : (n a : ℕ) → a ≤ n → bit_or a 0 ≡ a
bit_or-zero_fuel n zero h = refl
bit_or-zero_fuel zero (suc a) h = absurd (omega arith)
bit_or-zero_fuel (suc n) (suc a) h =
    omega (arith, bit_or_step (suc a) 0, bit_or-zero_fuel n (suc a / 2) (omega arith))

-- `(hi << k) | lo`, where `lo` fits in `k` bits.
pub bit_or-shifted : (k hi lo : ℕ) → lo < 2 ^ k → bit_or (hi * 2 ^ k) lo ≡ hi * 2 ^ k + lo
bit_or-shifted zero hi lo h =
    let none_low : lo ≡ 0 = omega arith in
    rw none_low (omega (arith, bit_or-zero_fuel (hi * 1) (hi * 1) (omega arith)))
bit_or-shifted (suc k) hi lo h =
    let twice : hi * 2 ^ suc k ≡ 2 * (hi * 2 ^ k) =
      omega (arith, ap (λ (t : ℕ). hi * t) (pow-suc 2 k)) in
    let rest = bit_or-shifted k hi (lo / 2) (omega (arith, pow-suc 2 k)) in
    let half : hi * 2 ^ suc k / 2 ≡ hi * 2 ^ k = omega (arith, twice) in
    omega (arith, bit_or_step (hi * 2 ^ suc k) lo, rw (← half) at rest, twice)
