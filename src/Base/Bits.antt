-- ===== src/Base/Bits.antt =====
-- `|` on numbers whose ones do not meet: the value is the sum.
use Prim.Native.Nat.{
  ℕ, zero, suc, ◌+◌, ◌*◌, ◌/◌, ◌%◌, ◌^◌, ◌≤◌, ◌<◌, max, bit_or, digits, bit_or-bitwise,
}
use mathlib.Core.Path.{◌≡◌, refl, ap}
use native.Mathlib.Omega.{arith}
use native.Mathlib.Nat.{pow-suc}

-- Rounds of the digit recursion beyond a bound on the first number change nothing.
more_rounds :
    (b : ℕ) (n m a : ℕ) → a ≤ n → n ≤ m → digits (λ c. c) max m a b ≡ digits (λ c. c) max n a b
more_rounds b zero zero a below more = refl
more_rounds b zero (suc m) zero below more = refl
more_rounds b zero (suc m) (suc a) below more = absurd (omega arith)
more_rounds b (suc n) zero a below more = absurd (omega arith)
more_rounds b (suc n) (suc m) zero below more = refl
more_rounds b (suc n) (suc m) (suc a) below more =
    omega (arith, more_rounds (b / 2) n m (suc a / 2) (omega arith) (omega arith))

zero-bit_or : (b : ℕ) → bit_or 0 b ≡ b
zero-bit_or b = bit_or-bitwise 0 b

pub bit_or_halves : (a b : ℕ) → bit_or a b ≡ max (a % 2) (b % 2) + 2 * bit_or (a / 2) (b / 2)
bit_or_halves zero b = omega (arith, zero-bit_or b, zero-bit_or (b / 2))
bit_or_halves (suc a) b = omega (
  arith,
  bit_or-bitwise (suc a) b,
  bit_or-bitwise (suc a / 2) (b / 2),
  more_rounds (b / 2) (suc a / 2) a (suc a / 2) (omega arith) (omega arith),
)

bit_or-zero_upto : (n a : ℕ) → a ≤ n → bit_or a 0 ≡ a
bit_or-zero_upto n zero h = zero-bit_or 0
bit_or-zero_upto zero (suc a) h = absurd (omega arith)
bit_or-zero_upto (suc n) (suc a) h =
    omega (arith, bit_or_halves (suc a) 0, bit_or-zero_upto n (suc a / 2) (omega arith))

-- One digit at the bottom of a shifted number.
double_or :
    (m c d e : ℕ) → e ≡ c * (m * 2) → bit_or (c * m) (d / 2) ≡ c * m + d / 2 → bit_or e d ≡ e + d
double_or m c d e p h =
    omega (arith, bit_or_halves e d, ap (λ (t : ℕ). bit_or t (d / 2)) (halve m c e p))
  where
    halve : (m c e : ℕ) → e ≡ c * (m * 2) → e / 2 ≡ c * m
    halve m c e p = omega arith

-- A number shifted by `k` and one of at most `k` digits.
pub bit_or_shifted : (k c d : ℕ) → d < 2 ^ k → bit_or (c * 2 ^ k) d ≡ c * 2 ^ k + d
bit_or_shifted zero c zero h = omega (arith, bit_or-zero_upto (c * 1) (c * 1) (omega arith))
bit_or_shifted zero c (suc d) h = absurd (omega arith)
bit_or_shifted (suc k) c d h =
    double_or (2 ^ k) c d (c * 2 ^ suc k) (ap (◌*◌ c) (pow-suc 2 k))
      (bit_or_shifted k c (d / 2) (omega (arith, pow-suc 2 k)))
