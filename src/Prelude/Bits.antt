-- ===== src/Prelude/Bits.antt =====
-- Disjunction of bits is addition where no bit is set in both numbers.
use Prim.Native.Nat.{
  ℕ, zero, suc, ◌+◌, ◌*◌, ◌/◌, ◌%◌, ◌^◌, ◌≤◌, ◌<◌, max, bit_or, digits, bit_or-bitwise,
}
use mathlib.Core.Path.{◌≡◌, refl}
use native.Mathlib.Nat.{pow-suc}
use native.Mathlib.Omega.{arith}

abbrev or_digits : ℕ → ℕ → ℕ → ℕ
or_digits n a b = digits (λ b. b) max n a b

or_digits_fuel : (n m a b : ℕ) → a ≤ n → a ≤ m → or_digits n a b ≡ or_digits m a b
or_digits_fuel zero zero a b p q = refl
or_digits_fuel zero (suc m) zero b p q = refl
or_digits_fuel zero (suc m) (suc a) b p q = absurd (omega arith)
or_digits_fuel (suc n) zero zero b p q = refl
or_digits_fuel (suc n) zero (suc a) b p q = absurd (omega arith)
or_digits_fuel (suc n) (suc m) zero b p q = refl
or_digits_fuel (suc n) (suc m) (suc a) b p q =
    omega (arith, or_digits_fuel n m (suc a / 2) (b / 2) (omega arith) (omega arith))

pub zero-bit_or : (b : ℕ) → bit_or 0 b ≡ b
zero-bit_or b = bit_or-bitwise 0 b

bit_or_step : (a b : ℕ) → bit_or a b ≡ bit_or (a / 2) (b / 2) * 2 + max (a % 2) (b % 2)
bit_or_step zero b = omega (arith, zero-bit_or b, zero-bit_or (b / 2))
bit_or_step (suc a) b = omega (
  arith,
  bit_or-bitwise (suc a) b,
  bit_or-bitwise (suc a / 2) (b / 2),
  or_digits_fuel a (suc a / 2) (suc a / 2) (b / 2) (omega arith) (omega arith),
)

bit_or-double :
    (p a b : ℕ) → bit_or (a / 2) (b * p) ≡ a / 2 + b * p → bit_or a (b * (p * 2)) ≡ a + b * (p * 2)
bit_or-double p a b ih =
    let half : b * (p * 2) / 2 ≡ b * p = omega arith in
    let even : b * (p * 2) % 2 ≡ 0 = omega arith in
    rw (bit_or_step a (b * (p * 2)), half, even, ih) (omega arith)

-- The lower `k` bits, and a number above them.
pub bit_or-disjoint : (k a b : ℕ) → a < 2 ^ k → bit_or a (b * 2 ^ k) ≡ a + b * 2 ^ k
bit_or-disjoint zero zero b h = rw zero-bit_or (omega arith)
bit_or-disjoint zero (suc a) b h = absurd (omega arith)
bit_or-disjoint (suc k) a b h =
    let e = pow-suc 2 k in
    rw e
      (bit_or-double (2 ^ k) a b (bit_or-disjoint k (a / 2) b (let h' = rw e at h in omega arith)))
