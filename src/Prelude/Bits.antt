-- ===== src/Prelude/Bits.antt =====
-- `|` and `&` of machine words at variables: the two fields of a word that do not overlap, and a
-- mask of low ones. The native operations are read from their definition digit by digit.
use Prim.Native.Nat.{
  ℕ, zero, suc, ◌+◌, ◌*◌, ◌-◌, ◌/◌, ◌%◌, ◌^◌, ◌≤◌, ◌<◌, min, max, bit_and, bit_or, digits,
  bit_and-bitwise, bit_or-bitwise,
}
use mathlib.Core.Path.{◌≡◌, refl, ap}
use native.Mathlib.Nat.{pow-suc, one-le-pow}
use native.Mathlib.Omega.{arith}

-- One recursion serves both operations: `f` on the digits, `z` once the first word is used up.
module _ (z : ℕ → ℕ) (f : ℕ → ℕ → ℕ) where
  fuel_irrelevant : (n m a b : ℕ) → a ≤ n → a ≤ m → digits z f n a b ≡ digits z f m a b
  fuel_irrelevant zero zero a b p q = refl
  fuel_irrelevant zero (suc m) zero b p q = refl
  fuel_irrelevant (suc n) zero zero b p q = refl
  fuel_irrelevant (suc n) (suc m) zero b p q = refl
  fuel_irrelevant zero _ (suc a) b p q = absurd (omega arith)
  fuel_irrelevant (suc n) zero (suc a) b p q = absurd (omega arith)
  fuel_irrelevant (suc n) (suc m) (suc a) b p q =
      omega (arith, fuel_irrelevant n m (suc a / 2) (b / 2) (omega arith) (omega arith))

or_used_up : (b : ℕ) → bit_or 0 b ≡ b
or_used_up b = bit_or-bitwise 0 b

and_used_up : (b : ℕ) → bit_and 0 b ≡ 0
and_used_up b = bit_and-bitwise 0 b

bit_or_halves : (a b : ℕ) → bit_or a b ≡ bit_or (a / 2) (b / 2) * 2 + max (a % 2) (b % 2)
bit_or_halves zero b = omega (arith, or_used_up b, or_used_up (b / 2))
bit_or_halves (suc a) b = omega (
  arith,
  bit_or-bitwise (suc a) b,
  bit_or-bitwise (suc a / 2) (b / 2),
  fuel_irrelevant (λ c. c) max a (suc a / 2) (suc a / 2) (b / 2) (omega arith) (omega arith),
)

bit_and_halves : (a b : ℕ) → bit_and a b ≡ bit_and (a / 2) (b / 2) * 2 + min (a % 2) (b % 2)
bit_and_halves zero b = omega (arith, and_used_up b, and_used_up (b / 2))
bit_and_halves (suc a) b = omega (
  arith,
  bit_and-bitwise (suc a) b,
  bit_and-bitwise (suc a / 2) (b / 2),
  fuel_irrelevant (λ c. zero) min a (suc a / 2) (suc a / 2) (b / 2) (omega arith) (omega arith),
)

double_power : (q k : ℕ) → q * 2 ^ suc k ≡ 2 * (q * 2 ^ k)
double_power q k = omega (arith, ap (λ (p : ℕ). q * p) (pow-suc 2 k))

-- A word below 2 ^ w is used up after w digits, so an induction on w serves both laws.
or_zero_fuel : (w a : ℕ) → a ≤ w → bit_or a 0 ≡ a
or_zero_fuel w zero h = or_used_up 0
or_zero_fuel zero (suc a) h = absurd (omega arith)
or_zero_fuel (suc w) (suc a) h =
    omega (arith, bit_or_halves (suc a) 0, or_zero_fuel w (suc a / 2) (omega arith))

and_zero_fuel : (w a : ℕ) → a ≤ w → bit_and a 0 ≡ 0
and_zero_fuel w zero h = and_used_up 0
and_zero_fuel zero (suc a) h = absurd (omega arith)
and_zero_fuel (suc w) (suc a) h =
    omega (arith, bit_and_halves (suc a) 0, and_zero_fuel w (suc a / 2) (omega arith))

-- `(hi << k) | lo` where `lo` has k bits.
pub bit_or_disjoint : (k hi lo : ℕ) → lo < 2 ^ k → bit_or (hi * 2 ^ k) lo ≡ hi * 2 ^ k + lo
bit_or_disjoint zero hi lo h = ground (arith, or_zero_fuel hi hi)
bit_or_disjoint (suc k) hi lo h = ground (
  arith,
  double_power hi k,
  pow-suc 2 k,
  bit_or_halves (hi * 2 ^ suc k) lo,
  bit_or_disjoint k hi (lo / 2) (omega (arith, pow-suc 2 k)),
)

-- A second word that has no low field leaves that of the first.
pub bit_or_high :
    (k hi other lo : ℕ)
    → lo < 2 ^ k
    → bit_or (hi * 2 ^ k + lo) (other * 2 ^ k) ≡ bit_or hi other * 2 ^ k + lo
bit_or_high zero hi other lo h =
    let e : lo ≡ 0 = omega arith in
    let a : hi * 1 + lo ≡ hi = omega arith in
    let b : other * 1 ≡ other = omega arith in rw (a, b, e) (omega arith)
bit_or_high (suc k) hi other lo h = ground (
  arith,
  double_power hi k,
  double_power other k,
  double_power (bit_or hi other) k,
  pow-suc 2 k,
  bit_or_halves (hi * 2 ^ suc k + lo) (other * 2 ^ suc k),
  bit_or_high k hi other (lo / 2) (omega (arith, pow-suc 2 k)),
)

-- The low field alone passes a mask of k ones.
pub bit_and_low : (k hi lo : ℕ) → lo < 2 ^ k → bit_and (hi * 2 ^ k + lo) (2 ^ k - 1) ≡ lo
bit_and_low zero hi lo h = omega (arith, and_zero_fuel (hi * 1 + lo) (hi * 1 + lo))
bit_and_low (suc k) hi lo h = ground (
  arith,
  double_power hi k,
  pow-suc 2 k,
  bit_and_halves (hi * 2 ^ suc k + lo) (2 ^ suc k - 1),
  bit_and_low k hi (lo / 2) (omega (arith, pow-suc 2 k)),
)

-- `a & (2 ^ k - 1)`.
pub bit_and_mask : (k a : ℕ) → bit_and a (2 ^ k - 1) ≡ a % 2 ^ k
bit_and_mask k a = ground (arith, one-le-pow k 2, bit_and_low k (a / 2 ^ k) (a % 2 ^ k))
