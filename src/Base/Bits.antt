-- ===== src/Base/Bits.antt =====
-- `x & ~mask`, where `mask` is a row of low ones, clears the low bits of `x`.
use Prim.Native.Nat.{
  ℕ, zero, suc, ◌+◌, ◌-◌, ◌*◌, ◌/◌, ◌%◌, ◌^◌, ◌≤◌, ◌<◌, min, bit_and, digits, bit_and-bitwise,
}
use mathlib.Core.Path.{◌≡◌, refl, ap}
use native.Mathlib.Nat.{pow-suc, one-le-pow}
use native.Mathlib.Omega.{arith}

-- The recursion behind `bit_and`: enough fuel is as good as any.
conjoin : ℕ → ℕ → ℕ → ℕ
conjoin fuel a b = digits (λ _. zero) min fuel a b

enough_fuel : (f g a b : ℕ) → a ≤ f → a ≤ g → conjoin f a b ≡ conjoin g a b
unfolding conjoin
enough_fuel zero zero a b p q = refl
enough_fuel (suc f) g zero b p q = elim g as (λ g. conjoin (suc f) zero b ≡ conjoin g zero b) [
  | zero ↦ refl
  | suc g ↦ refl
]
enough_fuel zero (suc g) zero b p q = refl
enough_fuel zero (suc g) (suc a) b p q = absurd (omega arith)
enough_fuel (suc f) zero (suc a) b p q = absurd (omega arith)
enough_fuel (suc f) (suc g) (suc a) b p q =
    let rest = enough_fuel f g (suc a / 2) (b / 2) (omega arith) (omega arith) in
    ap (λ d. d * 2 + min (suc a % 2) (b % 2)) rest

low_digit : (a b : ℕ) → bit_and a b ≡ bit_and (a / 2) (b / 2) * 2 + min (a % 2) (b % 2)
unfolding conjoin
low_digit zero b = omega (arith, bit_and-bitwise 0 b, bit_and-bitwise 0 (b / 2))
low_digit (suc a) b = omega (
  arith,
  bit_and-bitwise (suc a) b,
  bit_and-bitwise (suc a / 2) (b / 2),
  enough_fuel a (suc a / 2) (suc a / 2) (b / 2) (omega arith) (omega arith),
)

no_ones : (fuel y : ℕ) → y ≤ fuel → bit_and y 0 ≡ 0
no_ones fuel zero h = refl
no_ones zero (suc y) h = absurd (omega arith)
no_ones (suc fuel) (suc y) h =
    omega (arith, low_digit (suc y) 0, no_ones fuel (suc y / 2) (omega arith))

pub bit_and-zero : (y : ℕ) → bit_and y 0 ≡ 0
bit_and-zero y = no_ones y y (omega arith)

-- A row of ones keeps what it covers.
bit_and-ones : (w y : ℕ) → y < 2 ^ w → bit_and y (2 ^ w - 1) ≡ y
bit_and-ones zero zero h = refl
bit_and-ones zero (suc y) h = absurd (omega arith)
bit_and-ones (suc w) y h =
    ground (arith, low_digit y (2 ^ suc w - 1), pow-suc 2 w, one-le-pow w 2, bit_and-ones w (y / 2))

double : (q k : ℕ) → q * 2 ^ suc k ≡ 2 * (q * 2 ^ k)
double q k = omega (arith, ap (λ (t : ℕ). q * t) (pow-suc 2 k))

-- Low zeros of the mask split off.
bit_and-shifted :
    (k q r m : ℕ) → r < 2 ^ k → bit_and (q * 2 ^ k + r) (m * 2 ^ k) ≡ bit_and q m * 2 ^ k
bit_and-shifted zero q r m h =
    let e : q * 2 ^ 0 + r ≡ q = omega arith in
    let f : m * 2 ^ 0 ≡ m = omega arith in rw (e, f) (omega arith)
bit_and-shifted (suc k) q r m h = ground (
  arith,
  low_digit (q * 2 ^ suc k + r) (m * 2 ^ suc k),
  double q k,
  double m k,
  double (bit_and q m) k,
  pow-suc 2 k,
  bit_and-shifted k q (r / 2) m,
)

-- On words of w + k bits, `y & ~(2^k - 1)` is `y` without its last k bits.
pub bit_and-high :
    (w k y : ℕ) → y / 2 ^ k < 2 ^ w → bit_and y ((2 ^ w - 1) * 2 ^ k) ≡ y / 2 ^ k * 2 ^ k
bit_and-high w k y h = ground (
  arith,
  one-le-pow k 2,
  bit_and-shifted k (y / 2 ^ k) (y % 2 ^ k) (2 ^ w - 1),
  bit_and-ones w (y / 2 ^ k) h,
)
