-- ===== src/Bits.antt =====
-- Masks and flags as arithmetic: `&` and `|` against a field of bits, at every width and offset.
mod Digits
use Digits.{bit_and_low}
pub use Digits.{bit_or_low}
use native.Mathlib.Nat.{pow-succ', one-le-pow, div-div-eq-div-mul, mod-eq-sub-div-mul}
use native.Mathlib.Nat.{div-mul-le_self, mul-one, div-one}
use sockcan.Prelude.{
  ℕ, zero, suc, ◌+◌, ◌-◌, ◌*◌, ◌/◌, ◌%◌, ◌^◌, ◌≤◌, ◌<◌, ◌≡◌, refl, sym, ap, ◌∙◌, arith,
}
use sockcan.Prelude.{bit_and, bit_or}

bit_and-zero_below : (k a : ℕ) → a ≤ k → bit_and a 0 ≡ 0
bit_and-zero_below k zero h = refl
bit_and-zero_below zero (suc a) h = absurd (omega arith)
bit_and-zero_below (suc k) (suc a) h =
    omega (arith, bit_and_low (suc a) 0, bit_and-zero_below k (suc a / 2) (omega arith))

pub bit_and-zero : (a : ℕ) → bit_and a 0 ≡ 0
bit_and-zero a = bit_and-zero_below a a (omega arith)

bit_or-zero_below : (k a : ℕ) → a ≤ k → bit_or a 0 ≡ a
bit_or-zero_below k zero h = refl
bit_or-zero_below zero (suc a) h = absurd (omega arith)
bit_or-zero_below (suc k) (suc a) h =
    omega (arith, bit_or_low (suc a) 0, bit_or-zero_below k (suc a / 2) (omega arith))

pub bit_or-zero : (a : ℕ) → bit_or a 0 ≡ a
bit_or-zero a = bit_or-zero_below a a (omega arith)

-- Halving first, then the other `k` places.
pub half_div : (k a : ℕ) → a / 2 / 2 ^ k ≡ a / 2 ^ suc k
half_div k a = div-div-eq-div-mul a 2 (2 ^ k) ∙ ap (λ d. a / d) (sym (pow-succ' 2 k))

pub half_mod : (k a : ℕ) → a % 2 ^ suc k ≡ a / 2 % 2 ^ k * 2 + a % 2
half_mod k a = omega (
  arith,
  mod-eq-sub-div-mul a (2 ^ suc k),
  mod-eq-sub-div-mul (a / 2) (2 ^ k),
  div-mul-le_self a (2 ^ suc k),
  div-mul-le_self (a / 2) (2 ^ k),
  half_div k a,
  ap (λ t. t * 2 ^ k * 2) (half_div k a),
  ap (λ t. a / 2 ^ suc k * t) (pow-succ' 2 k),
)

-- A mask of `w` low ones keeps the remainder.
pub bit_and-ones : (w a : ℕ) → bit_and a (2 ^ w - 1) ≡ a % 2 ^ w
bit_and-ones zero a = omega (arith, bit_and-zero a)
bit_and-ones (suc w) a = omega (
  arith,
  bit_and_low a (2 ^ suc w - 1),
  ap (bit_and (a / 2)) half_ones,
  bit_and-ones w (a / 2),
  half_mod w a,
  pow-succ' 2 w,
  one-le-pow w 2 (omega arith),
)
  where
    half_ones : (2 ^ suc w - 1) / 2 ≡ 2 ^ w - 1
    half_ones = omega (arith, pow-succ' 2 w, one-le-pow w 2 (omega arith))

double_mul : (k m : ℕ) → m * 2 ^ suc k ≡ m * 2 ^ k * 2
double_mul k m = omega (arith, ap (λ t. m * t) (pow-succ' 2 k))

half_mul : (k m : ℕ) → m * 2 ^ suc k / 2 ≡ m * 2 ^ k
half_mul k m = omega (arith, double_mul k m)

-- `&` with a value shifted by `k` sees the bits of `a` from `k` on.
pub bit_and_shifted : (k a m : ℕ) → bit_and a (m * 2 ^ k) ≡ bit_and (a / 2 ^ k) m * 2 ^ k
bit_and_shifted zero a m = rw (mul-one, div-one, mul-one)
bit_and_shifted (suc k) a m = omega (
  arith,
  bit_and_low a (m * 2 ^ suc k),
  ap (bit_and (a / 2)) (half_mul k m),
  bit_and_shifted k (a / 2) m,
  double_mul k m,
  double_mul k (bit_and (a / 2 ^ suc k) m),
  ap (λ t. bit_and t m * 2 ^ k) (half_div k a),
)

-- `|` with a value shifted by `k` leaves the `k` low bits of `a` alone.
pub bit_or_shifted : (k a m : ℕ) → bit_or a (m * 2 ^ k) ≡ bit_or (a / 2 ^ k) m * 2 ^ k + a % 2 ^ k
bit_or_shifted zero a m = rw (mul-one, div-one, mul-one) (omega arith)
bit_or_shifted (suc k) a m = omega (
  arith,
  bit_or_low a (m * 2 ^ suc k),
  ap (bit_or (a / 2)) (half_mul k m),
  bit_or_shifted k (a / 2) m,
  double_mul k m,
  double_mul k (bit_or (a / 2 ^ suc k) m),
  half_mod k a,
  ap (λ t. bit_or t m * 2 ^ k) (half_div k a),
)

-- A field of `w` bits at offset `k`.
pub bit_and_field : (w k a : ℕ) → bit_and a ((2 ^ w - 1) * 2 ^ k) ≡ a / 2 ^ k % 2 ^ w * 2 ^ k
bit_and_field w k a =
    bit_and_shifted k a (2 ^ w - 1) ∙ ap (λ t. t * 2 ^ k) (bit_and-ones w (a / 2 ^ k))

bit_or-one : (a : ℕ) → bit_or a 1 ≡ a / 2 * 2 + 1
bit_or-one a = omega (arith, bit_or_low a 1, bit_or-zero (a / 2))

-- Setting the flag at bit `k`.
pub bit_or_flag : (k a : ℕ) → bit_or a (1 * 2 ^ k) ≡ (a / 2 ^ k / 2 * 2 + 1) * 2 ^ k + a % 2 ^ k
bit_or_flag k a = bit_or_shifted k a 1 ∙ ap (λ t. t * 2 ^ k + a % 2 ^ k) (bit_or-one (a / 2 ^ k))
