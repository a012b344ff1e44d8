-- ===== src/Bits/Digits.antt =====
-- The native bitwise operations, unfolded by one binary digit.
use Prim.Native.Nat.{ℕ, zero, suc, ◌+◌, ◌*◌, ◌/◌, ◌%◌, ◌≤◌, min, max}
use Prim.Native.Nat.{bit_and, bit_or, digits, bitwise, bit_and-bitwise, bit_or-bitwise}
use mathlib.Core.Path.{◌≡◌, refl, ap}
use native.Mathlib.Omega.{arith}

-- `digits` counts its fuel down once for each digit; spare fuel does not change the result.
module _ (rest : ℕ → ℕ) (op : ℕ → ℕ → ℕ) where
  digits_spare : (k j a b : ℕ) → a ≤ k → a ≤ j → digits rest op k a b ≡ digits rest op j a b
  digits_spare zero zero a b h g = refl
  digits_spare (suc k) zero zero b h g = refl
  digits_spare (suc k) zero (suc a) b h g = absurd (omega arith)
  digits_spare zero (suc j) zero b h g = refl
  digits_spare zero (suc j) (suc a) b h g = absurd (omega arith)
  digits_spare (suc k) (suc j) zero b h g = refl
  digits_spare (suc k) (suc j) (suc a) b h g =
      ap (λ t. t * 2 + op (suc a % 2) (b % 2))
        (digits_spare k j (suc a / 2) (b / 2) (omega arith) (omega arith))

  lowest_digit :
      (a b : ℕ)
      → bitwise rest op (suc a) b ≡ bitwise rest op (suc a / 2) (b / 2) * 2 + op (suc a % 2) (b % 2)
  lowest_digit a b =
      ap (λ t. t * 2 + op (suc a % 2) (b % 2))
        (digits_spare a (suc a / 2) (suc a / 2) (b / 2) (omega arith) (omega arith))

pub bit_and_low : (a b : ℕ) → bit_and a b ≡ bit_and (a / 2) (b / 2) * 2 + min (a % 2) (b % 2)
bit_and_low zero b = simp bit_and-bitwise (omega arith)
bit_and_low (suc a) b = simp bit_and-bitwise (lowest_digit (λ _. 0) min a b)

pub bit_or_low : (a b : ℕ) → bit_or a b ≡ bit_or (a / 2) (b / 2) * 2 + max (a % 2) (b % 2)
bit_or_low zero b = simp bit_or-bitwise (omega arith)
bit_or_low (suc a) b = simp bit_or-bitwise (lowest_digit (λ y. y) max a b)
