-- ===== src/Transcode/Fields.antt =====
-- Fields of bits: `field a w k` has the `w` bits of `a` from bit `k` on. What `|`, `&` and the shifts
-- of src/sockcan/transcoders do to them.
use sockcan.Prelude.{
  ℕ, zero, suc, ◌+◌, ◌-◌, ◌*◌, ◌/◌, ◌%◌, ◌^◌, ◌≤◌, ◌<◌, ◌≡◌, refl, sym, ap, ap₂, ◌∙◌,
}
use sockcan.Prelude.{◌⊎◌, inl, inr, bit_and, bit_or, arith}
use native.Mathlib.Nat.{pow-succ', one-le-pow, mod-eq_of_lt, div-eq_of_lt, mod-lt, mul-div_left}
use native.Mathlib.Nat.{
  mul-mod_left, pow-le-pow_right, mul-lt-mul_of_pos_right, div-one, mul_assoc, zero-add, suc-add,
  pow-zero,
}
use sockcan.Bits.{half_div, half_mod, bit_or_low, bit_or-zero, bit_and_field}

unfoldable pub field : ℕ → ℕ → ℕ → ℕ
field a w k = a / 2 ^ k % 2 ^ w

bit_or-half : (a b : ℕ) → bit_or a b / 2 ≡ bit_or (a / 2) (b / 2)
bit_or-half a b = omega (arith, bit_or_low a b)

bit_or-div : (k a b : ℕ) → bit_or a b / 2 ^ k ≡ bit_or (a / 2 ^ k) (b / 2 ^ k)
bit_or-div zero a b = rw (div-one, div-one, div-one) refl
bit_or-div (suc k) a b =
    sym (half_div k (bit_or a b))
    ∙ ap (λ t. t / 2 ^ k) (bit_or-half a b)
    ∙ bit_or-div k (a / 2) (b / 2)
    ∙ ap₂ bit_or (half_div k a) (half_div k b)

mod_one : (a : ℕ) → a % 1 ≡ 0
mod_one a = omega arith

bit_or-mod : (w a b : ℕ) → bit_or a b % 2 ^ w ≡ bit_or (a % 2 ^ w) (b % 2 ^ w)
bit_or-mod zero a b = omega (arith, ap₂ bit_or (mod_one a) (mod_one b), bit_or-zero 0)
bit_or-mod (suc w) a b = omega (
  arith,
  half_mod w (bit_or a b),
  half_mod w a,
  half_mod w b,
  ap (λ t. t % 2 ^ w) (bit_or-half a b),
  bit_or-mod w (a / 2) (b / 2),
  bit_or_low a b,
  bit_or_low (a % 2 ^ suc w) (b % 2 ^ suc w),
  ap₂ bit_or (half_again w a) (half_again w b),
)
  where
    half_again : (w a : ℕ) → a % 2 ^ suc w / 2 ≡ a / 2 % 2 ^ w
    half_again w a = omega (arith, half_mod w a)

pub field-bit_or : (a b w k : ℕ) → field (bit_or a b) w k ≡ bit_or (field a w k) (field b w k)
unfolding field
field-bit_or a b w k = ap (λ t. t % 2 ^ w) (bit_or-div k a b) ∙ bit_or-mod w (a / 2 ^ k) (b / 2 ^ k)

zero-bit_or_below : (k b : ℕ) → b ≤ k → bit_or 0 b ≡ b
zero-bit_or_below zero zero h = bit_or-zero 0
zero-bit_or_below zero (suc b) h = absurd (omega arith)
zero-bit_or_below (suc k) b h =
    omega (arith, bit_or_low 0 b, zero-bit_or_below k (b / 2) (omega arith))

pub zero-bit_or : (b : ℕ) → bit_or 0 b ≡ b
zero-bit_or b = zero-bit_or_below b b (omega arith)

pub bit_or-lt : (m a b : ℕ) → a < 2 ^ m → b < 2 ^ m → bit_or a b < 2 ^ m
bit_or-lt m a b h g = omega (
  arith,
  bit_or-mod m a b,
  ap₂ bit_or (mod-eq_of_lt h) (mod-eq_of_lt g),
  mod-lt (bit_or a b) (one-le-pow m 2 (omega arith)),
)

pub pow-add : (j k : ℕ) → 2 ^ (j + k) ≡ 2 ^ j * 2 ^ k
pow-add zero k = rw (zero-add k, pow-zero 2) (omega arith)
pow-add (suc j) k = omega (
  arith,
  ap (λ t. 2 ^ t) (suc-add j k),
  pow-succ' 2 (j + k),
  ap (λ t. t * 2 ^ k) (pow-succ' 2 j),
  mul_assoc 2 (2 ^ j) (2 ^ k),
  pow-add j k,
)

place : (n d w k : ℕ) → n * 2 ^ (d + w + k) ≡ n * 2 ^ d * 2 ^ w * 2 ^ k
place n d w k =
    ap (λ t. n * t) (pow-add (d + w) k ∙ ap (λ t. t * 2 ^ k) (pow-add d w))
    ∙ sym (mul_assoc n (2 ^ d * 2 ^ w) (2 ^ k))
    ∙ ap (λ t. t * 2 ^ k) (sym (mul_assoc n (2 ^ d) (2 ^ w)))

-- A value of `w` bits at offset `k`.
pub masked : (n w k : ℕ) → n < 2 ^ w → bit_and (n * 2 ^ k) ((2 ^ w - 1) * 2 ^ k) ≡ n * 2 ^ k
masked n w k h =
    bit_and_field w k (n * 2 ^ k)
    ∙ ap (λ t. t % 2 ^ w * 2 ^ k) (mul-div_left n (one-le-pow k 2 (omega arith)))
    ∙ ap (λ t. t * 2 ^ k) (mod-eq_of_lt h)

pub field_own : (n w k : ℕ) → n < 2 ^ w → field (n * 2 ^ k) w k ≡ n
unfolding field
field_own n w k h =
    ap (λ t. t % 2 ^ w) (mul-div_left n (one-le-pow k 2 (omega arith))) ∙ mod-eq_of_lt h

pub shifted_lt : (n w k m : ℕ) → n < 2 ^ w → w + k ≤ m → n * 2 ^ k < 2 ^ m
shifted_lt n w k m h fits = omega (
  arith,
  mul-lt-mul_of_pos_right h (one-le-pow k 2 (omega arith)),
  pow-add w k,
  pow-le-pow_right {n = 2} (omega arith) fits,
)

-- A value beside a field leaves the field empty.
pub field_beside :
    (n w' k' w k : ℕ) → n < 2 ^ w' → (k + w ≤ k') ⊎ (k' + w' ≤ k) → field (n * 2 ^ k') w k ≡ 0
unfolding field
field_beside n w' k' w k h (inl above) =
    let d = k' - (k + w) in
    ap (λ t. n * 2 ^ t / 2 ^ k % 2 ^ w) (split above)
    ∙ ap (λ t. t / 2 ^ k % 2 ^ w) (place n d w k)
    ∙ ap (λ t. t % 2 ^ w) (mul-div_left (n * 2 ^ d * 2 ^ w) (one-le-pow k 2 (omega arith)))
    ∙ mul-mod_left (n * 2 ^ d) (2 ^ w)
  where
    split : k + w ≤ k' → k' ≡ k' - (k + w) + w + k
    split h = omega arith
field_beside n w' k' w k h (inr below) =
    ap (λ t. t % 2 ^ w) (div-eq_of_lt (shifted_lt n w' k' k h (omega arith)))
    ∙ mod-eq_of_lt (one-le-pow w 2 (omega arith))

pub empty_field : (w k : ℕ) → field 0 w k ≡ 0
unfolding field
empty_field w k =
    ap (λ t. t % 2 ^ w) (div-eq_of_lt (one-le-pow k 2 (omega arith)))
    ∙ mod-eq_of_lt (one-le-pow w 2 (omega arith))
