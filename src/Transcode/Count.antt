-- ===== src/Transcode/Count.antt =====
-- src/sockcan/transcoders/_encoders.py: the number of bits in the mask of a signal, and the range
-- check that is made with it.
use sockcan.Prelude.{ℕ, zero, suc, ◌+◌, ◌-◌, ◌*◌, ◌/◌, ◌%◌, ◌^◌, ◌≤◌, ◌<◌, ◌≡◌, refl, ap, ap₂, ◌∙◌}
use sockcan.Prelude.{ok, arith}
use native.Mathlib.Nat.{pow-succ', one-le-pow, zero-add, suc-add, zero-mul}
use sockcan.Transcode.{bit_count, bit_count_loop, check_range, pos}

half_place : (m k : ℕ) → m * 2 ^ suc k ≡ m * 2 ^ k * 2
half_place m k = omega (arith, ap (λ t. m * t) (pow-succ' 2 k))

loop_shifted : (k f m : ℕ) → bit_count_loop (k + f) (m * 2 ^ k) ≡ bit_count_loop f m
unfolding bit_count_loop
loop_shifted zero f m = ap₂ bit_count_loop (omega arith) (omega arith)
loop_shifted (suc k) f m =
    ap (λ j. bit_count_loop j (m * 2 ^ suc k)) (suc-add k f)
    ∙ ap (λ t. t + bit_count_loop (k + f) (m * 2 ^ suc k / 2)) even
    ∙ zero-add (bit_count_loop (k + f) (m * 2 ^ suc k / 2))
    ∙ ap (bit_count_loop (k + f)) halved
    ∙ loop_shifted k f m
  where
    even : m * 2 ^ suc k % 2 ≡ 0
    even = omega (arith, half_place m k)

    halved : m * 2 ^ suc k / 2 ≡ m * 2 ^ k
    halved = omega (arith, half_place m k)

loop_zero : (f : ℕ) → bit_count_loop f 0 ≡ 0
unfolding bit_count_loop
loop_zero zero = refl
loop_zero (suc f) = omega (arith, loop_zero f)

loop_ones : (w f : ℕ) → w ≤ f → bit_count_loop f (2 ^ w - 1) ≡ w
unfolding bit_count_loop
loop_ones zero f h = loop_zero f
loop_ones (suc w) zero h = absurd (omega arith)
loop_ones (suc w) (suc f) h = omega (
  arith,
  pow-succ' 2 w,
  one-le-pow w 2 (omega arith),
  ap (bit_count_loop f) (half w),
  loop_ones w f (omega arith),
)
  where
    half : (w : ℕ) → (2 ^ suc w - 1) / 2 ≡ 2 ^ w - 1
    half w = omega (arith, pow-succ' 2 w, one-le-pow w 2 (omega arith))

lt-pow : (w : ℕ) → w < 2 ^ w
lt-pow zero = omega arith
lt-pow (suc w) = omega (arith, lt-pow w, pow-succ' 2 w)

enough : (w k : ℕ) → 0 < w → k + w ≤ (2 ^ w - 1) * 2 ^ k
enough w zero h = omega (arith, lt-pow w)
enough w (suc k) h = omega (arith, enough w k h, half_place (2 ^ w - 1) k)

pub bit_count-mask : (w k : ℕ) → bit_count ((2 ^ w - 1) * 2 ^ k) ≡ w
unfolding bit_count
bit_count-mask zero k = ap₂ bit_count_loop (zero-mul (2 ^ k)) (zero-mul (2 ^ k))
bit_count-mask (suc w) k =
    let n = (2 ^ suc w - 1) * 2 ^ k in
    ap (λ j. bit_count_loop j n) (split (enough (suc w) k (omega arith)))
    ∙ loop_shifted k (n - k) (2 ^ suc w - 1)
    ∙ loop_ones (suc w) (n - k) (room (enough (suc w) k (omega arith)))
  where
    split : {n : ℕ} → k + suc w ≤ n → n ≡ k + (n - k)
    split h = omega arith

    room : {n : ℕ} → k + suc w ≤ n → suc w ≤ n - k
    room h = omega arith

pub check_range-lt : (n w k : ℕ) → n < 2 ^ w → check_range ((2 ^ w - 1) * 2 ^ k) (pos n) ≡ ok n
unfolding check_range
check_range-lt n w k h = ground (arith, bit_count-mask w k)
