-- ===== src/Candump/Hex.antt =====
-- Numbers in hexadecimal digits, and back.
use sockcan.Prelude.{ℕ, zero, suc, ◌+◌, ◌-◌, ◌*◌, ◌/◌, ◌%◌, ◌≤◌, ◌<◌, [], ◌∷◌, ◌++◌, ◌≡◌, refl}
use sockcan.Prelude.{ap, ◌∙◌, arith, ltb, if◌then◌else◌, Bool-cases, inl, inr, All, All-append}
use sockcan.Prelude.{Text, length, length-append, length-replicate, replicate}
use sockcan.Candump.{hex_digit, hex, hex_field}

abbrev unhex_digit : ℕ → ℕ
unhex_digit c = if ltb c 65 then c - 48 else c - 55

abbrev unhex_from : ℕ → Text → ℕ
unhex_from acc [] = acc
unhex_from acc (c ∷ t) = unhex_from (acc * 16 + unhex_digit c) t

-- The number that hexadecimal digits stand for.
abbrev pub unhex : Text → ℕ
unhex t = unhex_from 0 t

unhex_digit-hex_digit : (d : ℕ) → d < 16 → unhex_digit (hex_digit d) ≡ d
unhex_digit-hex_digit d h = ground (arith, h)

unhex_from-append :
    (acc : ℕ) (s t : Text) → unhex_from acc (s ++ t) ≡ unhex_from (unhex_from acc s) t
unhex_from-append acc [] t = refl
unhex_from-append acc (c ∷ s) t = unhex_from-append (acc * 16 + unhex_digit c) s t

unhex-zeros : (k : ℕ) (t : Text) → unhex (replicate k 48 ++ t) ≡ unhex t
unhex-zeros zero t = refl
unhex-zeros (suc k) t = unhex-zeros k t

unhex-hex : (fuel n : ℕ) → n ≤ fuel → unhex (hex fuel n) ≡ n
unfolding hex
unhex-hex zero n h = ground (arith, h)
unhex-hex (suc fuel) n h = elim (Bool-cases (ltb n 16)) [
  | inl small ↦ rw (small, hex) (omega (arith, unhex_digit-hex_digit n (ground (arith, small))))
  | inr large ↦
      rw (large, hex)
        (unhex_from-append 0 (hex fuel (n / 16)) (hex_digit (n % 16) ∷ [])
          ∙ ap (λ q. q * 16 + unhex_digit (hex_digit (n % 16)))
              (unhex-hex fuel (n / 16) (ground (arith, h, large)))
          ∙ ap (λ d. n / 16 * 16 + d) (unhex_digit-hex_digit (n % 16) (omega arith))
          ∙ omega arith)
]

pub unhex-hex_field : (width n : ℕ) → unhex (hex_field width n) ≡ n
unfolding hex_field
unhex-hex_field width n =
    unhex-zeros (width - length (hex n n)) (hex n n) ∙ unhex-hex n n (omega arith)

-- The numbers of `w` digits.
abbrev pub hex_limit : ℕ → ℕ
hex_limit zero = 1
hex_limit (suc w) = 16 * hex_limit w

length-hex : (w fuel n : ℕ) → n < hex_limit (suc w) → length (hex fuel n) ≤ suc w
unfolding hex
length-hex w zero n h = omega arith
length-hex zero (suc fuel) n h = ground (arith, h)
length-hex (suc w) (suc fuel) n h = elim (Bool-cases (ltb n 16)) [
  | inl small ↦ rw (small, hex) (omega arith)
  | inr large ↦
      rw (large, hex)
        (omega (
          arith,
          length-append (hex fuel (n / 16)) (hex_digit (n % 16) ∷ []),
          length-hex w fuel (n / 16) (omega (arith, h)),
        ))
]

pub length-hex_field : (w n : ℕ) → n < hex_limit (suc w) → length (hex_field (suc w) n) ≡ suc w
unfolding hex_field
length-hex_field w n h = omega (
  arith,
  length-append (replicate (suc w - length (hex n n)) 48) (hex n n),
  length-replicate {A = ℕ} (suc w - length (hex n n)) 48,
  length-hex w n n h,
)

-- A character that is no space.
abbrev pub IsInk : ℕ → Type 0
IsInk c = 33 ≤ c

hex-IsInk : (fuel n : ℕ) → All IsInk (hex fuel n)
unfolding hex
hex-IsInk zero n = (ground arith, tt)
hex-IsInk (suc fuel) n = elim (Bool-cases (ltb n 16)) [
  | inl small ↦ rw (small, hex) (ground arith, tt)
  | inr large ↦
      rw (large, hex)
        (All-append IsInk (hex fuel (n / 16)) (hex_digit (n % 16) ∷ []) (hex-IsInk fuel (n / 16))
          (ground arith, tt))
]

replicate-IsInk : (k : ℕ) → All IsInk (replicate k 48)
replicate-IsInk zero = tt
replicate-IsInk (suc k) = (omega arith, replicate-IsInk k)

pub hex_field-IsInk : (width n : ℕ) → All IsInk (hex_field width n)
unfolding hex_field
hex_field-IsInk width n =
    All-append IsInk (replicate (width - length (hex n n)) 48) (hex n n)
      (replicate-IsInk (width - length (hex n n))) (hex-IsInk n n)
