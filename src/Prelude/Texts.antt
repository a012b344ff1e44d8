-- ===== src/Prelude/Texts.antt =====
-- Python's str and bytes as lists of numbers: the bytes of a text, all of whose characters are ASCII.
use Prim.Native.Char.{code}
use Prim.Native.String.{String}
use Prim.Native.Nat.{ℕ, zero, suc, ◌+◌, ◌/◌, ◌%◌, ◌≤◌}
use mathlib.Core.Logic.{inl, inr}
use mathlib.Core.Bool.{Bool, true, false, ◌&&◌, ◌||◌}
use mathlib.Core.List.{List, [], ◌∷◌, ◌++◌}
use native.Mathlib.Omega.{arith}
use sockcan.Prelude.Tests.{◌==◌, ltb, Bool-cases}
use sockcan.Prelude.Lists.{All}

abbrev pub Text : Type 0
Text = List ℕ

-- The code points of a text: its bytes, if it is ASCII. `String` has its own `[]` and `∷`.
abbrev pub codes : String → Text
codes String.[] = []
codes (String.◌∷◌ c s) = code c ∷ codes s

-- `sep.join(parts)`
unfoldable pub join : Text → List Text → Text
join sep [] = []
join sep (part ∷ []) = part
join sep (part ∷ (next ∷ parts)) = part ++ (sep ++ join sep (next ∷ parts))

unfoldable pub starts_with : Text → Text → Bool
starts_with [] t = true
starts_with (a ∷ p) [] = false
starts_with (a ∷ p) (b ∷ t) = (a == b) && starts_with p t

-- `p in t`
unfoldable pub contains : Text → Text → Bool
unfolding starts_with
contains p [] = starts_with p []
contains p (b ∷ t) = starts_with p (b ∷ t) || contains p t

-- The decimal digits of a number, on fuel: a number has no more digits than it counts.
unfoldable pub decimal : ℕ → ℕ → Text
decimal zero n = (48 + n % 10) ∷ []
decimal (suc fuel) n = elim (ltb n 10) [
  | true ↦ (48 + n) ∷ []
  | false ↦ decimal fuel (n / 10) ++ ((48 + n % 10) ∷ [])
]

-- `str(n)`
unfoldable pub str : ℕ → Text
unfolding decimal
str n = decimal n n

pub All-append : (P : ℕ → Type 0) (xs ys : Text) → All P xs → All P ys → All P (xs ++ ys)
All-append P [] ys h g = g
All-append P (x ∷ xs) ys h g = (h.0, All-append P xs ys h.1 g)

pub All-implies : (P Q : ℕ → Type 0) (xs : Text) → ((c : ℕ) → P c → Q c) → All P xs → All Q xs
All-implies P Q [] h all_p = tt
All-implies P Q (x ∷ xs) h all_p = (h x all_p.0, All-implies P Q xs h all_p.1)

-- The digits of a number are digits.
pub decimal-digits : (fuel n : ℕ) → All (λ c. 48 ≤ c × c ≤ 57) (decimal fuel n)
unfolding decimal
decimal-digits zero n = ((omega arith, omega arith), tt)
decimal-digits (suc fuel) n = elim (Bool-cases (ltb n 10)) [
  | inl small ↦ rw (small, decimal) ((omega arith, ground (arith, small)), tt)
  | inr large ↦
      rw (large, decimal)
        (All-append (λ c. 48 ≤ c × c ≤ 57) (decimal fuel (n / 10)) ((48 + n % 10) ∷ [])
          (decimal-digits fuel (n / 10)) ((omega arith, omega arith), tt))
]
