-- ===== src/Filters/Exact.antt =====
-- A consumer that subscribes with a set of identifiers gets exactly those.
use sockcan.Prelude.{ℕ, List, [], ◌∷◌, map, ◌≡◌, refl, Bool, true, false, ◌||◌, ◌==◌}
use sockcan.Prelude.{◌^◌, ◌<◌, none, All, bit_and, arith, if◌then◌else◌}
use sockcan.Bits.{bit_and-ones}
use sockcan.Filters.{any_accepts, filter_accepts, frame_matches}
use sockcan.Filters.{normalize_filters, id_set}
use native.Mathlib.Nat.{mod-eq_of_lt}

unfoldable pub contains : ℕ → List ℕ → Bool
contains i [] = false
contains i (j ∷ js) = (i == j) || contains i js

abbrev pub is_empty : List ℕ → Bool
is_empty [] = true
is_empty (j ∷ js) = false

exact :
    (i j : ℕ) → i < 2 ^ 29 → j < 2 ^ 29 → (bit_and i 0x1FFFFFFF == bit_and j 0x1FFFFFFF) ≡ (i == j)
exact i j hi hj = rw (bit_and-ones 29 i, bit_and-ones 29 j, mod-eq_of_lt hi, mod-eq_of_lt hj)

any_accepts-ids :
    (ids : List ℕ) (i : ℕ) (e : Bool)
    → i < 2 ^ 29
    → All (λ j. j < 2 ^ 29) ids
    → any_accepts (map (λ j. record { can_id = j; can_mask = 0x1FFFFFFF; extended = none }) ids) i e
      ≡ contains i ids
unfolding any_accepts filter_accepts contains
any_accepts-ids [] i e hi h = refl
any_accepts-ids (j ∷ js) i e hi h = ground (arith, exact i j hi h.0, any_accepts-ids js i e hi h.1)

-- A frame of 29 bits passes a set of such identifiers exactly if it is one of them; the flag for
-- extended frames plays no part. The empty set is no filter at all, and everything passes.
pub frame_matches-id_set :
    (ids : List ℕ) (i : ℕ) (e : Bool)
    → i < 2 ^ 29
    → All (λ j. j < 2 ^ 29) ids
    → frame_matches (normalize_filters (id_set ids)) i e
      ≡ (if is_empty ids then true else contains i ids)
unfolding frame_matches normalize_filters
frame_matches-id_set [] i e hi h = refl
frame_matches-id_set (j ∷ js) i e hi h = any_accepts-ids (j ∷ js) i e hi h
