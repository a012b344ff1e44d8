-- ===== src/Prelude/Dicts.antt =====
-- Python's dict with numbers for keys: the entries in the order of their insertion.
use Prim.Native.Nat.{ℕ}
use mathlib.Core.Path.{◌≡◌}
use mathlib.Core.Logic.{◌≢◌}
use mathlib.Core.Option.{Option, none, some}
use mathlib.Core.List.{List, [], ◌∷◌}
use native.Mathlib.Omega.{arith}
use sockcan.Prelude.Tests.{◌==◌, ==_self, if◌then◌else◌}

abbrev pub Dict {ℓ} : Type ℓ → Type ℓ
Dict V = List (ℕ × V)

module _ {ℓ} {V : Type ℓ} where
  -- `d.get(k)`
  unfoldable pub dict_get : ℕ → Dict V → Option V
  dict_get k [] = none
  dict_get k ((j, v) ∷ d) = if j == k then some v else dict_get k d

  -- `d[k] = v`
  unfoldable pub dict_set : ℕ → V → Dict V → Dict V
  dict_set k v [] = (k, v) ∷ []
  dict_set k v ((j, u) ∷ d) = if j == k then (j, v) ∷ d else (j, u) ∷ dict_set k v d

  pub dict_get_own : (k : ℕ) (v : V) (d : Dict V) → dict_get k (dict_set k v d) ≡ some v
  unfolding dict_get dict_set
  dict_get_own k v [] = ground (arith, ==_self k)
  dict_get_own k v ((j, u) ∷ d) = ground (arith, dict_get_own k v d)

  pub dict_get_other :
      (i k : ℕ) (v : V) (d : Dict V) → k ≢ i → dict_get i (dict_set k v d) ≡ dict_get i d
  unfolding dict_get dict_set
  dict_get_other i k v [] diff = ground (arith, diff)
  dict_get_other i k v ((j, u) ∷ d) diff = ground (arith, diff, dict_get_other i k v d diff)

module _ {ℓ} {V : Type ℓ} where
  -- To set an entry to what it is changes nothing.
  pub dict_set_same : (k : ℕ) (v : V) (d : Dict V) → dict_get k d ≡ some v → dict_set k v d ≡ d
  unfolding dict_get dict_set
  dict_set_same k v [] h = ground (arith, h)
  dict_set_same k v ((j, u) ∷ d) h = ground (arith, h, dict_set_same k v d)

unfoldable pub map_values {ℓ} : {V : Type ℓ} → (V → V) → Dict V → Dict V
map_values f [] = []
map_values f ((k, v) ∷ d) = (k, f v) ∷ map_values f d
