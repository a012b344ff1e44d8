-- ===== src/Sockets/Opened.antt =====
-- Which sockets are open after a pair was made, or was not.
use sockcan.Prelude.{ℕ, ◌≡◌, ◌≢◌, sym, ap, ◌∙◌, arith, Bool, true, false, ◌||◌, ◌==◌, if◌then◌else◌}
use sockcan.Prelude.{Result, ok, raise, call_then, is_os_error}

module _ {W : Type 0} (is_open : W → ℕ → Bool) where
  -- A call that opens and closes nothing.
  abbrev pub Keeps : {A : Type 0} → W → Result A × W → Type 0
  Keeps w r = (j : ℕ) → is_open r.1 j ≡ is_open w j

  -- A call that opens a new socket, or raises.
  abbrev pub Opens : W → Result ℕ × W → Type 0
  Opens w (raise e, w') = (j : ℕ) → is_open w' j ≡ is_open w j
  Opens w (ok fd, w') = (is_open w fd ≡ false) × ((j : ℕ) → is_open w' j ≡ (j == fd) || is_open w j)

  abbrev pub Closes : W → ℕ → W → Type 0
  Closes w fd w' = (j : ℕ) → is_open w' j ≡ (if j == fd then false else is_open w j)

  -- The two sockets and no other one are new, or, after an OSError, none is.
  abbrev pub Paired : W → Result (ℕ × ℕ) × W → Type 0
  Paired w (ok (a, b), w') =
      (a ≢ b) × ((j : ℕ) → is_open w' j ≡ (j == a) || ((j == b) || is_open w j))
  Paired w (raise e, w') = is_os_error e ≡ true → (j : ℕ) → is_open w' j ≡ is_open w j

  pub Keeps-then :
      (w : W) (x : Result (Unit {0}) × W) (next : W → Result (Unit {0}) × W)
      → Keeps w x
      → ((w' : W) → Keeps w' (next w'))
      → Keeps w (call_then x (λ _ w'. next w'))
  Keeps-then w (ok u, w') next h g j = g w' j ∙ h j
  Keeps-then w (raise e, w') next h g j = h j

  pub Opens-then :
      (w : W) (x : Result (Unit {0}) × W) (next : W → Result ℕ × W)
      → Keeps w x
      → ((w' : W) → Opens w' (next w'))
      → Opens w (call_then x (λ _ w'. next w'))
  Opens-then w (ok u, w') next h g = moved (next w') (g w')
    where
      moved : (r : Result ℕ × W) → Opens w' r → Opens w r
      moved (ok fd, w'') (new, other) =
          (sym (h fd) ∙ new, λ j. other j ∙ ap (λ b. (j == fd) || b) (h j))
      moved (raise e, w'') same = λ j. same j ∙ h j
  Opens-then w (raise e, w') next h g = h

  -- `w` has the two sockets, which `w₀` does not.
  unfoldable pub HasTwo : W → ℕ → ℕ → W → Type 0
  HasTwo w₀ a b w =
      (a ≢ b)
      × (is_open w₀ a ≡ false)
      × (is_open w₀ b ≡ false)
      × ((j : ℕ) → is_open w j ≡ (j == a) || ((j == b) || is_open w₀ j))

  pub two_opened :
      (w₀ w₁ w₂ : W) (a b : ℕ) → Opens w₀ (ok a, w₁) → Opens w₁ (ok b, w₂) → HasTwo w₀ a b w₂
  unfolding HasTwo
  two_opened w₀ w₁ w₂ a b first second = (
    λ same. ground (arith, same, first.1 b, second.0),
    first.0,
    ground (arith, first.1 b, second.0),
    λ j. ground (arith, first.1 j, second.1 j),
  )

  pub swapped :
      (w₀ w w' : W) (a b : ℕ)
      → HasTwo w₀ a b w
      → ((j : ℕ) → is_open w' j ≡ is_open w j)
      → HasTwo w₀ b a w'
  unfolding HasTwo
  swapped w₀ w w' a b two same =
      (λ e. two.0 (sym e), two.2, two.1, λ j. ground (arith, same j, two.3 j))

  pub kept :
      (w₀ w : W) (a b : ℕ) (r : Result (Unit {0}) × W)
      → HasTwo w₀ a b w
      → Keeps w r
      → HasTwo w₀ a b r.1
  unfolding HasTwo
  kept w₀ w a b r two same = (two.0, two.1, two.2, λ j. same j ∙ two.3 j)

  module _ (close : ℕ → W → W) (closes : (fd : ℕ) (w : W) → Closes w fd (close fd w)) where
    pub closed_again :
        (w₀ w : W) (a b : ℕ)
        → HasTwo w₀ a b w
        → (j : ℕ) → is_open (close b (close a w)) j ≡ is_open w₀ j
    unfolding HasTwo
    closed_again w₀ w a b two j =
        ground (arith, closes b (close a w) j, closes a w j, two.3 j, two.1, two.2)

    pub listener_closed :
        (w₀ w w' : W) (l a b : ℕ)
        → HasTwo w₀ l a w
        → Opens w (ok b, w')
        → HasTwo w₀ a b (close l w')
    unfolding HasTwo
    listener_closed w₀ w w' l a b two new = (
      λ same. ground (arith, same, two.3 b, new.0),
      two.2,
      ground (arith, two.3 b, new.0),
      λ j. ground (arith, closes l w' j, new.1 j, two.3 j, two.0, two.1, two.3 l, new.0),
    )
