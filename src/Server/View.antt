-- ===== src/Server/View.antt =====
-- What a consumer gets to see: the frames that its socket took, and those that wait for it.
use sockcan.Prelude.{ℕ, List, [], ◌∷◌, ◌++◌, ◌≡◌, ◌≢◌, none, Result, ok, raise}
use sockcan.Backlog.{Frame}
use sockcan.Server.{Server}

module _ {W : Type 0} (delivered : W → ℕ → List Frame) where
  -- A send that returns adds the frame to those of its socket; one that raises adds nothing. (For a
  -- stream the second part is `Stream.Writing.send_payload_stream-Leaves`.)
  abbrev pub Sends : W → ℕ → Frame → Result (Unit {0}) × W → Type 0
  Sends w fd f (ok _, w') =
      (delivered w' fd ≡ delivered w fd ++ (f ∷ []))
      × ((j : ℕ) → j ≢ fd → delivered w' j ≡ delivered w j)
  Sends w fd f (raise e, w') = (j : ℕ) → delivered w' j ≡ delivered w j

  abbrev pub view : Server W → ℕ → List Frame
  view s j = delivered s.world j ++ (s.io j).outbound

-- The selector knows the socket.
abbrev pub IsWatched : {W : Type 0} → Server W → ℕ → Type 0
IsWatched s j = s.selector j ≢ none
