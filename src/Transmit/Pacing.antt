-- ===== src/Transmit/Pacing.antt =====
-- src/sockcan/daemon/_server.py: the pacing of the frames that the TX thread sends to the bus. The
-- clock and the sleep are parameters; times are whole nanoseconds.
use sockcan.Prelude.{ℕ, ◌+◌, ◌-◌, ◌≤◌, List, [], ◌∷◌, ltb, Option, none, some, Result}
use sockcan.Prelude.{if◌then◌else◌, ◌==◌}
use sockcan.Backlog.{Frame}

module _ {W : Type 0} (monotonic_time_ns : W → ℕ) (sleep : ℕ → W → W)
    (bus_send : Frame → W → Result (Unit {0}) × W) where
  -- `contention = last_sent + contention_time_ns - monotonic_time_ns()`, and a sleep if it is positive.
  unfoldable pub wait_turn : ℕ → ℕ → W → W
  wait_turn contention_time_ns last_sent w =
      if ltb (monotonic_time_ns w) (last_sent + contention_time_ns)
      then sleep (last_sent + contention_time_ns - monotonic_time_ns w) w
      else w

  -- A send on a bus whose state has the `last_sent` of the TX thread beside it. A contention time of
  -- None or 0 is no pacing.
  unfoldable pub paced_send : Option ℕ → Frame → ℕ × W → Result (Unit {0}) × ℕ × W
  unfolding wait_turn
  paced_send none f (last_sent, w) = let (r, w') = bus_send f w in (r, last_sent, w')
  paced_send (some contention_time_ns) f (last_sent, w) =
      if contention_time_ns == 0
      then (let (r, w') = bus_send f w in (r, last_sent, w'))
      else (let w₁ = wait_turn contention_time_ns last_sent w in
          let (r, w₂) = bus_send f w₁ in (r, monotonic_time_ns w₁, w₂))

  -- The times at which the frames go to the bus, one after the other.
  unfoldable pub send_times : ℕ → List Frame → ℕ → W → List ℕ
  unfolding paced_send
  send_times contention [] last_sent w = []
  send_times contention (f ∷ fs) last_sent w =
      let (r, t, w') = paced_send (some contention) f (last_sent, w) in
      t ∷ send_times contention fs t w'

  -- Each time is at least the gap after the one before it.
  abbrev pub IsSpaced : ℕ → ℕ → List ℕ → Type 0
  IsSpaced gap t [] = Unit
  IsSpaced gap t (u ∷ us) = (t + gap ≤ u) × IsSpaced gap u us
