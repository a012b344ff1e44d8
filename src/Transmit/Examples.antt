-- ===== src/Transmit/Examples.antt =====
-- The pacing at a clock that counts, on a bus whose sends take 7 ns.
use sockcan.Prelude.{ℕ, ◌+◌, ok, Result}
use sockcan.Backlog.{Frame}

abbrev slow_bus : Frame → ℕ → Result (Unit {0}) × ℕ
slow_bus f now = (ok tt, now + 7)
