-- ===== src/Transmit/Loop.antt =====
-- src/sockcan/daemon/_server.py: the loop of `_run_tx` over what the selector reports.
use sockcan.Prelude.{ℕ, ◌-◌, List, [], ◌∷◌, Bool, if◌then◌else◌}
use sockcan.Prelude.{Result, ok, raise, and_then}
use sockcan.Backlog.{Frame}
use sockcan.Server.{Server}
use sockcan.Transmit.{after_read, on_write}

-- A key of the selector with its events: the kill switch, whose data is None, or a consumer.
pub data TxEvent : Type 0 where
  kill_switch : TxEvent
  ready : ℕ → Bool → Bool → TxEvent

module _ {W : Type 0} (send : ℕ → Frame → W → Result (Unit {0}) × W)
    (recv : ℕ → W → Result Frame × W) (bus_send : Frame → W → Result (Unit {0}) × W) where
  -- `if events & EVENT_WRITE`
  unfoldable pub write_event : ℕ → Bool → Server W → Result (Unit {0}) × Server W
  unfolding on_write
  write_event fd writable s = if writable then on_write send fd s else (ok tt, s)

  -- What follows a receive: after a failed one, `continue` skips the write event.
  unfoldable pub read_event : ℕ → Bool → Server W → Result Frame × W → Result (Unit {0}) × Server W
  unfolding after_read write_event
  read_event fd writable s (raise e, w) = after_read send recv bus_send fd s (raise e, w)
  read_event fd writable s (ok f, w) =
      and_then (after_read send recv bus_send fd s (ok f, w)) (write_event fd writable)

  unfoldable pub on_ready : ℕ → Bool → Bool → Server W → Result (Unit {0}) × Server W
  unfolding read_event
  on_ready fd readable writable s =
      if readable then read_event fd writable s (recv fd s.world) else write_event fd writable s

  -- `kill_switch.recv(1)`
  unfoldable pub take_wakeup : Server W → Server W
  take_wakeup s = record s { wakeups = s.wakeups - 1 }

  -- The loop over the events; the kill switch of a server that was stopped breaks it.
  unfoldable pub for_events : List TxEvent → Server W → Result (Unit {0}) × Server W
  unfolding on_ready take_wakeup
  for_events [] s = (ok tt, s)
  for_events (kill_switch ∷ events) s =
      if s.running then for_events events (take_wakeup s) else (ok tt, take_wakeup s)
  for_events (ready fd readable writable ∷ events) s =
      and_then (on_ready fd readable writable s) (for_events events)

  -- `while self._running`, over the lists that `select` returns; after these it is still waiting.
  unfoldable pub tx_loop : List (List TxEvent) → Server W → Result (Unit {0}) × Server W
  unfolding for_events
  tx_loop [] s = (ok tt, s)
  tx_loop (selector_events ∷ later) s =
      if s.running then and_then (for_events selector_events s) (tx_loop later) else (ok tt, s)
