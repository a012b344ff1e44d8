-- ===== src/Hub.antt =====
-- A server as its consumers see it: a hub where each consumer has the list of the frames that are
-- meant for it, in order. Sockets that are full, backlogs and the selector are below this view.
pub mod Writes
pub mod Refines
mod Examples
use sockcan.Prelude.{ℕ, List, [], ◌∷◌, ◌++◌, Result, ok, raise, and_then}
use sockcan.Filters.{Consumer}
use sockcan.Backlog.{Frame}
use sockcan.Server.{Server}
use sockcan.Receive.{dispatch}
use sockcan.Receive.Turn.{additions}
use sockcan.Transmit.{after_read, on_write}
use sockcan.Transmit.Relay.{others}

pub record Hub : Type 0 where
  pub subscribers : List Consumer
  pub seen : ℕ → List Frame

-- The bus has a frame, a client has sent one, or a client's socket takes frames again.
pub data HubEvent : Type 0 where
  from_bus : Frame → HubEvent
  from_client : ℕ → Frame → HubEvent
  drains : ℕ → HubEvent

unfoldable pub hub_step : HubEvent → Hub → Hub
unfolding additions others
hub_step (from_bus f) h = record h { seen = λ j. h.seen j ++ additions j h.subscribers f }
hub_step (from_client source f) h = record h {
  seen = λ j. h.seen j ++ additions j (others source h.subscribers) f;
}
hub_step (drains fd) h = h

unfoldable pub hub_run : List HubEvent → Hub → Hub
unfolding hub_step
hub_run [] h = h
hub_run (e ∷ es) h = hub_run es (hub_step e h)

module _ {W : Type 0} (send : ℕ → Frame → W → Result (Unit {0}) × W)
    (recv : ℕ → W → Result Frame × W) (bus_send : Frame → W → Result (Unit {0}) × W) where
  -- What the server does at an event, by the handlers of its threads.
  unfoldable pub server_step : HubEvent → Server W → Result (Unit {0}) × Server W
  unfolding dispatch after_read on_write
  server_step (from_bus f) s = dispatch send s.consumers f s
  server_step (from_client fd f) s = after_read send recv bus_send fd s (ok f, s.world)
  server_step (drains fd) s = on_write send fd s

  unfoldable pub server_run : List HubEvent → Server W → Result (Unit {0}) × Server W
  unfolding server_step
  server_run [] s = (ok tt, s)
  server_run (e ∷ es) s = and_then (server_step e s) (server_run es)
