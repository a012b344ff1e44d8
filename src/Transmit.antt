-- ===== src/Transmit.antt =====
-- src/sockcan/daemon/_server.py: the TX thread, which brings the frames of the consumers to the bus
-- and to the other consumers, and drains the backlogs.
pub mod Drain
pub mod Pacing
pub mod Keeps
pub mod Relay
pub mod Loop
mod Examples
use sockcan.Prelude.{ℕ, List, [], ◌∷◌, ◌++◌, Bool, true, false, ◌==◌, if◌then◌else◌}
use sockcan.Prelude.{Option, none, some, Result, ok, raise, Exception, is_os_error, struct_error}
use sockcan.Prelude.{can_operation_error, value_error}
use sockcan.Filters.{Consumer, frame_matches}
use sockcan.Backlog.{Frame, ConsumerIo}
use sockcan.Server.{Server, read, update, queue_frame, store_frame, modify, unregister}
use sockcan.Receive.{SendFailure, full, gone, broken, ignored, fatal, classify}

-- `except (struct.error, OSError)` around a receive.
abbrev pub is_lost : Exception → Bool
is_lost struct_error = true
is_lost e = is_os_error e

-- How the loop over a backlog ends.
pub data DrainEnd : Type 0 where
  emptied blocked disconnected : DrainEnd
  failed : Exception → DrainEnd

module _ {W : Type 0} (send : ℕ → Frame → W → Result (Unit {0}) × W) where
  unfoldable pub after_forward :
      ℕ → Frame → Server W → Result (Unit {0}) × W → Result (Unit {0}) × Server W
  unfolding classify queue_frame
  after_forward fd f s (ok _, w) = (ok tt, record s { world = w })
  after_forward fd f s (raise e, w) =
      let s' = record s { world = w } in
      elim (classify s.use_stream e) [
        | full ↦ queue_frame fd f s'
        | fatal ↦ (raise e, s')
        | _ ↦ (ok tt, s')
      ]

  -- One consumer of the loop that passes a frame of the consumer `source` on to the others.
  unfoldable pub forward : ℕ → Consumer → Frame → Server W → Result (Unit {0}) × Server W
  unfolding store_frame after_forward
  forward source c f s =
      if c.fd == source
      then (ok tt, s)
      else if frame_matches c.filters f.can_id f.is_extended
      then (if s.known c.fd
          then elim (s.io c.fd).outbound [
            | [] ↦ after_forward c.fd f s (send c.fd f s.world)
            | _ ∷ _ ↦ (ok tt, store_frame c.fd f s)
          ]
          else (ok tt, s))
      else (ok tt, s)

  unfoldable pub forward_all : ℕ → List Consumer → Frame → Server W → Result (Unit {0}) × Server W
  unfolding forward
  forward_all source [] f s = (ok tt, s)
  forward_all source (c ∷ cs) f s =
      let (r, s') = forward source c f s in
      elim r [ raise e ↦ (raise e, s') | ok _ ↦ forward_all source cs f s' ]

  -- One round of the loop `while outbound`, from what the send of the oldest frame gave; `next` is
  -- the rest of the loop.
  unfoldable pub drain_round :
      Bool
      → Frame
      → List Frame
      → (W → DrainEnd × List Frame × W)
      → Result (Unit {0}) × W
      → DrainEnd × List Frame × W
  unfolding classify
  drain_round is_stream f fs next (ok _, w) = next w
  drain_round is_stream f fs next (raise e, w) = elim (classify is_stream e) [
    | full ↦ (blocked, f ∷ fs, w)
    | gone ↦ (disconnected, f ∷ fs, w)
    | broken ↦ (disconnected, f ∷ fs, w)
    | ignored ↦ next w
    | fatal ↦ (failed e, f ∷ fs, w)
  ]

  -- How the loop ends, the frames that are left, and the world.
  -- The backlog is the list at the start: the RX thread does not touch it meanwhile.
  unfoldable pub drain_loop : Bool → ℕ → List Frame → W → DrainEnd × List Frame × W
  unfolding drain_round
  drain_loop is_stream fd [] w = (emptied, [], w)
  drain_loop is_stream fd (f ∷ fs) w =
      drain_round is_stream f fs (drain_loop is_stream fd fs) (send fd f w)

  -- The end of the write event: under the lock, an empty backlog is no longer watched for writing.
  unfoldable pub settle_drain : ℕ → DrainEnd → Server W → Result (Unit {0}) × Server W
  unfolding modify unregister
  settle_drain fd (failed e) s = (raise e, s)
  settle_drain fd disconnected s = unregister fd s
  settle_drain fd _ s = elim (s.io fd).outbound [
    | [] ↦
        let (r, s') = modify fd read s in
        elim r [
          | raise e ↦ (raise e, s')
          | ok _ ↦ (ok tt, record s' { io = update s'.io fd (record (s'.io fd) { dropped = 0 }) })
        ]
    | _ ∷ _ ↦ (ok tt, s)
  ]

  unfoldable pub after_drain :
      ℕ → Server W → DrainEnd × List Frame × W → Result (Unit {0}) × Server W
  unfolding settle_drain
  after_drain fd s (end, left, w) =
      settle_drain fd end
        (record s { io = update s.io fd (record (s.io fd) { outbound = left }); world = w })

  unfoldable pub on_write : ℕ → Server W → Result (Unit {0}) × Server W
  unfolding drain_loop after_drain
  on_write fd s = after_drain fd s (drain_loop s.use_stream fd (s.io fd).outbound s.world)

  module _ (recv : ℕ → W → Result Frame × W) (bus_send : Frame → W → Result (Unit {0}) × W) where
    -- A frame that came from the socket `fd`: first the other consumers, then the bus.
    unfoldable pub after_read : ℕ → Server W → Result Frame × W → Result (Unit {0}) × Server W
    unfolding forward_all unregister
    after_read fd s (raise e, w) =
        if is_lost e
        then unregister fd (record s { world = w })
        else (raise e, record s { world = w })
    after_read fd s (ok f, w) =
        let (r, s') = forward_all fd s.consumers f (record s { world = w }) in
        elim r [
          | raise e ↦ (raise e, s')
          | ok _ ↦
              if s'.has_bus
              then (let (r', w') = bus_send f s'.world in (r', record s' { world = w' }))
              else (ok tt, s')
        ]

    unfoldable pub on_read : ℕ → Server W → Result (Unit {0}) × Server W
    unfolding after_read
    on_read fd s = after_read fd s (recv fd s.world)

-- `run_tx` ends the thread quietly, or with a log entry, on these; others end it with a traceback.
unfoldable pub run_tx_catches : Exception → Bool
run_tx_catches can_operation_error = true
run_tx_catches struct_error = true
run_tx_catches value_error = true
run_tx_catches e = false
