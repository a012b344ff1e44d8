-- ===== src/Receive.antt =====
-- src/sockcan/daemon/_server.py: the RX thread, which brings the frames of the bus to the consumers.
-- `send` is the send function of a consumer's socket.
pub mod Turn
pub mod FanOut
use sockcan.Prelude.{ℕ, List, [], ◌∷◌, ◌++◌, Bool, true, false, ◌&&◌, ◌||◌, ◌==◌, if◌then◌else◌}
use sockcan.Prelude.{Option, none, some, Result, ok, raise, Exception, is_would_block}
use sockcan.Prelude.{
  is_disconnect, is_os_error, os_error, key_error, value_error, can_operation_error,
}
use sockcan.Filters.{Consumer, frame_matches}
use sockcan.Backlog.{Frame}
use sockcan.Server.{Server, update, queue_frame, store_frame, refresh_bus_filters, wake}

-- ENOTCONN and ECONNREFUSED, as Linux numbers them.
abbrev pub endpoint_not_connected_errno : ℕ
endpoint_not_connected_errno = 107

abbrev pub connection_refused_errno : ℕ
connection_refused_errno = 111

-- A datagram socket that nobody listens to.
abbrev pub is_not_listening : Exception → Bool
is_not_listening (os_error (some n)) =
    (n == endpoint_not_connected_errno) || (n == connection_refused_errno)
is_not_listening _ = false

-- Which of the `except` clauses around a send takes an exception.
pub data SendFailure : Type 0 where
  full gone broken ignored fatal : SendFailure

unfoldable pub classify : Bool → Exception → SendFailure
classify is_stream e =
    if is_would_block e
    then full
    else if is_disconnect e
    then gone
    else if is_os_error e
    then (if is_stream then broken else if is_not_listening e then ignored else fatal)
    else fatal

-- The first entry for the socket goes.
unfoldable pub remove_consumer : ℕ → List Consumer → List Consumer
remove_consumer fd [] = []
remove_consumer fd (c ∷ cs) = if c.fd == fd then cs else c ∷ remove_consumer fd cs

unfoldable pub has_consumer : ℕ → List Consumer → Bool
has_consumer fd [] = false
has_consumer fd (c ∷ cs) = (c.fd == fd) || has_consumer fd cs

abbrev pub any_closed : List Consumer → Bool
any_closed [] = false
any_closed (c ∷ cs) = true

module _ {W : Type 0} where
  -- `consumers.remove(consumer); del consumer_io[consumer.fd]`
  unfoldable pub drop_closed : ℕ → Server W → Result (Unit {0}) × Server W
  unfolding remove_consumer has_consumer
  drop_closed fd s =
      if has_consumer fd s.consumers
      then (let s' = record s { consumers = remove_consumer fd s.consumers } in
          if s.known fd
          then (ok tt, record s' { known = update s.known fd false })
          else (raise key_error, s'))
      else (raise value_error, s)

  unfoldable pub drop_all_closed : List Consumer → Server W → Result (Unit {0}) × Server W
  unfolding drop_closed
  drop_all_closed [] s = (ok tt, record s { closed_connections = [] })
  drop_all_closed (c ∷ cs) s =
      let (r, s') = drop_closed c.fd s in
      elim r [ raise e ↦ (raise e, s') | ok _ ↦ drop_all_closed cs s' ]

  -- The sockets that the TX thread reported; the flag says whether a consumer went.
  unfoldable pub drop_dead : List ℕ → Bool → Server W → Bool × Server W
  unfolding remove_consumer has_consumer
  drop_dead [] changed s = (changed, record s { dead_consumer_fds = [] })
  drop_dead (fd ∷ fds) changed s =
      drop_dead fds (has_consumer fd s.consumers || changed)
        (record s { known = update s.known fd false; consumers = remove_consumer fd s.consumers })

  -- The first half of a round of `_run_rx`, before the thread waits for the bus.
  unfoldable pub reap : Server W → Result (Unit {0}) × Server W
  unfolding drop_all_closed drop_dead refresh_bus_filters
  reap s =
      let (r, s') = drop_all_closed s.closed_connections s in
      elim r [
        | raise e ↦ (raise e, s')
        | ok _ ↦
            let (changed, s'') =
              drop_dead s'.dead_consumer_fds (any_closed s.closed_connections) s' in
            if changed then refresh_bus_filters s'' else (ok tt, s'')
      ]

  module _ (send : ℕ → Frame → W → Result (Unit {0}) × W) where
    -- What follows a send of `f` to the socket of `c`.
    unfoldable pub after_send :
        Consumer → Frame → Server W → Result (Unit {0}) × W → Result (Unit {0}) × Server W
    unfolding classify queue_frame wake
    after_send c f s (ok _, w) = (ok tt, record s { world = w })
    after_send c f s (raise e, w) =
        let s' = record s { world = w } in
        let closing = record s' { closed_connections = s.closed_connections ++ (c ∷ []) } in
        elim (classify s.use_stream e) [
          | full ↦
              let (r, q) = queue_frame c.fd f s' in
              elim r [ raise e' ↦ (raise e', q) | ok _ ↦ (ok tt, wake q) ]
          | gone ↦ (ok tt, closing)
          | broken ↦ (ok tt, closing)
          | ignored ↦ (ok tt, s')
          | fatal ↦ (raise e, s')
        ]

    -- One consumer of the loop over `consumers`.
    unfoldable pub deliver : Consumer → Frame → Server W → Result (Unit {0}) × Server W
    unfolding store_frame after_send
    deliver c f s =
        if frame_matches c.filters f.can_id f.is_extended
        then (if s.known c.fd
            then elim (s.io c.fd).outbound [
              | [] ↦ after_send c f s (send c.fd f s.world)
              | _ ∷ _ ↦ (ok tt, store_frame c.fd f s)
            ]
            else (raise key_error, s))
        else (ok tt, s)

    -- The second half of a round, for a frame that the bus received.
    unfoldable pub dispatch : List Consumer → Frame → Server W → Result (Unit {0}) × Server W
    unfolding deliver
    dispatch [] f s = (ok tt, s)
    dispatch (c ∷ cs) f s =
        let (r, s') = deliver c f s in elim r [ raise e ↦ (raise e, s') | ok _ ↦ dispatch cs f s' ]

    -- What follows `recv()` on the bus.
    unfoldable pub after_recv : Server W → Result Frame × W → Result (Unit {0}) × Server W
    unfolding dispatch
    after_recv s (raise e, w) = (raise e, record s { world = w })
    after_recv s (ok f, w) = dispatch s.consumers f (record s { world = w })

    -- One round of `while True` in `_run_rx`.
    unfoldable pub rx_round : (W → Result Frame × W) → Server W → Result (Unit {0}) × Server W
    unfolding reap after_recv
    rx_round bus_recv s =
        let (r, s') = reap s in
        elim r [ raise e ↦ (raise e, s') | ok _ ↦ after_recv s' (bus_recv s'.world) ]

-- `run_rx` ends the thread quietly, or with a log entry, on these; others end it with a traceback.
unfoldable pub run_rx_catches : Exception → Bool
run_rx_catches can_operation_error = true
run_rx_catches value_error = true
run_rx_catches e = is_os_error e
