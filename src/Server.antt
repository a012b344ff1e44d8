-- ===== src/Server.antt =====
-- src/sockcan/daemon/_server.py: the state of a `SocketcanServer`, its registration of consumers and
-- its start and stop. A socket is known by a number. The world `W` holds the sockets and the bus.
pub mod View
pub mod Listening
pub mod Subscribe
pub mod Scope
use sockcan.Prelude.{ℕ, ◌+◌, List, [], ◌∷◌, ◌++◌, Bool, true, false, not, ◌&&◌, ◌||◌, ◌==◌}
use sockcan.Prelude.{Option, none, some, if◌then◌else◌, Result, ok, raise, Exception}
use sockcan.Prelude.{runtime_error, key_error}
use sockcan.Filters.{CanFilter, Consumer, FilterSpec, normalize_filters, aggregate_filters}
use sockcan.Backlog.{Frame, ConsumerIo, fresh_io, push_frame}

-- What the selector watches a socket for.
pub data Interest : Type 0 where
  read read_write : Interest

-- `ServerDirection`
pub data Direction : Type 0 where
  rx_only tx_only bidirectional : Direction

abbrev pub is_tx_only : Direction → Bool
is_tx_only tx_only = true
is_tx_only _ = false

abbrev pub is_rx_only : Direction → Bool
is_rx_only rx_only = true
is_rx_only _ = false

pub data ThreadKind : Type 0 where
  rx_thread tx_thread : ThreadKind

-- How the calls of the platform and of the bus end that a registration makes next, which may change at
-- any time: `pair`, the socket pair of `subscribe`; `prepare`, what builds the functions of a socket
-- and sets its options; `set_filters`, the `set_filters` of the bus. `candump` is what the opening of the
-- candump file gives at a start, if there is to be one.
pub record Surroundings : Type 0 where
  pub pair : Result (Unit {0})
  pub prepare : Result (Unit {0})
  pub set_filters : Result (Unit {0})
  pub candump : Option (Result (Unit {0}))

abbrev pub willing : Surroundings
willing = record { pair = ok tt; prepare = ok tt; set_filters = ok tt; candump = none }

-- Dictionaries are functions. `io` is the `_ConsumerIO` object of a socket, which the selector goes
-- on sharing after `consumer_io` has lost its entry; `known` says which sockets have an entry.
-- `closed_connections` is the variable of the RX thread, `wakeups` the bytes in the kill switch.
pub record Server (W : Type 0) : Type 0 where
  pub consumers : List Consumer
  pub known : ℕ → Bool
  pub io : ℕ → ConsumerIo
  pub selector : ℕ → Option Interest
  pub dead_consumer_fds : List ℕ
  pub closed_connections : List Consumer
  pub wakeups : ℕ
  pub bus_filters : Option (List CanFilter)
  pub has_bus : Bool
  pub use_stream : Bool
  pub running : Bool
  pub threads : List ThreadKind
  pub has_candump_writer : Bool
  pub surroundings : Surroundings
  pub world : W

abbrev pub update {ℓ} : {A : Type ℓ} → (ℕ → A) → ℕ → A → ℕ → A
update f k v j = if j == k then v else f j

module _ {W : Type 0} where
  -- `selector.modify`: a socket that is not registered is a KeyError.
  unfoldable pub modify : ℕ → Interest → Server W → Result (Unit {0}) × Server W
  modify fd i s = elim (s.selector fd) [
    | none ↦ (raise key_error, s)
    | some _ ↦ (ok tt, record s { selector = update s.selector fd (some i) })
  ]

  -- `selector.unregister` and the report to the RX thread.
  unfoldable pub unregister : ℕ → Server W → Result (Unit {0}) × Server W
  unregister fd s = elim (s.selector fd) [
    | none ↦ (raise key_error, s)
    | some _ ↦ (
      ok tt,
      record s {
        selector = update s.selector fd none;
        dead_consumer_fds = s.dead_consumer_fds ++ (fd ∷ []);
      },
    )
  ]

  unfoldable pub store_frame : ℕ → Frame → Server W → Server W
  unfolding push_frame
  store_frame fd f s = record s { io = update s.io fd (push_frame (s.io fd) f) }

  -- `_queue_frame`: the frame is appended before the selector is asked to watch for writing.
  unfoldable pub queue_frame : ℕ → Frame → Server W → Result (Unit {0}) × Server W
  unfolding store_frame modify
  queue_frame fd f s = modify fd read_write (store_frame fd f s)

  -- A bus that refuses the filters keeps those that it has.
  unfoldable pub refresh_bus_filters : Server W → Result (Unit {0}) × Server W
  refresh_bus_filters s =
      if s.has_bus
      then elim s.surroundings.set_filters [
        | raise e ↦ (raise e, s)
        | ok _ ↦ (ok tt, record s { bus_filters = aggregate_filters s.consumers })
      ]
      else (ok tt, s)

  -- `selector.register` under `suppress(KeyError)`: a socket that is there already stays as it is.
  unfoldable pub register : ℕ → Server W → Server W
  register fd s = elim (s.selector fd) [
    | none ↦ record s { selector = update s.selector fd (some read) }
    | some _ ↦ s
  ]

  -- The byte that interrupts the selection of the TX thread.
  unfoldable pub wake : Server W → Server W
  wake s = record s { wakeups = s.wakeups + 1 }

  unfoldable pub add_consumer : ℕ → Option (List CanFilter) → Server W → Server W
  add_consumer fd filters s = record s {
    known = update s.known fd true;
    io = update s.io fd fresh_io;
    consumers = s.consumers ++ (record { fd = fd; filters = filters } ∷ []);
  }

  -- The end of `listen_to`.
  unfoldable pub watch : ℕ → Server W → Server W
  unfolding register wake
  watch fd s = let r = register fd s in if r.running then wake r else r

  -- `listen_to`, with `is_dgram` the type of the socket.
  unfoldable pub listen_to : ℕ → Bool → FilterSpec → Bool → Server W → Result (Unit {0}) × Server W
  unfolding add_consumer refresh_bus_filters watch
  listen_to fd is_dgram filters force_stream s =
      if not (s.use_stream || force_stream) && not is_dgram
      then (raise runtime_error, s)
      else elim s.surroundings.prepare [
        | raise e ↦ (raise e, s)
        | ok _ ↦
            let (r, t) = refresh_bus_filters (add_consumer fd (normalize_filters filters) s) in
            elim r [ raise e ↦ (raise e, t) | ok _ ↦ (ok tt, watch fd t) ]
      ]

  -- `subscribe`: `ours` is the server's end of a fresh socket pair, which is a stream pair on a
  -- stream server, and a datagram pair otherwise. A Windows without AF_UNIX forces stream framing.
  unfoldable pub subscribe : ℕ → Bool → FilterSpec → Server W → Result (Unit {0}) × Server W
  unfolding listen_to
  subscribe ours has_no_af_unix filters s = elim s.surroundings.pair [
    | raise e ↦ (raise e, s)
    | ok _ ↦
        if s.use_stream
        then listen_to ours false filters false s
        else listen_to ours true filters has_no_af_unix s
  ]

  -- The threads of `start`: the RX thread needs a bus.
  unfoldable pub start_threads : Direction → Bool → Server W → Server W
  start_threads direction has_candump_writer s = record s {
    running = true;
    has_candump_writer = has_candump_writer;
    threads =
        (if not (is_tx_only direction) && s.has_bus then rx_thread ∷ [] else [])
        ++ (if is_rx_only direction then [] else tx_thread ∷ []);
  }

  -- `start`: a candump file that cannot be opened ends it when the server already counts as running.
  unfoldable pub start : Direction → Server W → Result (Unit {0}) × Server W
  unfolding start_threads
  start direction s = if s.running then (raise runtime_error, s) else elim s.surroundings.candump [
    | none ↦ (ok tt, start_threads direction s.has_candump_writer s)
    | some opened ↦ elim opened [
      | raise e ↦ (raise e, record s { running = true; threads = [] })
      | ok _ ↦ (ok tt, start_threads direction true s)
    ]
  ]

  unfoldable pub stop : Server W → Server W
  unfolding wake
  stop s = if s.running then record (wake s) { running = false; has_candump_writer = false } else s
