-- ===== src/Threads.antt =====
-- The threads of the server at the grain of whole handlers: the RX thread reaps and dispatches, the
-- TX thread handles one event at a time, callers register consumers, start and stop, and the
-- surroundings change how the calls of a registration end. (The grain
-- below, inside two handlers, is in Race.)
pub mod Served
pub mod Sound
pub mod Virtual
pub mod Rounds
pub mod Sample
mod Examples
use sockcan.Prelude.{ℕ, List, [], ◌∷◌, Bool, true, false, ◌||◌, ◌≡◌, none, Result, ok, raise}
use sockcan.Filters.{Consumer, FilterSpec}
use sockcan.Backlog.{Frame, fresh_io}
use sockcan.Server.{Surroundings, willing}
use sockcan.Server.{Server, Direction, ThreadKind, rx_thread, tx_thread, listen_to, start, stop}
use sockcan.Receive.{reap, dispatch}
use sockcan.Transmit.{on_read, on_write}

-- Whether a thread of the kind is among those that `start` made.
abbrev pub is_rx : ThreadKind → Bool
is_rx rx_thread = true
is_rx tx_thread = false

unfoldable pub has_rx : List ThreadKind → Bool
has_rx [] = false
has_rx (t ∷ ts) = is_rx t || has_rx ts

-- A server as `__init__` makes it, over a bus or virtual. Its surroundings raise nothing so far.
abbrev pub init : {W : Type 0} → Bool → Bool → W → Server W
init has_bus use_stream w = record {
  consumers = [];
  known = λ _. false;
  io = λ _. fresh_io;
  selector = λ _. none;
  dead_consumer_fds = [];
  closed_connections = [];
  wakeups = 0;
  bus_filters = none;
  has_bus = has_bus;
  use_stream = use_stream;
  running = false;
  threads = [];
  has_candump_writer = false;
  surroundings = willing;
  world = w;
}

module _ {W : Type 0} (send : ℕ → Frame → W → Result (Unit {0}) × W)
    (recv : ℕ → W → Result Frame × W) (bus_send : Frame → W → Result (Unit {0}) × W) where
  -- A handler that raises ends its thread, and the state that it leaves is a state all the same.
  pub data Step (s : Server W) : Server W → Type 0 where
    listens :
        (fd : ℕ) (is_dgram : Bool) (spec : FilterSpec) (force : Bool)
        → Step s (listen_to fd is_dgram spec force s).1
    surrounded : (x : Surroundings) → Step s (record s { surroundings = x })
    starts : (d : Direction) → Step s (start d s).1
    stops : Step s (stop s)
    reaps : has_rx s.threads ≡ true → Step s (reap s).1
    dispatches : (f : Frame) → has_rx s.threads ≡ true → Step s (dispatch send s.consumers f s).1
    reads : (fd : ℕ) → Step s (on_read send recv bus_send fd s).1
    writes : (fd : ℕ) → Step s (on_write send fd s).1

  pub data Reach (s : Server W) : Server W → Type 0 where
    here : Reach s s
    next : {t u : Server W} → Reach s t → Step t u → Reach s u
