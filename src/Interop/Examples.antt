-- ===== src/Interop/Examples.antt =====
-- The activation and the bus on a computer where two buses can be opened, and the third cannot.
use sockcan.Prelude.{
  Exception, ℕ, ◌+◌, List, [], ◌∷◌, ◌≡◌, refl, arith, Bool, true, false, ◌==◌, if◌then◌else◌,
}
use sockcan.Prelude.{
  Option, none, some, take, drop, ◌++◌, Result, ok, raise, runtime_error, os_error,
}
use sockcan.Prelude.{Text, codes, All, dict_get, dict_set}
use sockcan.Backlog.{Frame}
use sockcan.Bytes.{Bytes, little, unpack_word, le_value}
use sockcan.Wire.{decode_frame}
use sockcan.Stream.{socketcan_recv_stream, recv_frame, frame_from, decode_received}
use sockcan.Interop.{Interop, BusParameters, SocketcanDaemonConfig, daemon_mode}
use sockcan.Interop.{other_backend, other_system}
use sockcan.Interop.Activation.{start_local, start_all_local, activate_userspace_socketcan}
use sockcan.Interop.Activated.{HasServer, start_all_local-outcome}
use sockcan.Interop.Entry.{Activates, activate_userspace_socketcan-Activates}
use sockcan.Filters.{CanFilter, matches_filters}
use sockcan.Interop.Bus.{
  UserspaceSocketcanBus, as_read, bus_recv, open_deferred_bus, open_userspace_bus,
}
use sockcan.Interop.Deferred.{Begins, open_deferred_bus-Begins}
use sockcan.Interop.Reading.{Gives, Receives, first_match, bus_recv-first_match}

-- A computer counts the buses that it has opened; a bus has its number.
abbrev open_bus : BusParameters → ℕ → Result ℕ × ℕ
open_bus params n = if params.channel == 2 then (raise (os_error none), n) else (ok n, n + 1)

abbrev bus_of : ℕ → BusParameters
bus_of channel = record { channel = channel; interface = 0; bitrate = 500000; virtual = false }

abbrev config : SocketcanDaemonConfig
config = record {
  mode = daemon_mode;
  allow_run_daemon_locally = true;
  host = codes "localhost";
  port = 8000;
  linux_too = false;
  use_native_timestamps = false;
}

abbrev State : Type 0
State = Interop ℕ Bool ℕ

abbrev fresh_state : State
fresh_state = record {
  configs = λ k. config;
  global_config = 0;
  local_servers = [];
  backend = some (other_backend 7);
  deferred = none;
  daemons = [];
  world = 0;
}

abbrev buses : List BusParameters
buses = bus_of 0 ∷ bus_of 2 ∷ []

-- The second bus cannot be opened.
half_done : (start_all_local open_bus buses fresh_state).0 ≡ raise (os_error none)
unfolding start_all_local start_local dict_get dict_set
half_done = refl

start_all_local-outcome_example :
    ((start_all_local open_bus buses fresh_state).0 ≡ ok tt
      → All (HasServer (start_all_local open_bus buses fresh_state).1) buses)
    × ((t : State) (x : Exception)
        → (start_local open_bus (bus_of 0) fresh_state).0 ≡ ok tt
        → start_all_local open_bus buses fresh_state ≡ (raise x, t)
        → start_all_local open_bus buses t ≡ (raise runtime_error, t))
start_all_local-outcome_example =
    start_all_local-outcome open_bus (bus_of 0) (bus_of 2 ∷ []) fresh_state

-- No daemon replies, and the HTTP server gets its port.
abbrev connect : Text → ℕ → ℕ → Result (Unit {0}) × ℕ
connect host port n = (raise (os_error (some 111)), n)

abbrev sendall : Text → ℕ → Result (Unit {0}) × ℕ
sendall request n = (ok tt, n)

abbrev recv : ℕ → ℕ → Result Text × ℕ
recv size n = (ok [], n)

abbrev bind : Text → ℕ → ℕ → Result (ℕ × Bool) × ℕ
bind host port n = (ok (port, false), n)

activate_userspace_socketcan-Activates_example : Activates fresh_state (
    activate_userspace_socketcan open_bus 0
      (λ h. h)
      (λ h. true)
      bind
      (λ t. ok t)
      none
      connect
      sendall
      recv
      (bus_of 0 ∷ bus_of 2 ∷ [])
      none
      other_system
      false
      fresh_state)
activate_userspace_socketcan-Activates_example =
    activate_userspace_socketcan-Activates open_bus 0 (λ h. h) (λ h. true) bind (λ t. ok t) none
      connect sendall recv (bus_of 0 ∷ bus_of 2 ∷ []) none other_system false fresh_state

-- The bus itself is refused, but the daemon runs.
open_deferred_bus-Begins_example :
    let opened =
      open_deferred_bus connect sendall recv
        (λ fs. [])
        (λ t. t)
        (λ k. [])
        true
        false
        open_bus
        0
        (λ h. h)
        (λ h. true)
        bind
        (λ t. ok t)
        none
        (bus_of 0 ∷ [])
        0
        3
        0
        none
        fresh_state in
    Begins connect sendall recv
      (λ fs. [])
      (λ t. t)
      (λ k. [])
      true
      false
      open_bus
      0
      (λ h. h)
      (λ h. true)
      bind
      (λ t. ok t)
      none
      (bus_of 0 ∷ [])
      0
      fresh_state
      opened
    × ((fd' channel' : ℕ) (filters' : Option (List CanFilter)) (t : State)
        → (open_userspace_bus connect sendall recv
            (λ fs. [])
            (λ x. x)
            (λ k. [])
            true
            false
            fd'
            channel'
            filters'
            t).1.daemons
          ≡ t.daemons)
open_deferred_bus-Begins_example =
    open_deferred_bus-Begins connect sendall recv (λ fs. []) (λ t. t) (λ k. []) true false open_bus
      0 (λ h. h) (λ h. true) bind (λ t. ok t) none (bus_of 0 ∷ []) 0 fresh_state 3 0 none

-- A stream that holds these bytes, which the other side has closed.
abbrev stream_recv : ℕ → Bytes → Result Bytes × Bytes
stream_recv n w = (ok (take n w), drop n w)

-- The receive function of a bus on this stream.
abbrev read_stream : Bytes → Result (Option Frame) × Bytes
read_stream w = as_read (socketcan_recv_stream stream_recv (os_error none) little (λ s. 0) w)

-- A frame with one byte of data.
abbrev frame_with : ℕ → ℕ → Bytes
frame_with low value = low ∷ 1 ∷ 0 ∷ 0 ∷ 1 ∷ 0 ∷ 0 ∷ 0 ∷ value ∷ 0 ∷ 0 ∷ 0 ∷ 0 ∷ 0 ∷ 0 ∷ 0 ∷ []

abbrev frame_of : ℕ → ℕ → Frame
frame_of low value = record { can_id = 0x100 + low; payload = value ∷ []; is_extended = false }

abbrev only_0x101 : UserspaceSocketcanBus
only_0x101 = record {
  fd = 3;
  can_filters = record { can_id = 0x101; can_mask = 0x7FF; extended = none } ∷ [];
  is_stream = true;
}

abbrev waiting : List Frame
waiting = frame_of 0x23 1 ∷ frame_of 1 2 ∷ frame_of 0x23 3 ∷ []

abbrev received : Bytes
received = frame_with 0x23 1 ++ (frame_with 1 2 ++ frame_with 0x23 3)

abbrev closed : Result (Option Frame) × Bytes
closed = (raise (os_error none), [])

read_stream-Gives : Gives read_stream closed waiting received
unfolding socketcan_recv_stream recv_frame frame_from decode_received decode_frame unpack_word
    le_value
read_stream-Gives =
    (frame_with 1 2 ++ frame_with 0x23 3, refl, (frame_with 0x23 3, refl, ([], refl, refl)))

bus_recv-first_match_example :
    Receives read_stream closed
      (first_match only_0x101.can_filters waiting)
      (bus_recv read_stream 4 only_0x101 received)
bus_recv-first_match_example =
    bus_recv-first_match read_stream closed 4 only_0x101 waiting received tt read_stream-Gives
      (omega arith)

-- The frame that the call gives.
second_frame :
    first_match only_0x101.can_filters waiting ≡ (some (frame_of 1 2), frame_of 0x23 3 ∷ [])
unfolding first_match matches_filters
second_frame = refl
