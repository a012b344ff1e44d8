-- ===== src/Interop/Fast.antt =====
-- src/sockcan/interop.py: `FastSocketcanBus`, a bus on a raw CAN socket of the kernel, and the closing of
-- both kinds of buses.
use sockcan.Prelude.{
  ℕ, List, [], ◌∷◌, true, false, Option, none, some, Result, ok, raise, call_then,
}
use sockcan.Filters.{CanFilter}
use sockcan.Bytes.{Bytes, ByteOrder}
use sockcan.Wire.{CanMessage}
use sockcan.Stream.{Call}
use sockcan.Stream.Build.{build_recv_func, build_msg_send_func}
use sockcan.Sockets.Loopback.{connect_to_socketcan, for_other_socks}
use sockcan.Interop.Bus.{UserspaceSocketcanBus}

-- `send` and `recv` are the functions that were built for the socket.
pub record FastSocketcanBus (W : Type 0) : Type 0 where
  pub socket : ℕ
  pub can_filters : List CanFilter
  pub send : CanMessage → Call W (Unit {0})
  pub recv : Call W CanMessage

-- `list(can_filters or [])`
abbrev pub filters_or_none : Option (List CanFilter) → List CanFilter
filters_or_none none = []
filters_or_none (some filters) = filters

module _ {W : Type 0} where
  -- The filters are kept, and nothing else.
  unfoldable pub set_fast_filters :
      Option (List CanFilter) → FastSocketcanBus W → FastSocketcanBus W
  set_fast_filters filters bus = record bus { can_filters = filters_or_none filters }

  -- The property `filters`.
  unfoldable pub get_fast_filters : FastSocketcanBus W → Option (List CanFilter)
  get_fast_filters bus = elim bus.can_filters [ [] ↦ none | f ∷ fs ↦ some (f ∷ fs) ]

  -- `__exit__`
  unfoldable pub exit_fast_bus : (ℕ → W → W) → FastSocketcanBus W → W → W
  exit_fast_bus close bus w = close bus.socket w

  -- `shutdown`, and the same `__exit__`.
  unfoldable pub shutdown_userspace_bus : (ℕ → W → W) → UserspaceSocketcanBus → W → W
  shutdown_userspace_bus close bus w = close bus.fd w

module _ {W : Type 0} (sol_socket : ℕ) (socket : W → Result ℕ × W)
    (setsockopt : ℕ → ℕ → ℕ → ℕ → W → Result (Unit {0}) × W)
    (bind : ℕ → ℕ → W → Result (Unit {0}) × W) (recv : ℕ → ℕ → Call W Bytes)
    (recvmsg : Option (ℕ → ℕ → ℕ → Call W (Bytes × List Bytes))) (send : ℕ → Bytes → Call W ℕ)
    (timestamp_unpack : Bytes → Result (ℕ × ℕ)) (received_ancillary_buf_size : ℕ) (o : ByteOrder)
    (time_fn : W → ℕ) where
  -- `fd.recvmsg`, if the system has it.
  abbrev recvmsg_of :
      ℕ
      → Option (ℕ → ℕ → ℕ → Call W (Bytes × List Bytes))
      → Option (ℕ → ℕ → Call W (Bytes × List Bytes))
  recvmsg_of fd none = none
  recvmsg_of fd (some f) = some (f fd)

  -- The bus once its socket is there: where the receive function cannot be built, the socket is left
  -- open.
  unfoldable pub built_fast_bus :
      ℕ → Option (List CanFilter) → Result (Call W CanMessage) → W → Result (FastSocketcanBus W) × W
  unfolding build_msg_send_func
  built_fast_bus fd can_filters (raise e) w = (raise e, w)
  built_fast_bus fd can_filters (ok recv_fn) w = (
    ok (record {
      socket = fd;
      can_filters = filters_or_none can_filters;
      send = build_msg_send_func (send fd) o false;
      recv = recv_fn;
    }),
    w,
  )

  -- `__init__`, with the default loopback of a configuration and native timestamps.
  unfoldable pub open_fast_bus : ℕ → Option (List CanFilter) → W → Result (FastSocketcanBus W) × W
  unfolding connect_to_socketcan build_recv_func built_fast_bus
  open_fast_bus channel can_filters w =
      call_then
        (connect_to_socketcan sol_socket socket setsockopt bind
          (record { channel = channel; loopback = for_other_socks }) w)
        (λ fd w'.
          built_fast_bus fd can_filters
            (build_recv_func (recv fd) (recvmsg_of fd recvmsg) timestamp_unpack
              received_ancillary_buf_size o time_fn true false)
            w')
