-- ===== src/Interop/Bus.antt =====
-- src/sockcan/interop.py: `UserspaceSocketcanBus`, with its socket, its filters and its framing.
use sockcan.Prelude.{
  ℕ, zero, suc, List, [], ◌∷◌, Bool, true, false, ◌==◌, ◌||◌, ◌&&◌, not, if◌then◌else◌,
}
use sockcan.Prelude.{Option, none, some, Result, ok, raise, call_then, Text, Exception}
use sockcan.Prelude.{runtime_error, os_error, dict_get, dict_set}
use sockcan.Filters.{CanFilter, FilterSpec, no_filters, filter_list, matches_filters}
use sockcan.Backlog.{Frame}
use sockcan.Wire.{CanMessage}
use sockcan.Server.{Server, subscribe}
use sockcan.Receive.{connection_refused_errno}
use sockcan.Client.{connect_socketcan_client}
use sockcan.Interop.{Interop, ServerMode, local_mode, daemon_mode, BusParameters}
use sockcan.Interop.Override.{userspace_class, register_backend}
use sockcan.Interop.Activation.{init_daemon}

-- `fd` is the socket.
pub record UserspaceSocketcanBus : Type 0 where
  pub fd : ℕ
  pub can_filters : List CanFilter
  pub is_stream : Bool

-- `set_filters`: None is no filters.
unfoldable pub set_filters : Option (List CanFilter) → UserspaceSocketcanBus → UserspaceSocketcanBus
set_filters none bus = record bus { can_filters = [] }
set_filters (some filters) bus = record bus { can_filters = filters }

-- The property `filters`.
unfoldable pub get_filters : UserspaceSocketcanBus → Option (List CanFilter)
get_filters bus = elim bus.can_filters [ [] ↦ none | f ∷ fs ↦ some (f ∷ fs) ]

-- A message of the receive function, as `_recv` reads it: this function gives no None.
abbrev pub as_read : {W : Type 0} → Result CanMessage × W → Result (Option Frame) × W
as_read (ok m, w) = (
  ok (
      some (record {
        can_id = m.arbitration_id;
        payload = m.payload;
        is_extended = m.is_extended_id;
      })),
  w,
)
as_read (raise e, w) = (raise e, w)

module _ {W : Type 0} (base_recv : W → Result (Option Frame) × W) where
  -- What a read that was not the last one leads to; `next` is the rest of the loop.
  unfoldable pub filter_read :
      UserspaceSocketcanBus
      → (W → Option (Result (Option Frame) × W))
      → Result (Option Frame) × W
      → Option (Result (Option Frame) × W)
  filter_read bus next (raise e, w) = some (raise e, w)
  filter_read bus next (ok none, w) = some (ok none, w)
  filter_read bus next (ok (some msg), w) =
      if matches_filters bus.can_filters msg.can_id msg.is_extended
      then some (ok (some msg), w)
      else next w

  -- `_recv`, with fuel for its reads; `base_recv` has the timeout.
  unfoldable pub bus_recv : ℕ → UserspaceSocketcanBus → W → Option (Result (Option Frame) × W)
  unfolding filter_read
  bus_recv zero bus w = none
  bus_recv (suc fuel) bus w = filter_read bus (bus_recv fuel bus) (base_recv w)

-- `list(filters) if filters else None`, for a server and for a daemon.
unfoldable pub filter_spec : Option (List CanFilter) → FilterSpec
filter_spec (some (f ∷ fs)) = filter_list (f ∷ fs)
filter_spec _ = no_filters

unfoldable pub daemon_filters : Option (List CanFilter) → Option (List CanFilter)
daemon_filters (some (f ∷ fs)) = some (f ∷ fs)
daemon_filters _ = none

abbrev pub is_daemon_mode : ServerMode → Bool
is_daemon_mode daemon_mode = true
is_daemon_mode local_mode = false

-- `except ConnectionRefusedError`, which becomes a RuntimeError.
unfoldable pub refused : Exception → Exception
refused (os_error (some n)) =
    if n == connection_refused_errno then runtime_error else os_error (some n)
refused e = e

module _ {W H E : Type 0} (connect : Text → ℕ → E → Result (Unit {0}) × E)
    (sendall : Text → E → Result (Unit {0}) × E) (recv : ℕ → E → Result Text × E)
    (json_dumps : List CanFilter → Text) (quote : Text → Text) (text_of : ℕ → Text)
    (has_af_unix is_windows : Bool) where
  unfoldable pub subscribe_local :
      ℕ
      → ℕ
      → Option (List CanFilter)
      → Interop W H E
      → Option (Server W)
      → Result (Unit {0}) × Interop W H E
  unfolding subscribe filter_spec
  subscribe_local fd channel filters s none = (raise runtime_error, s)
  subscribe_local fd channel filters s (some target_server) =
      let (r, server') =
        subscribe fd (is_windows && not has_af_unix) (filter_spec filters) target_server in
      (r, record s { local_servers = dict_set channel server' s.local_servers })

  unfoldable pub connected :
      Interop W H E → Result (Unit {0}) × E → Result (Unit {0}) × Interop W H E
  unfolding refused
  connected s (ok _, e) = (ok tt, record s { world = e })
  connected s (raise x, e) = (raise (refused x), record s { world = e })

  -- `_get_socket`, by the global configuration; `fd` is the number of the new socket.
  unfoldable pub get_socket :
      ℕ → ℕ → Option (List CanFilter) → Interop W H E → Result (Unit {0}) × Interop W H E
  unfolding subscribe_local connected daemon_filters connect_socketcan_client
  get_socket fd channel filters s =
      let c = s.configs s.global_config in
      if is_daemon_mode c.mode
      then connected s (
          connect_socketcan_client connect sendall recv json_dumps quote c.host c.port
            (text_of channel) (daemon_filters filters) s.world)
      else subscribe_local fd channel filters s (dict_get channel s.local_servers)

  -- `__init__` without a socket of the caller's.
  unfoldable pub open_userspace_bus :
      ℕ → ℕ → Option (List CanFilter) → Interop W H E → Result UserspaceSocketcanBus × Interop W H E
  unfolding get_socket set_filters
  open_userspace_bus fd channel filters s = call_then (get_socket fd channel filters s) (λ _ t. (
    ok (
        set_filters filters (record {
          fd = fd;
          can_filters = [];
          is_stream = is_daemon_mode (t.configs t.global_config).mode || not has_af_unix;
        })),
    t,
  ))

  module _ (open_bus : BusParameters → E → Result W × E) (virtual_world : W) (is_alive : H → Bool)
      (serve_forever : H → H) (bind : Text → ℕ → E → Result (ℕ × H) × E) (int : ℕ → Result ℕ)
      (env_port : Option ℕ) where
    -- `_create_deferred_userspace_socketcan_bus`
    unfoldable pub open_deferred_bus :
        List BusParameters
        → ℕ
        → ℕ
        → ℕ
        → Option (List CanFilter)
        → Interop W H E
        → Result UserspaceSocketcanBus × Interop W H E
    unfolding init_daemon register_backend open_userspace_bus
    open_deferred_bus parameters config fd channel filters s =
        call_then
          (init_daemon open_bus virtual_world is_alive serve_forever bind int env_port parameters
            config s)
          (λ _ t. open_userspace_bus fd channel filters (register_backend userspace_class t).1)
