-- ===== src/Interop/Activation.antt =====
-- src/sockcan/interop.py: `activate_userspace_socketcan`, with a server in this process or a daemon,
-- which is started at once or by the first connection. The buses, the HTTP server and the sockets are
-- parameters.
use sockcan.Prelude.{ℕ, List, [], ◌∷◌, ◌++◌, Bool, true, false, not, ◌&&◌, ◌==◌, if◌then◌else◌}
use sockcan.Prelude.{Option, none, some, Result, ok, raise, and_then, call_then, Text}
use sockcan.Prelude.{runtime_error, value_error, dict_get, dict_set}
use sockcan.Server.{Server, bidirectional, start, update}
use sockcan.Threads.{init}
use sockcan.Daemon.Life.{SocketcanDaemon, resolve_port, register_virtual_bus, register_bus}
use sockcan.Daemon.Life.{start_daemon, new_daemon}
use sockcan.Client.{ping_daemon}
use sockcan.Interop.{ServerMode, local_mode, daemon_mode, System, linux, windows}
use sockcan.Interop.{BusParameters, SocketcanDaemonConfig, Interop}
use sockcan.Interop.Override.{userspace_class, deferred_factory, register_backend}

abbrev pub is_linux : System → Bool
is_linux linux = true
is_linux _ = false

abbrev pub is_windows : System → Bool
is_windows windows = true
is_windows _ = false

-- `config or _global_config`
abbrev pub config_or : Option ℕ → ℕ → ℕ
config_or none k = k
config_or (some config) k = config

abbrev pub is_none : {A : Type 0} → Option A → Bool
is_none none = true
is_none (some a) = false

module _ {W E : Type 0} (open_bus : BusParameters → E → Result W × E) where
  -- `_init_global_server`
  unfoldable pub init_global_server : BusParameters → E → Result (Server W) × E
  unfolding start
  init_global_server params e =
      call_then (open_bus params e) (λ w e'. (ok (start bidirectional (init true false w)).1, e'))

module _ {W H E : Type 0} where
  unfoldable pub add_local_server :
      ℕ → Interop W H E → Result (Server W) × E → Result (Unit {0}) × Interop W H E
  add_local_server channel s (raise x, e) = (raise x, record s { world = e })
  add_local_server channel s (ok server, e) =
      (ok tt, record s { world = e; local_servers = dict_set channel server s.local_servers })

module _ {W H E : Type 0} (open_bus : BusParameters → E → Result W × E) where
  -- One round of the loop of the local mode.
  unfoldable pub start_local : BusParameters → Interop W H E → Result (Unit {0}) × Interop W H E
  unfolding init_global_server add_local_server
  start_local params s =
      if is_none (dict_get params.channel s.local_servers)
      then add_local_server params.channel s (init_global_server open_bus params s.world)
      else (raise runtime_error, s)

  unfoldable pub start_all_local :
      List BusParameters → Interop W H E → Result (Unit {0}) × Interop W H E
  unfolding start_local
  start_all_local [] s = (ok tt, s)
  start_all_local (params ∷ parameters) s =
      and_then (start_local params s) (start_all_local parameters)

  module _ (virtual_world : W) (is_alive : H → Bool) (serve_forever : H → H)
      (bind : Text → ℕ → E → Result (ℕ × H) × E) (int : ℕ → Result ℕ) (env_port : Option ℕ) where
    unfoldable pub register_one :
        BusParameters → SocketcanDaemon W H → E → (Result (Unit {0}) × SocketcanDaemon W H) × E
    unfolding register_virtual_bus register_bus
    register_one params d e =
        if params.virtual
        then (register_virtual_bus is_alive virtual_world params.channel d, e)
        else (let (opened, e') = open_bus params e in
            (register_bus is_alive opened params.channel d, e'))

    -- The rest of the loop after a registration: an exception ends it.
    unfoldable pub register_next :
        (SocketcanDaemon W H → E → Result (SocketcanDaemon W H) × E)
        → (Result (Unit {0}) × SocketcanDaemon W H) × E
        → Result (SocketcanDaemon W H) × E
    register_next later ((raise x, d), e) = (raise x, e)
    register_next later ((ok _, d), e) = later d e

    unfoldable pub register_all :
        List BusParameters → SocketcanDaemon W H → E → Result (SocketcanDaemon W H) × E
    unfolding register_one register_next
    register_all [] d e = (ok d, e)
    register_all (params ∷ parameters) d e =
        register_next (register_all parameters) (register_one params d e)

    -- `atexit.register(daemon.stop)`, once it has started: `daemons` are those that are stopped at exit.
    unfoldable pub keep_daemon :
        Interop W H E
        → E
        → Result (Unit {0}) × SocketcanDaemon W H
        → Result (Unit {0}) × Interop W H E
    keep_daemon s e (raise x, d) = (raise x, record s { world = e })
    keep_daemon s e (ok _, d) = (ok tt, record s { world = e; daemons = s.daemons ++ (d ∷ []) })

    -- The end of `_init_daemon`: the daemon is started.
    unfoldable pub run_daemon :
        Interop W H E → Result (SocketcanDaemon W H) × E → Result (Unit {0}) × Interop W H E
    unfolding start_daemon keep_daemon
    run_daemon s (raise x, e) = (raise x, record s { world = e })
    run_daemon s (ok d, e) = keep_daemon s e (start_daemon serve_forever d)

    -- `config.port = daemon.port`, and what follows.
    unfoldable pub register_and_run :
        List BusParameters
        → ℕ
        → Interop W H E
        → Result (ℕ × SocketcanDaemon W H) × E
        → Result (Unit {0}) × Interop W H E
    unfolding register_all run_daemon
    register_and_run parameters config s (raise x, e) = (raise x, record s { world = e })
    register_and_run parameters config s (ok (port, d), e) =
        run_daemon
          (record s {
            configs = update s.configs config (record (s.configs config) { port = port });
          })
          (register_all parameters d e)

    unfoldable pub init_daemon :
        List BusParameters → ℕ → Interop W H E → Result (Unit {0}) × Interop W H E
    unfolding new_daemon register_and_run resolve_port
    init_daemon parameters config s =
        let c = s.configs config in
        register_and_run parameters config s
          (new_daemon bind c.host (resolve_port int env_port c.port) s.world)

    -- Both ways to go on when no daemon replies.
    unfoldable pub own_daemon :
        List BusParameters → ℕ → Bool → Interop W H E → Result (Unit {0}) × Interop W H E
    unfolding init_daemon register_backend
    own_daemon parameters config defer s =
        if not (s.configs config).allow_run_daemon_locally
        then (raise runtime_error, s)
        else if defer
        then (ok tt, (register_backend (deferred_factory parameters config) s).1)
        else and_then (init_daemon parameters config s)
            (λ t. (ok tt, (register_backend userspace_class t).1))

    module _ (connect : Text → ℕ → E → Result (Unit {0}) × E)
        (sendall : Text → E → Result (Unit {0}) × E) (recv : ℕ → E → Result Text × E) where
      -- What the ping of a configured port gives; no port is never pinged.
      unfoldable pub find_daemon : SocketcanDaemonConfig → E → Result Bool × E
      unfolding ping_daemon
      find_daemon c e =
          if c.port == 0 then (ok false, e) else ping_daemon connect sendall recv c.host c.port e

      unfoldable pub after_find :
          List BusParameters
          → ℕ
          → Bool
          → Interop W H E
          → Result Bool × E
          → Result (Unit {0}) × Interop W H E
      unfolding own_daemon
      after_find parameters config defer s (raise x, e) = (raise x, record s { world = e })
      after_find parameters config defer s (ok true, e) =
          (ok tt, (register_backend userspace_class (record s { world = e })).1)
      after_find parameters config defer s (ok false, e) =
          own_daemon parameters config defer (record s { world = e })

      -- `_prepare_daemon_init` and the registration that follows it in `activate_userspace_socketcan`.
      unfoldable pub activate_daemon :
          List BusParameters
          → ℕ
          → Bool
          → Interop W H E
          → Result ℕ
          → Result (Unit {0}) × Interop W H E
      unfolding find_daemon after_find
      activate_daemon parameters config defer s (raise x) = (raise x, s)
      activate_daemon parameters config defer s (ok port) =
          let c = record (s.configs config) { port = port } in
          after_find parameters config defer (record s { configs = update s.configs config c })
            (find_daemon c s.world)

      unfoldable pub activate_mode :
          ServerMode
          → List BusParameters
          → ℕ
          → Bool
          → Interop W H E
          → Result (Unit {0}) × Interop W H E
      unfolding start_all_local activate_daemon resolve_port register_backend
      activate_mode local_mode parameters config defer s =
          and_then (start_all_local parameters s)
            (λ t. (ok tt, (register_backend userspace_class t).1))
      activate_mode daemon_mode parameters config defer s =
          activate_daemon parameters config defer s
            (resolve_port int env_port (s.configs config).port)

      -- `parameters` is the list that None and a single one stand for too.
      unfoldable pub activate_userspace_socketcan :
          List BusParameters
          → Option ℕ
          → System
          → Bool
          → Interop W H E
          → Result (Unit {0}) × Interop W H E
      unfolding activate_mode
      activate_userspace_socketcan parameters config system defer s =
          let k = config_or config s.global_config in
          let t = record s { global_config = k } in
          let c = s.configs k in
          if is_linux system && not c.linux_too
          then (raise runtime_error, t)
          else if is_windows system && c.use_native_timestamps
          then (raise value_error, t)
          else activate_mode c.mode parameters k defer t
