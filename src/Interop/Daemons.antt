-- ===== src/Interop/Daemons.antt =====
-- src/sockcan/interop.py: the daemon that an activation, or the first bus after a deferred one, starts.
use sockcan.Prelude.{ℕ, List, [], ◌∷◌, ◌++◌, ◌≡◌, refl, arith, Bool, true, false}
use sockcan.Prelude.{==_self, if-keeps, call_then}
use sockcan.Prelude.{Option, Result, ok, raise, Text, All}
use sockcan.Server.{update}
use sockcan.Daemon.Life.{SocketcanDaemon, new_daemon, resolve_port}
use sockcan.Daemon.Channels.{HasChannel, Runs, Registers, register_virtual_bus-Registers}
use sockcan.Daemon.Channels.{register_bus-Registers, Starts, start_daemon-Starts}
use sockcan.Interop.{Interop, BusParameters}
use sockcan.Interop.Activation.{register_one, register_next, register_all, keep_daemon, run_daemon}
use sockcan.Interop.Activation.{register_and_run, init_daemon}

module _ {W H E : Type 0} (open_bus : BusParameters → E → Result W × E) (virtual_world : W)
    (is_alive : H → Bool) (serve_forever : H → H) (bind : Text → ℕ → E → Result (ℕ × H) × E)
    (int : ℕ → Result ℕ) (env_port : Option ℕ) where
  -- A daemon without channels.
  abbrev fresh : H → SocketcanDaemon W H
  fresh h = record {
    daemon = record { servers = []; replies = [] };
    httpd = h;
    has_httpd_thread = false;
  }

  abbrev HasBus : SocketcanDaemon W H → BusParameters → Type 0
  HasBus d p = HasChannel p.channel d.daemon.servers

  register_one-Registers :
      (p : BusParameters) (d : SocketcanDaemon W H) (e : E)
      → Registers is_alive p.channel d
          (register_one open_bus virtual_world is_alive serve_forever bind int env_port p d e).0
  unfolding register_one
  register_one-Registers p d e =
      if-keeps
        (λ (x : (Result (Unit {0}) × SocketcanDaemon W H) × E). Registers is_alive p.channel d x.0)
        p.virtual _ _ (register_virtual_bus-Registers is_alive virtual_world p.channel d)
        (register_bus-Registers is_alive (open_bus p e).0 p.channel d)

  -- The channels that the registrations leave.
  abbrev Registered :
      List BusParameters → SocketcanDaemon W H → Result (SocketcanDaemon W H) × E → Type 0
  Registered ps d (raise x, e) = Unit
  Registered ps d (ok d', e) =
      All (HasBus d') ps
      × ((k : ℕ) → HasChannel k d.daemon.servers → HasChannel k d'.daemon.servers)

  register_next-Registered :
      (p : BusParameters) (ps : List BusParameters) (d : SocketcanDaemon W H)
      (later : SocketcanDaemon W H → E → Result (SocketcanDaemon W H) × E)
      (x : (Result (Unit {0}) × SocketcanDaemon W H) × E)
      → Registers is_alive p.channel d x.0
      → ((d' : SocketcanDaemon W H) (e : E) → Registered ps d' (later d' e))
      → Registered
          (p ∷ ps)
          d
          (register_next open_bus virtual_world is_alive serve_forever bind int env_port later x)
  unfolding register_next
  register_next-Registered p ps d later ((raise x, d'), e) first rest = tt
  register_next-Registered p ps d later ((ok u, d'), e) (own, others) rest =
      through (later d' e) (rest d' e)
    where
      through :
          (r : Result (SocketcanDaemon W H) × E) → Registered ps d' r → Registered (p ∷ ps) d r
      through (raise x, e') h = tt
      through (ok d'', e') (all, kept) =
          ((kept p.channel own, all), λ k there. kept k (others k there))

  register_all-Registered :
      (ps : List BusParameters) (d : SocketcanDaemon W H) (e : E)
      → Registered ps d
          (register_all open_bus virtual_world is_alive serve_forever bind int env_port ps d e)
  unfolding register_all
  register_all-Registered [] d e = (tt, λ k there. there)
  register_all-Registered (p ∷ ps) d e =
      register_next-Registered p ps d _ _ (register_one-Registers p d e)
        (register_all-Registered ps)

  module _ (config : ℕ) (ps : List BusParameters) (s : Interop W H E) where
    -- One daemon more runs, with a running server for each of the buses, and the configuration has
    -- the port that it is bound to.
    abbrev pub OneStarted : Interop W H E → Type 0
    OneStarted t =
        (d : SocketcanDaemon W H) × (wanted : ℕ) × (port : ℕ) × (h : H) × (e : E) × (resolve_port
            int env_port (s.configs config).port
          ≡ ok wanted)
        × (bind (s.configs config).host wanted s.world ≡ (ok (port, h), e))
        × (t.configs config ≡ record (s.configs config) { port = port })
        × (t.daemons ≡ s.daemons ++ (d ∷ []))
        × (d.has_httpd_thread ≡ true)
        × All (λ p. Runs p.channel d.daemon.servers) ps

    abbrev pub Initializes : Result (Unit {0}) × Interop W H E → Type 0
    Initializes (raise x, t) = t.daemons ≡ s.daemons
    Initializes (ok _, t) = OneStarted t

    All-Runs :
        (d d' : SocketcanDaemon W H) (qs : List BusParameters)
        → ((k : ℕ) → HasChannel k d.daemon.servers → Runs k d'.daemon.servers)
        → All (HasBus d) qs
        → All (λ p. Runs p.channel d'.daemon.servers) qs
    All-Runs d d' [] runs all = tt
    All-Runs d d' (q ∷ qs) runs (first, rest) = (runs q.channel first, All-Runs d d' qs runs rest)

    module _ (wanted port : ℕ) (h : H) (e₀ : E)
        (resolved : resolve_port int env_port (s.configs config).port ≡ ok wanted)
        (bound : bind (s.configs config).host wanted s.world ≡ (ok (port, h), e₀)) where
      abbrev with_port : Interop W H E
      with_port = record s {
        configs = update s.configs config (record (s.configs config) { port = port });
      }

      keep_daemon-Initializes :
          (d : SocketcanDaemon W H) (e : E) (r : Result (Unit {0}) × SocketcanDaemon W H)
          → All (HasBus d) ps
          → Starts serve_forever d r
          → Initializes (
              keep_daemon open_bus virtual_world is_alive serve_forever bind int env_port with_port
                e r)
      unfolding keep_daemon
      keep_daemon-Initializes d e (raise x, d') all starts = refl
      keep_daemon-Initializes d e (ok u, d') all (thread, runs) = (
        d',
        wanted,
        port,
        h,
        e₀,
        resolved,
        bound,
        ground (arith, ==_self config),
        refl,
        thread,
        All-Runs d d' ps runs all,
      )

      run_daemon-Initializes :
          (d : SocketcanDaemon W H) (r : Result (SocketcanDaemon W H) × E)
          → Registered ps d r
          → Initializes (
              run_daemon open_bus virtual_world is_alive serve_forever bind int env_port with_port
                r)
      unfolding run_daemon
      run_daemon-Initializes d₀ (raise x, e) registered = refl
      run_daemon-Initializes d₀ (ok d, e) registered =
          keep_daemon-Initializes d e _ registered.0 (start_daemon-Starts serve_forever d)

    pub init_daemon-Initializes :
        Initializes
          (init_daemon open_bus virtual_world is_alive serve_forever bind int env_port ps config s)
    unfolding init_daemon register_and_run new_daemon
    init_daemon-Initializes = by_port (resolve_port int env_port (s.configs config).port) refl
      where
        by_bound :
            (wanted : ℕ) (b : Result (ℕ × H) × E)
            → resolve_port int env_port (s.configs config).port ≡ ok wanted
            → bind (s.configs config).host wanted s.world ≡ b
            → Initializes (
                register_and_run open_bus virtual_world is_alive serve_forever bind int env_port ps
                  config s
                  (call_then b (λ bound e'. (ok (bound.0, fresh bound.1), e'))))
        by_bound wanted (raise x, e) resolved bound = refl
        by_bound wanted (ok (port, h), e) resolved bound =
            run_daemon-Initializes wanted port h e resolved bound (fresh h)
              (register_all open_bus virtual_world is_alive serve_forever bind int env_port ps
                (fresh h) e)
              (register_all-Registered ps (fresh h) e)

        by_port :
            (q : Result ℕ)
            → resolve_port int env_port (s.configs config).port ≡ q
            → Initializes (
                register_and_run open_bus virtual_world is_alive serve_forever bind int env_port ps
                  config s
                  (new_daemon bind (s.configs config).host q s.world))
        by_port (raise x) resolved = refl
        by_port (ok wanted) resolved = by_bound wanted _ resolved refl
