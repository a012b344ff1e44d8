-- ===== src/Interop/Deferred.antt =====
-- src/sockcan/interop.py: the first bus after a deferred activation.
use sockcan.Prelude.{ℕ, List, ◌≡◌, refl, ap, ◌∙◌, Bool, if-keeps}
use sockcan.Prelude.{
  Option, none, some, Result, ok, raise, Exception, Text, ◌⊎◌, inl, inr, call_then,
}
use sockcan.Prelude.{dict_get}
use sockcan.Filters.{CanFilter}
use sockcan.Server.{Server}
use sockcan.Interop.{Interop, BusParameters, sockcan_interop, userspace_socketcan_bus}
use sockcan.Interop.Override.{userspace_class, register_backend}
use sockcan.Interop.Activation.{init_daemon}
use sockcan.Interop.Bus.{UserspaceSocketcanBus, subscribe_local, connected, get_socket}
use sockcan.Interop.Bus.{open_userspace_bus, open_deferred_bus, is_daemon_mode}
use sockcan.Interop.Entry.{SameEntry, register_and_run-SameEntry}
use sockcan.Interop.Daemons.{OneStarted, Initializes, init_daemon-Initializes}

module _ {W H E : Type 0} (connect : Text → ℕ → E → Result (Unit {0}) × E)
    (sendall : Text → E → Result (Unit {0}) × E) (recv : ℕ → E → Result Text × E)
    (json_dumps : List CanFilter → Text) (quote : Text → Text) (text_of : ℕ → Text)
    (has_af_unix is_windows : Bool) where
  -- The daemons, the configurations and python-can's entry are as they were.
  abbrev Calm : Interop W H E → Interop W H E → Type 0
  Calm s t = (t.daemons ≡ s.daemons) × (t.configs ≡ s.configs) × (t.backend ≡ s.backend)

  connected-Calm :
      (s : Interop W H E) (r : Result (Unit {0}) × E)
      → Calm s
          (connected connect sendall recv json_dumps quote text_of has_af_unix is_windows s r).1
  unfolding connected
  connected-Calm s (ok u, e) = (refl, refl, refl)
  connected-Calm s (raise x, e) = (refl, refl, refl)

  subscribe_local-Calm :
      (fd channel : ℕ) (filters : Option (List CanFilter)) (s : Interop W H E)
      (server : Option (Server W))
      → Calm s
          (subscribe_local connect sendall recv json_dumps quote text_of has_af_unix is_windows fd
            channel filters s server).1
  unfolding subscribe_local
  subscribe_local-Calm fd channel filters s none = (refl, refl, refl)
  subscribe_local-Calm fd channel filters s (some server) = (refl, refl, refl)

  get_socket-Calm :
      (fd channel : ℕ) (filters : Option (List CanFilter)) (s : Interop W H E)
      → Calm s
          (get_socket connect sendall recv json_dumps quote text_of has_af_unix is_windows fd
            channel filters s).1
  unfolding get_socket
  get_socket-Calm fd channel filters s =
      if-keeps (λ (x : Result (Unit {0}) × Interop W H E). Calm s x.1)
        (is_daemon_mode (s.configs s.global_config).mode) _ _ (connected-Calm s _)
        (subscribe_local-Calm fd channel filters s (dict_get channel s.local_servers))

  call_then-Calm :
      {A : Type 0} (s : Interop W H E) (r : Result (Unit {0}) × Interop W H E)
      (result : Interop W H E → Result A)
      → Calm s r.1
      → Calm s (call_then r (λ _ t. (result t, t))).1
  call_then-Calm s (ok u, t) result calm = calm
  call_then-Calm s (raise x, t) result calm = calm

  open_userspace_bus-Calm :
      (fd channel : ℕ) (filters : Option (List CanFilter)) (s : Interop W H E)
      → Calm s
          (open_userspace_bus connect sendall recv json_dumps quote text_of has_af_unix is_windows
            fd channel filters s).1
  unfolding open_userspace_bus
  open_userspace_bus-Calm fd channel filters s =
      call_then-Calm s
        (get_socket connect sendall recv json_dumps quote text_of has_af_unix is_windows fd channel
          filters s)
        _ (get_socket-Calm fd channel filters s)

  module _ (open_bus : BusParameters → E → Result W × E) (virtual_world : W) (is_alive : H → Bool)
      (serve_forever : H → H) (bind : Text → ℕ → E → Result (ℕ × H) × E) (int : ℕ → Result ℕ)
      (env_port : Option ℕ) (ps : List BusParameters) (config : ℕ) (s : Interop W H E) where
    -- Nothing was started and python-can's entry is as it was; or one daemon was, and the entry is the
    -- ordinary bus class.
    abbrev pub Begins : Result UserspaceSocketcanBus × Interop W H E → Type 0
    Begins (r, t) =
        ((x : Exception) × (r ≡ raise x) × (t.daemons ≡ s.daemons) × (t.backend ≡ s.backend))
        ⊎ (OneStarted open_bus virtual_world is_alive serve_forever bind int env_port config ps s t
            × (t.backend ≡ some (sockcan_interop userspace_socketcan_bus)))

    opened-Begins :
        (fd channel : ℕ) (filters : Option (List CanFilter)) (r : Result (Unit {0}) × Interop W H E)
        → Initializes open_bus virtual_world is_alive serve_forever bind int env_port config ps s r
        → SameEntry s r.1
        → Begins (
            call_then r (λ _ t.
              open_userspace_bus connect sendall recv json_dumps quote text_of has_af_unix
                is_windows fd channel filters
                (register_backend userspace_class t).1))
    unfolding register_backend
    opened-Begins fd channel filters (raise x, t) same entry = inl (x, refl, same, entry.0)
    opened-Begins fd channel filters (ok u, t)
          (d, wanted, port, h, e, resolved, bound, configured, one, thread, runs) entry =
        let (daemons, configs, backend) =
          open_userspace_bus-Calm fd channel filters (register_backend userspace_class t).1 in
        inr (
          (
            d,
            wanted,
            port,
            h,
            e,
            resolved,
            bound,
            ap (λ c. c config) configs ∙ configured,
            daemons ∙ one,
            thread,
            runs,
          ),
          backend,
        )

    -- The first bus after a deferred activation, whatever it is and whether it can be opened or not.
    -- If no daemon could be started, the call raises, none of the daemons of this process is new, and
    -- python-can keeps its entry. Otherwise one daemon more runs, with a running server for each of
    -- the buses of the activation; the configuration has the port that it is bound to; and
    -- python-can's entry is the ordinary class, whose buses start no further daemon.
    pub open_deferred_bus-Begins :
        (fd channel : ℕ) (filters : Option (List CanFilter))
        → Begins (
            open_deferred_bus connect sendall recv json_dumps quote text_of has_af_unix is_windows
              open_bus virtual_world is_alive serve_forever bind int env_port ps config fd channel
              filters s)
          × ((fd' channel' : ℕ) (filters' : Option (List CanFilter)) (t : Interop W H E)
              → (open_userspace_bus connect sendall recv json_dumps quote text_of has_af_unix
                  is_windows fd' channel' filters' t).1.daemons
                ≡ t.daemons)
    unfolding open_deferred_bus init_daemon
    open_deferred_bus-Begins fd channel filters = (
      opened-Begins fd channel filters
          (init_daemon open_bus virtual_world is_alive serve_forever bind int env_port ps config s)
          (init_daemon-Initializes open_bus virtual_world is_alive serve_forever bind int env_port
            config ps s)
          (register_and_run-SameEntry open_bus virtual_world is_alive serve_forever bind int
            env_port ps config s _),
      λ fd' channel' filters' t. (open_userspace_bus-Calm fd' channel' filters' t).0,
    )
