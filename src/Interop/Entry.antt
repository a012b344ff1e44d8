-- ===== src/Interop/Entry.antt =====
-- What an activation does to python-can's entry for socketcan.
use sockcan.Prelude.{ℕ, List, [], ◌∷◌, ◌≡◌, ◌⊎◌, inl, inr, refl, ◌∙◌, arith, Bool, true, false}
use sockcan.Prelude.{not, ◌&&◌, Option, some, Text}
use sockcan.Prelude.{runtime_error, Result, ok, raise, and_then, and_then-keeps, if-keeps}
use sockcan.Server.{update}
use sockcan.Daemon.Life.{SocketcanDaemon, resolve_port}
use sockcan.Interop.{Interop, BusParameters, ServerMode, local_mode, daemon_mode, System}
use sockcan.Interop.{sockcan_interop, userspace_socketcan_bus, deferred_userspace_socketcan_bus}
use sockcan.Interop.Override.{register_backend, userspace_class}
use sockcan.Interop.Activation.{init_global_server, add_local_server, start_local, start_all_local}
use sockcan.Interop.Activation.{
  run_daemon, keep_daemon, register_all, register_and_run, init_daemon, own_daemon, find_daemon,
}
use sockcan.Interop.Activation.{
  after_find, activate_daemon, activate_mode, activate_userspace_socketcan,
}
use sockcan.Interop.Activation.{config_or, is_linux, is_windows}

module _ {W H E : Type 0} where
  -- The entry of python-can and the deferred factory are as they were.
  abbrev pub SameEntry : Interop W H E → Interop W H E → Type 0
  SameEntry s t = (t.backend ≡ s.backend) × (t.deferred ≡ s.deferred)

  -- Either the activation raises, and python-can keeps its entry, or the entry is one of this
  -- module's.
  unfoldable pub Activates : Interop W H E → Result (Unit {0}) × Interop W H E → Type 0
  Activates s (raise x, t) = SameEntry s t
  Activates s (ok u, t) =
      (t.backend ≡ some (sockcan_interop userspace_socketcan_bus))
      ⊎ (t.backend ≡ some (sockcan_interop deferred_userspace_socketcan_bus))

  -- `Activates` looks at the entry and the factory only.
  moved :
      (s s' : Interop W H E) (r : Result (Unit {0}) × Interop W H E)
      → SameEntry s' s
      → Activates s r
      → Activates s' r
  unfolding Activates
  moved s s' (ok u, t) same h = h
  moved s s' (raise x, t) same h = (h.0 ∙ same.0, h.1 ∙ same.1)

  add_local_server-SameEntry :
      (k : ℕ) (s : Interop W H E) (r : Result _ × E) → SameEntry s (add_local_server k s r).1
  unfolding add_local_server
  add_local_server-SameEntry k s (ok v, e) = (refl, refl)
  add_local_server-SameEntry k s (raise x, e) = (refl, refl)

  module _ (open_bus : BusParameters → E → Result W × E) where
    start_local-SameEntry :
        (p : BusParameters) (s : Interop W H E) → SameEntry s (start_local open_bus p s).1
    unfolding start_local
    start_local-SameEntry p s =
        ground
          (arith, add_local_server-SameEntry p.channel s (init_global_server open_bus p s.world))

    start_all_local-SameEntry :
        (ps : List BusParameters) (s u : Interop W H E)
        → SameEntry u s
        → SameEntry u (start_all_local open_bus ps s).1
    unfolding start_all_local
    start_all_local-SameEntry [] s u same = same
    start_all_local-SameEntry (p ∷ ps) s u same =
        let first = start_local-SameEntry p s in
        and_then-keeps (SameEntry u) (start_local open_bus p s) (start_all_local open_bus ps)
          (first.0 ∙ same.0, first.1 ∙ same.1) (λ t h. start_all_local-SameEntry ps t u h)

    module _ (virtual_world : W) (is_alive : H → Bool) (serve_forever : H → H)
        (bind : Text → ℕ → E → Result (ℕ × H) × E) (int : ℕ → Result ℕ) (env_port : Option ℕ) where
      run_daemon-SameEntry :
          (s : Interop W H E) (r : Result (SocketcanDaemon W H) × E)
          → SameEntry s
              (run_daemon open_bus virtual_world is_alive serve_forever bind int env_port s r).1
      unfolding run_daemon keep_daemon
      run_daemon-SameEntry s (raise x, e) = (refl, refl)
      run_daemon-SameEntry s (ok d, e) = ground arith

      pub register_and_run-SameEntry :
          (ps : List BusParameters) (k : ℕ) (s : Interop W H E)
          (r : Result (ℕ × SocketcanDaemon W H) × E)
          → SameEntry s
              (register_and_run open_bus virtual_world is_alive serve_forever bind int env_port ps k
                s r).1
      unfolding register_and_run
      register_and_run-SameEntry ps k s (raise x, e) = (refl, refl)
      register_and_run-SameEntry ps k s (ok (port, d), e) =
          run_daemon-SameEntry
            (record s { configs = update s.configs k (record (s.configs k) { port = port }) })
            (register_all open_bus virtual_world is_alive serve_forever bind int env_port ps d e)

      by_registration :
          (s : Interop W H E) (x : Result (Unit {0}) × Interop W H E)
          → SameEntry s x.1
          → Activates s (and_then x (λ t. (ok tt, (register_backend userspace_class t).1)))
      unfolding Activates register_backend
      by_registration s (ok u, t) h = inl refl
      by_registration s (raise x, t) h = h

      own_daemon-Activates :
          (ps : List BusParameters) (k : ℕ) (defer : Bool) (s : Interop W H E)
          → Activates s (
              own_daemon open_bus virtual_world is_alive serve_forever bind int env_port ps k defer
                s)
      unfolding own_daemon Activates register_backend init_daemon
      own_daemon-Activates ps k defer s =
          if-keeps (Activates s) (not (s.configs k).allow_run_daemon_locally)
            (raise runtime_error, s) _ (refl, refl)
            (if-keeps (Activates s) defer _ _ (inr refl) (
              by_registration s
                (init_daemon open_bus virtual_world is_alive serve_forever bind int env_port ps k s)
                (register_and_run-SameEntry ps k s _)))

      module _ (connect : Text → ℕ → E → Result (Unit {0}) × E)
          (sendall : Text → E → Result (Unit {0}) × E) (recv : ℕ → E → Result Text × E) where
        after_find-Activates :
            (ps : List BusParameters) (k : ℕ) (defer : Bool) (s : Interop W H E)
            (r : Result Bool × E)
            → Activates s (
                after_find open_bus virtual_world is_alive serve_forever bind int env_port connect
                  sendall recv ps k defer s r)
        unfolding after_find Activates register_backend
        after_find-Activates ps k defer s (raise x, e) = (refl, refl)
        after_find-Activates ps k defer s (ok true, e) = inl refl
        after_find-Activates ps k defer s (ok false, e) =
            let s' = record s { world = e } in
            moved s' s _ (refl, refl) (own_daemon-Activates ps k defer s')

        activate_daemon-Activates :
            (ps : List BusParameters) (k : ℕ) (defer : Bool) (s : Interop W H E) (r : Result ℕ)
            → Activates s (
                activate_daemon open_bus virtual_world is_alive serve_forever bind int env_port
                  connect sendall recv ps k defer s r)
        unfolding activate_daemon Activates
        activate_daemon-Activates ps k defer s (raise x) = (refl, refl)
        activate_daemon-Activates ps k defer s (ok port) =
            let c = record (s.configs k) { port = port } in
            let s' = record s { configs = update s.configs k c } in
            moved s' s _ (refl, refl)
              (after_find-Activates ps k defer s' (
                find_daemon open_bus virtual_world is_alive serve_forever bind int env_port connect
                  sendall recv c s.world))

        activate_mode-Activates :
            (mode : ServerMode) (ps : List BusParameters) (k : ℕ) (defer : Bool) (s : Interop W H E)
            → Activates s (
                activate_mode open_bus virtual_world is_alive serve_forever bind int env_port
                  connect sendall recv mode ps k defer s)
        unfolding activate_mode
        activate_mode-Activates local_mode ps k defer s =
            by_registration s (start_all_local open_bus ps s)
              (start_all_local-SameEntry ps s s (refl, refl))
        activate_mode-Activates daemon_mode ps k defer s =
            activate_daemon-Activates ps k defer s (resolve_port int env_port (s.configs k).port)

        -- Whatever the mode, the system, the buses and the network do: an activation that raises
        -- leaves python-can's entry for socketcan, and the deferred factory, as they were; one that
        -- does not raise has made the entry one of this module's two userspace backends.
        pub activate_userspace_socketcan-Activates :
            (ps : List BusParameters) (config : Option ℕ) (system : System) (defer : Bool)
            (s : Interop W H E)
            → Activates s (
                activate_userspace_socketcan open_bus virtual_world is_alive serve_forever bind int
                  env_port connect sendall recv ps config system defer s)
        unfolding activate_userspace_socketcan Activates
        activate_userspace_socketcan-Activates ps config system defer s =
            let k = config_or config s.global_config in
            let s' = record s { global_config = k } in
            if-keeps (Activates s) (is_linux system && not (s.configs k).linux_too) _ _ (refl, refl)
              (if-keeps (Activates s) (is_windows system && (s.configs k).use_native_timestamps) _ _
                (refl, refl)
                (moved s' s _ (refl, refl)
                  (activate_mode-Activates (s.configs k).mode ps k defer s')))
