-- ===== src/Daemon/Started.antt =====
-- What `start` and `stop` of the daemon do to its servers, and when a new bus can be subscribed to.
use sockcan.Prelude.{
  ℕ, ◌+◌, [], ◌∷◌, ◌++◌, ◌≡◌, refl, sym, ap, ap₂, subst, ◌∙◌, arith, Bool, true, false,
}
use sockcan.Prelude.{if◌then◌else◌, Option, none, some, ok}
use sockcan.Prelude.{assertion_error, Dict, dict_get, dict_get_own, map_values, All}
use sockcan.Prelude.{Exception, Result, raise, ◌≢◌}
use sockcan.Filters.{normalize_filters, no_filters}
use sockcan.Server.{
  Server, bidirectional, start, start_threads, stop, rx_thread, tx_thread, listen_to,
}
use sockcan.Threads.{init}
use sockcan.Daemon.{
  Library, parse_filters, waiting, failed, GetRequest, subscription, do_get, send, upgrade,
  switching_reply,
}
use sockcan.Daemon.Life.{
  SocketcanDaemon, start_servers, after_start, stop_servers, start_daemon, stop_daemon,
  after_servers, after_shutdown,
}
use sockcan.Daemon.Answers.{do_get-upgrade}
use sockcan.Daemon.Life.{is_running, put_server, register_bus, register_virtual_bus}

module _ {W : Type 0} where
  -- Its TX thread runs, and its RX thread if it has a bus. It has a candump file if there is to be one.
  unfoldable pub started : Server W → Server W
  started s = record s {
    running = true;
    has_candump_writer = elim s.surroundings.candump [
      | none ↦ s.has_candump_writer
      | some _ ↦ true
    ];
    threads = if s.has_bus then rx_thread ∷ tx_thread ∷ [] else tx_thread ∷ [];
  }

  abbrev pub IsStopped : ℕ × Server W → Type 0
  IsStopped e = e.1.running ≡ false

  -- There is no candump file to open, or it can be opened.
  abbrev pub CanTrace : ℕ × Server W → Type 0
  CanTrace e = (x : Exception) → e.1.surroundings.candump ≢ some (raise x)

  start-started :
      (s : Server W)
      → s.running ≡ false
      → ((x : Exception) → s.surroundings.candump ≢ some (raise x))
      → start bidirectional s ≡ (ok tt, started s)
  unfolding start started start_threads
  start-started s stopped traces = by_candump s.surroundings.candump refl
    where
      by_candump :
          (o : Option (Result (Unit {0})))
          → s.surroundings.candump ≡ o
          → start bidirectional s ≡ (ok tt, started s)
      by_candump none at = ground (arith, stopped, at)
      by_candump (some (ok u)) at = ground (arith, stopped, at)
      by_candump (some (raise x)) at = absurd (traces x at)

  start_servers-started :
      (servers : Dict (Server W))
      → All IsStopped servers
      → All CanTrace servers
      → start_servers servers ≡ (ok tt, map_values started servers)
  unfolding start_servers map_values after_start
  start_servers-started [] h traces = refl
  start_servers-started ((c, s) ∷ rest) h traces =
      ap₂ (after_start c rest) (start_servers-started rest h.1 traces.1)
        (start-started s h.0 traces.0)

  -- What is left of a server that was started and stopped again.
  unfoldable pub ended : (W → W) → Server W → Server W
  unfolding started
  ended bus_shutdown s = record (started s) {
    running = false;
    has_candump_writer = false;
    wakeups = s.wakeups + 1;
    world = if s.has_bus then bus_shutdown s.world else s.world;
  }

  stop_servers-started :
      (bus_shutdown : W → W) (servers : Dict (Server W))
      → stop_servers bus_shutdown (map_values started servers)
        ≡ map_values (ended bus_shutdown) servers
  unfolding stop_servers map_values stop started ended
  stop_servers-started bus_shutdown [] = refl
  stop_servers-started bus_shutdown ((c, s) ∷ rest) =
      ap₂ (λ t ts. (c, t) ∷ ts) (ground arith) (stop_servers-started bus_shutdown rest)

module _ {W H : Type 0} (serve_forever : H → H) where
  -- If no server was running before and the candump files that there are to be can be opened, every
  -- server starts, and then the HTTP thread serves. Stopping
  -- the daemon then stops every server: each was woken up once, and the buses are shut down. It
  -- comes back if `shutdown` of the serving HTTP server does.
  pub stop_daemon-start_daemon :
      (shutdown : H → Option H) (join server_close : H → H) (bus_shutdown : W → W)
      (d : SocketcanDaemon W H) (h : H)
      → All IsStopped d.daemon.servers
      → All CanTrace d.daemon.servers
      → shutdown (serve_forever d.httpd) ≡ some h
      → ((start_daemon serve_forever d).0 ≡ ok tt)
        × (stop_daemon shutdown join server_close bus_shutdown (start_daemon serve_forever d).1
            ≡ some (record d {
              httpd = server_close (join h);
              has_httpd_thread = true;
              daemon = record d.daemon {
                servers = map_values (ended bus_shutdown) d.daemon.servers;
              };
            }))
  unfolding start_daemon stop_daemon after_servers after_shutdown
  stop_daemon-start_daemon shutdown join server_close bus_shutdown d h stopped traces ends =
      let begun =
        ap (after_servers serve_forever d)
          (start_servers-started d.daemon.servers stopped traces) in
      (
        ap (λ x. x.0) begun,
        ap (λ x. stop_daemon shutdown join server_close bus_shutdown x.1) begun
            ∙ rw (ends, stop_daemon, stop_servers-started bus_shutdown d.daemon.servers) refl,
      )

no_query :
    (lib : Library) (r : GetRequest)
    → r.filters ≡ none
    → parse_filters lib r.filters ≡ ok no_filters
unfolding parse_filters
no_query lib r filters = rw (filters, parse_filters) refl

module _ {W H : Type 0} (is_alive : H → Bool) (lib : Library) where
  virtual_bus_serves :
      (w : W) (channel sock : ℕ) (d : SocketcanDaemon W H) (r : GetRequest)
      → is_running is_alive d ≡ true
      → r.path ≡ subscription
      → r.channel ≡ some channel
      → r.filters ≡ none
      → let (q, d') = register_virtual_bus is_alive w channel d in
        let (q', d'') = do_get lib sock r d'.daemon in
        (q ≡ ok tt)
        × (q' ≡ waiting)
        × (d''.replies ≡ d.daemon.replies ++ (switching_reply ∷ []))
        × (s : Server W) × (dict_get channel d''.servers ≡ some s)
        × (s.running ≡ true)
        × (s.consumers ≡ record { fd = sock; filters = none } ∷ [])
  unfolding register_virtual_bus put_server start upgrade listen_to send normalize_filters
  virtual_bus_serves w channel sock d r alive path chan filters =
      let s = (start bidirectional (init false true w)).1 in
      let d' = (put_server is_alive channel s d).daemon in
      rw (alive, register_virtual_bus)
        (subst
          (λ x.
            (ok tt ≡ ok tt)
            × (x.0 ≡ waiting)
            × (x.1.replies ≡ d.daemon.replies ++ (switching_reply ∷ []))
            × (t : Server W) × (dict_get channel x.1.servers ≡ some t)
            × (t.running ≡ true)
            × (t.consumers ≡ record { fd = sock; filters = none } ∷ []))
          (sym (
            do_get-upgrade lib sock r d' channel no_filters s path chan (no_query lib r filters)
              (dict_get_own channel s d.daemon.servers)))
          (refl, refl, refl, _, dict_get_own channel _ _, refl, refl))

  late_bus_refuses :
      (w : W) (channel sock : ℕ) (d : SocketcanDaemon W H) (r : GetRequest)
      → r.path ≡ subscription
      → r.channel ≡ some channel
      → r.filters ≡ none
      → let (q, d') = register_bus is_alive (ok w) channel d in
        (q ≡ ok tt)
        × (do_get lib sock r d'.daemon ≡ (failed assertion_error, send switching_reply d'.daemon))
  unfolding register_bus put_server upgrade
  late_bus_refuses w channel sock d r path chan filters =
      let s = init true true w in
      (
        refl,
        do_get-upgrade lib sock r (put_server is_alive channel s d).daemon channel no_filters s path
            chan (no_query lib r filters) (dict_get_own channel s d.daemon.servers),
      )

  -- While the daemon runs, and the connection can be set up, a virtual bus can be subscribed to as soon as it is registered: the
  -- subscription, without filters, is answered by 101, and the client is the only consumer of the new
  -- server, which runs. Another bus that is registered then is not started: a subscription to it is
  -- answered by 101 too, but the handler ends with an AssertionError and the client is no consumer.
  pub register_while_running :
      (w : W) (channel sock : ℕ) (d : SocketcanDaemon W H) (r : GetRequest)
      → is_running is_alive d ≡ true
      → r.path ≡ subscription
      → r.channel ≡ some channel
      → r.filters ≡ none
      → let (q, d') = register_virtual_bus is_alive w channel d in
        let (q', d'') = do_get lib sock r d'.daemon in
        let (p, e') = register_bus is_alive (ok w) channel d in
        ((q ≡ ok tt)
          × (q' ≡ waiting)
          × (d''.replies ≡ d.daemon.replies ++ (switching_reply ∷ []))
          × (s : Server W) × (dict_get channel d''.servers ≡ some s)
          × (s.running ≡ true)
          × (s.consumers ≡ record { fd = sock; filters = none } ∷ []))
        × ((p ≡ ok tt)
            × (do_get lib sock r e'.daemon
                ≡ (failed assertion_error, send switching_reply e'.daemon)))
  register_while_running w channel sock d r alive path chan filters = (
    virtual_bus_serves w channel sock d r alive path chan filters,
    late_bus_refuses w channel sock d r path chan filters,
  )
