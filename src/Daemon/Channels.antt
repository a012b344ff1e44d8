-- ===== src/Daemon/Channels.antt =====
-- src/sockcan/daemon/_server.py: what a daemon has for its channels, after a registration and after its
-- start.
use sockcan.Prelude.{ℕ, [], ◌∷◌, ◌≡◌, refl, subst, ◌∙◌, arith, Bool, true, false, ◌==◌}
use sockcan.Prelude.{if◌then◌else◌, some, inl, inr, Bool-cases, ==_iff, if-keeps}
use sockcan.Prelude.{Result, ok, raise, Dict, dict_get, dict_set, dict_get_own, dict_get_other}
use sockcan.Server.{Server, bidirectional, start}
use sockcan.Threads.{init}
use sockcan.Daemon.Life.{SocketcanDaemon, start_servers, after_start, start_daemon, after_servers}
use sockcan.Daemon.Life.{put_server, register_virtual_bus, register_bus, is_running}

module _ {W : Type 0} where
  abbrev pub HasChannel : ℕ → Dict (Server W) → Type 0
  HasChannel k servers = (s : Server W) × (dict_get k servers ≡ some s)

  -- The server of the channel runs.
  abbrev pub Runs : ℕ → Dict (Server W) → Type 0
  Runs k servers = (s : Server W) × (dict_get k servers ≡ some s) × (s.running ≡ true)

  dict_set-HasChannel :
      (j k : ℕ) (s : Server W) (servers : Dict (Server W))
      → HasChannel k servers
      → HasChannel k (dict_set j s servers)
  dict_set-HasChannel j k s servers (t, there) = elim (Bool-cases (j == k)) [
    | inl same ↦ (
      s,
      subst (λ i. dict_get i (dict_set j s servers) ≡ some s) ((==_iff j k).0 same)
          (dict_get_own j s servers),
    )
    | inr diff ↦ (t, dict_get_other k j s servers (λ e. ground (arith, e, diff)) ∙ there)
  ]

  start-Running :
      (s : Server W) → (start bidirectional s).0 ≡ ok tt → (start bidirectional s).1.running ≡ true
  unfolding start
  start-Running s begun = ground (arith, begun)

  after_start-Runs :
      (k c : ℕ) (rest : Dict (Server W)) (later : Result (Unit {0}) × Dict (Server W))
      (x : Result (Unit {0}) × Server W)
      → (x.0 ≡ ok tt → x.1.running ≡ true)
      → (later.0 ≡ ok tt → HasChannel k rest → Runs k later.1)
      → (after_start c rest later x).0 ≡ ok tt
      → (s : Server W) → HasChannel k ((c, s) ∷ rest)
      → Runs k (after_start c rest later x).1
  unfolding after_start dict_get
  after_start-Runs k c rest later (raise e, server) own others begun s there = ground (arith, begun)
  after_start-Runs k c rest (r, rest') (ok u, server) own others begun s (t, there) =
      elim (Bool-cases (c == k)) [
        | inl same ↦ (server, rw (same, dict_get) refl, own refl)
        | inr diff ↦
            let (v, found, runs) =
              others begun
                (t, subst (λ b. (if b then some s else dict_get k rest) ≡ some t) diff there) in
            (v, rw (diff, dict_get) found, runs)
      ]

  start_servers-Runs :
      (k : ℕ) (servers : Dict (Server W))
      → (start_servers servers).0 ≡ ok tt
      → HasChannel k servers
      → Runs k (start_servers servers).1
  unfolding start_servers dict_get
  start_servers-Runs k [] begun (t, there) = ground (arith, there)
  start_servers-Runs k ((c, s) ∷ rest) begun there =
      after_start-Runs k c rest (start_servers rest) (start bidirectional s) (start-Running s)
        (start_servers-Runs k rest) begun s there

module _ {W H : Type 0} (is_alive : H → Bool) where
  -- A registration that does not raise leaves a server for its channel, and every other channel.
  abbrev pub Registers : ℕ → SocketcanDaemon W H → Result (Unit {0}) × SocketcanDaemon W H → Type 0
  Registers channel d (raise x, d') = Unit
  Registers channel d (ok _, d') =
      HasChannel channel d'.daemon.servers
      × ((k : ℕ) → HasChannel k d.daemon.servers → HasChannel k d'.daemon.servers)

  put_server-Registers :
      (channel : ℕ) (s : Server W) (d : SocketcanDaemon W H) (r : Result (Unit {0}))
      → Registers channel d (r, put_server is_alive channel s d)
  unfolding put_server
  put_server-Registers channel s d (raise x) = tt
  put_server-Registers channel s d (ok u) = (
    (s, dict_get_own channel s d.daemon.servers),
    λ k there. dict_set-HasChannel channel k s d.daemon.servers there,
  )

  pub register_virtual_bus-Registers :
      (w : W) (channel : ℕ) (d : SocketcanDaemon W H)
      → Registers channel d (register_virtual_bus is_alive w channel d)
  unfolding register_virtual_bus
  register_virtual_bus-Registers w channel d =
      if-keeps (Registers channel d) (is_running is_alive d) _ _
        (put_server-Registers channel (start bidirectional (init false true w)).1 d
          (start bidirectional (init false true w)).0)
        (put_server-Registers channel _ d (ok tt))

  pub register_bus-Registers :
      (opened : Result W) (channel : ℕ) (d : SocketcanDaemon W H)
      → Registers channel d (register_bus is_alive opened channel d)
  unfolding register_bus
  register_bus-Registers (raise e) channel d = tt
  register_bus-Registers (ok w) channel d = put_server-Registers channel _ d (ok tt)

module _ {W H : Type 0} (serve_forever : H → H) (d : SocketcanDaemon W H) where
  -- What a start leaves: if it does not raise, all the channels run, and the HTTP thread is there.
  abbrev pub Starts : Result (Unit {0}) × SocketcanDaemon W H → Type 0
  Starts (raise x, d') = Unit
  Starts (ok _, d') =
      (d'.has_httpd_thread ≡ true)
      × ((k : ℕ) → HasChannel k d.daemon.servers → Runs k d'.daemon.servers)

  after_servers-Starts :
      (r : Result (Unit {0}) × Dict (Server W))
      → (r.0 ≡ ok tt → (k : ℕ) → HasChannel k d.daemon.servers → Runs k r.1)
      → Starts (after_servers serve_forever d r)
  unfolding after_servers
  after_servers-Starts (raise x, servers) h = tt
  after_servers-Starts (ok u, servers) h = (refl, h refl)

  pub start_daemon-Starts : Starts (start_daemon serve_forever d)
  unfolding start_daemon
  start_daemon-Starts =
      after_servers-Starts (start_servers d.daemon.servers)
        (λ begun k. start_servers-Runs k d.daemon.servers begun)
