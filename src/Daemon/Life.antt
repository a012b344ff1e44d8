-- ===== src/Daemon/Life.antt =====
-- src/sockcan/daemon/_server.py: the life of a `SocketcanDaemon`, which has the HTTP server and the
-- servers of the channels. The HTTP server `H` and python-can's buses are parameters. `shutdown` is
-- none if it never returns.
use sockcan.Prelude.{ℕ, [], ◌∷◌, Bool, true, false, ◌&&◌, ◌==◌, if◌then◌else◌, Option, none, some}
use sockcan.Prelude.{Result, ok, raise, Dict, dict_set, not, Text, call_then}
use sockcan.Server.{Server, bidirectional, start, stop}
use sockcan.Threads.{init}
use sockcan.Daemon.{Daemon}

-- The port that a daemon takes: `SOCKCAN_DAEMON_PORT` counts only where none is given.
unfoldable pub resolve_port : (ℕ → Result ℕ) → Option ℕ → ℕ → Result ℕ
resolve_port int none port = ok port
resolve_port int (some env_port) port = if port == 0 then int env_port else ok port

pub record SocketcanDaemon (W H : Type 0) : Type 0 where
  pub daemon : Daemon W
  pub httpd : H
  pub has_httpd_thread : Bool

-- `server.is_virtual`
abbrev pub is_virtual : {W : Type 0} → Server W → Bool
is_virtual s = not s.has_bus

module _ {W : Type 0} where
  -- What the loop does after a server's start: `rest` are the servers that follow and `later` is what
  -- the loop gives on them.
  unfoldable pub after_start :
      ℕ
      → Dict (Server W)
      → Result (Unit {0}) × Dict (Server W)
      → Result (Unit {0}) × Server W
      → Result (Unit {0}) × Dict (Server W)
  after_start channel rest later (raise e, server) = (raise e, (channel, server) ∷ rest)
  after_start channel rest (r, rest') (ok _, server) = (r, (channel, server) ∷ rest')

  -- `start_socketcan_servers`: the first server that cannot start ends the loop.
  unfoldable pub start_servers : Dict (Server W) → Result (Unit {0}) × Dict (Server W)
  unfolding start after_start
  start_servers [] = (ok tt, [])
  start_servers ((channel, server) ∷ rest) =
      after_start channel rest (start_servers rest) (start bidirectional server)

  -- The loop of `stop`: a server is stopped, and then its bus is shut down.
  unfoldable pub stop_servers : (W → W) → Dict (Server W) → Dict (Server W)
  unfolding stop
  stop_servers bus_shutdown [] = []
  stop_servers bus_shutdown ((channel, server) ∷ rest) =
      let s = stop server in
      (channel, if s.has_bus then record s { world = bus_shutdown s.world } else s)
      ∷ stop_servers bus_shutdown rest

module _ {W H : Type 0} (is_alive : H → Bool) where
  unfoldable pub is_running : SocketcanDaemon W H → Bool
  is_running d = d.has_httpd_thread && is_alive d.httpd

  unfoldable pub put_server : ℕ → Server W → SocketcanDaemon W H → SocketcanDaemon W H
  put_server channel server d = record d {
    daemon = record d.daemon { servers = dict_set channel server d.daemon.servers };
  }

  -- The world `w` is that of the new server. It is in the dictionary before it is started.
  unfoldable pub register_virtual_bus :
      W → ℕ → SocketcanDaemon W H → Result (Unit {0}) × SocketcanDaemon W H
  unfolding is_running put_server start
  register_virtual_bus w channel d =
      let (r, started) = start bidirectional (init false true w) in
      if is_running d
      then (r, put_server channel started d)
      else (ok tt, put_server channel (init false true w) d)

  -- `opened` is what `can.Bus` gave.
  unfoldable pub register_bus :
      Result W → ℕ → SocketcanDaemon W H → Result (Unit {0}) × SocketcanDaemon W H
  unfolding put_server
  register_bus (raise e) channel d = (raise e, d)
  register_bus (ok w) channel d = (ok tt, put_server channel (init true true w) d)

module _ {W H E : Type 0} (bind : Text → ℕ → E → Result (ℕ × H) × E) where
  -- A new daemon has no channels, and its port is the one that the HTTP server is bound to.
  unfoldable pub new_daemon : Text → Result ℕ → E → Result (ℕ × SocketcanDaemon W H) × E
  new_daemon host (raise x) e = (raise x, e)
  new_daemon host (ok port) e = call_then (bind host port e) (λ bound e'. (
    ok (
      bound.0,
      record {
        daemon = record { servers = []; replies = [] };
        httpd = bound.1;
        has_httpd_thread = false;
      },
    ),
    e',
  ))

module _ {W H : Type 0} where
  -- The HTTP thread only follows when every server has started.
  unfoldable pub after_servers :
      (H → H)
      → SocketcanDaemon W H
      → Result (Unit {0}) × Dict (Server W)
      → Result (Unit {0}) × SocketcanDaemon W H
  after_servers serve_forever d (raise e, servers) =
      (raise e, record d { daemon = record d.daemon { servers = servers } })
  after_servers serve_forever d (ok _, servers) = (
    ok tt,
    record d {
      daemon = record d.daemon { servers = servers };
      httpd = serve_forever d.httpd;
      has_httpd_thread = true;
    },
  )

  unfoldable pub start_daemon :
      (H → H) → SocketcanDaemon W H → Result (Unit {0}) × SocketcanDaemon W H
  unfolding start_servers after_servers
  start_daemon serve_forever d = after_servers serve_forever d (start_servers d.daemon.servers)

  unfoldable pub after_shutdown :
      (H → H) → (H → H) → (W → W) → SocketcanDaemon W H → Option H → Option (SocketcanDaemon W H)
  unfolding stop_servers
  after_shutdown join server_close bus_shutdown d none = none
  after_shutdown join server_close bus_shutdown d (some h) = some (record d {
    httpd = server_close (if d.has_httpd_thread then join h else h);
    daemon = record d.daemon { servers = stop_servers bus_shutdown d.daemon.servers };
  })

  unfoldable pub stop_daemon :
      (H → Option H)
      → (H → H)
      → (H → H)
      → (W → W)
      → SocketcanDaemon W H
      → Option (SocketcanDaemon W H)
  unfolding after_shutdown
  stop_daemon shutdown join server_close bus_shutdown d =
      after_shutdown join server_close bus_shutdown d (shutdown d.httpd)
