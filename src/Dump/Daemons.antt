-- ===== src/Dump/Daemons.antt =====
-- src/sockcan/daemon/__main__.py: the commands `ping` and `run_daemon`. The waiting for the user is left
-- out of `run_daemon`: it comes between the start of the daemon and its stop.
use sockcan.Prelude.{ℕ, [], ◌∷◌, ◌++◌, ◌≡◌, arith, Bool, true, false, if◌then◌else◌, All}
use sockcan.Prelude.{
  if-keeps, Option, none, some, Result, ok, raise, Exception, Dict, Text, codes, str,
}
use sockcan.Server.{Server, stop}
use sockcan.Daemon.Life.{SocketcanDaemon, resolve_port, new_daemon, register_virtual_bus}
use sockcan.Daemon.Life.{register_bus, start_daemon, stop_daemon, stop_servers, after_shutdown}

-- What `ping` prints.
unfoldable pub ping_text : Text → ℕ → Bool → Text
ping_text host_ip port true = codes "Daemon is running on " ++ (host_ip ++ (codes ":" ++ str port))
ping_text host_ip port false = codes "Daemon is not running"

-- How `run_daemon` ends: with its daemon stopped, in the `shutdown` that never returns, or with an
-- exception.
pub data RunEnd (W H : Type 0) : Type 0 where
  stopped : SocketcanDaemon W H → RunEnd W H
  hung : RunEnd W H
  run_failed : Exception → RunEnd W H

module _ {W H E : Type 0} (virtual_world : W) (open_bus : E → Result W × E) (is_alive : H → Bool)
    (serve_forever : H → H) (bind : Text → ℕ → E → Result (ℕ × H) × E) (int : ℕ → Result ℕ)
    (env_port : Option ℕ) (shutdown : H → Option H) (join server_close : H → H)
    (bus_shutdown : W → W) where
  unfoldable pub run_end : Option (SocketcanDaemon W H) → RunEnd W H
  run_end none = hung
  run_end (some d) = stopped d

  -- `daemon.stop()`, once the daemon has started.
  unfoldable pub stop_started : Result (Unit {0}) × SocketcanDaemon W H → RunEnd W H
  unfolding run_end stop_daemon
  stop_started (raise x, d) = run_failed x
  stop_started (ok _, d) = run_end (stop_daemon shutdown join server_close bus_shutdown d)

  -- `daemon.start()`, once the bus is registered.
  unfoldable pub start_registered : Result (Unit {0}) × SocketcanDaemon W H → RunEnd W H
  unfolding stop_started start_daemon
  start_registered (raise x, d) = run_failed x
  start_registered (ok _, d) = stop_started (start_daemon serve_forever d)

  -- The registration of the one bus of a new daemon.
  unfoldable pub register_for_run : Bool → ℕ → Result (ℕ × SocketcanDaemon W H) × E → RunEnd W H
  unfolding start_registered register_virtual_bus register_bus
  register_for_run virtual channel (raise x, e) = run_failed x
  register_for_run virtual channel (ok (port, d), e) =
      if virtual
      then start_registered (register_virtual_bus is_alive virtual_world channel d)
      else start_registered (register_bus is_alive (open_bus e).0 channel d)

  unfoldable pub run_daemon_command : Text → ℕ → Bool → ℕ → E → RunEnd W H
  unfolding register_for_run new_daemon resolve_port
  run_daemon_command host_ip port virtual channel e =
      register_for_run virtual channel (new_daemon bind host_ip (resolve_port int env_port port) e)

  -- No server of a daemon that has stopped runs.
  abbrev Quiet : RunEnd W H → Type 0
  Quiet (stopped d) = All (λ e. e.1.running ≡ false) d.daemon.servers
  Quiet _ = Unit

  stop_servers-Quiet :
      (servers : Dict (Server W))
      → All (λ e. e.1.running ≡ false) (stop_servers bus_shutdown servers)
  unfolding stop_servers stop
  stop_servers-Quiet [] = tt
  stop_servers-Quiet ((k, s) ∷ servers) = (ground arith, stop_servers-Quiet servers)

  stop_started-Quiet : (r : Result (Unit {0}) × SocketcanDaemon W H) → Quiet (stop_started r)
  unfolding stop_started after_shutdown
  stop_started-Quiet (raise x, d) = tt
  stop_started-Quiet (ok u, d) = by_shutdown (shutdown d.httpd)
    where
      by_shutdown :
          (h : Option H) → Quiet (run_end (after_shutdown join server_close bus_shutdown d h))
      by_shutdown none = tt
      by_shutdown (some h) = stop_servers-Quiet d.daemon.servers

  start_registered-Quiet :
      (r : Result (Unit {0}) × SocketcanDaemon W H) → Quiet (start_registered r)
  unfolding start_registered
  start_registered-Quiet (raise x, d) = tt
  start_registered-Quiet (ok u, d) = stop_started-Quiet (start_daemon serve_forever d)

  -- However the command ends: a daemon that it leaves behind has no server that still runs.
  run_daemon_command-Quiet :
      (host_ip : Text) (port channel : ℕ) (virtual : Bool) (e : E)
      → Quiet (run_daemon_command host_ip port virtual channel e)
  unfolding run_daemon_command register_for_run
  run_daemon_command-Quiet host_ip port channel virtual e =
      by_daemon (new_daemon bind host_ip (resolve_port int env_port port) e)
    where
      by_daemon :
          (r : Result (ℕ × SocketcanDaemon W H) × E) → Quiet (register_for_run virtual channel r)
      by_daemon (raise x, e') = tt
      by_daemon (ok (bound, d), e') =
          if-keeps Quiet virtual _ _
            (start_registered-Quiet (register_virtual_bus is_alive virtual_world channel d))
            (start_registered-Quiet (register_bus is_alive (open_bus e').0 channel d))
