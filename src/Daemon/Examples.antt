-- ===== src/Daemon/Examples.antt =====
-- A daemon with one stream server on the channel 0, and the theorems about `do_GET` at it.
use sockcan.Prelude.{Bool, false, Option, none, map_values, ◌++◌, assertion_error}
use sockcan.Daemon.Life.{
  SocketcanDaemon, start_daemon, stop_daemon, is_running, register_bus, register_virtual_bus,
}
use sockcan.Daemon.Started.{ended, stop_daemon-start_daemon, register_while_running}
use sockcan.Daemon.{send, switching_reply, Library, waiting, failed}
use sockcan.Prelude.{Text, codes}
use sockcan.Prelude.{ℕ, List, [], ◌∷◌, ◌==◌, ◌≡◌, refl, true, dict_get, some, if◌then◌else◌}
use sockcan.Prelude.{Result, ok, raise, type_error, value_error}
use sockcan.Backlog.{Frame}
use sockcan.Server.{Server}
use sockcan.Threads.{init}
use sockcan.Daemon.{Daemon, GetRequest, subscription, Json, json_list, json_other, do_get}
use sockcan.Daemon.Answers.{Outcome, do_get-Outcome}

-- A text that starts with a square bracket is an empty list, one with a curly one some other JSON, and
-- the rest is none.
json_loads : Text → Result Json
json_loads [] = raise value_error
json_loads (c ∷ t) =
    if c == 91 then ok (json_list []) else if c == 123 then ok json_other else raise value_error

abbrev lib : Library
lib = record { json_loads = json_loads; unquote = λ t. t; message = λ e. []; pid = 1234 }

abbrev server : Server (List Frame)
server = record (init true true []) { running = true }

abbrev daemon : Daemon (List Frame)
daemon = record { servers = (0, server) ∷ []; replies = [] }

abbrev subscribe_with : Text → GetRequest
subscribe_with t = record { path = subscription; channel = some 0; filters = some t }

accepted : (do_get lib 7 (subscribe_with (codes "[]")) daemon).0 ≡ waiting
unfolding do_get json_loads dict_get
accepted = refl

do_get-Outcome_example :
    Outcome lib 7
      (subscribe_with (codes "[]"))
      daemon
      (do_get lib 7 (subscribe_with (codes "[]")) daemon)
do_get-Outcome_example = do_get-Outcome lib 7 (subscribe_with (codes "[]")) daemon

-- Filters that are no list are answered by nothing.
unanswered : do_get lib 7 (subscribe_with (codes "{}")) daemon ≡ (failed type_error, daemon)
unfolding do_get json_loads dict_get
unanswered = refl

-- An HTTP server that is serving or not, and whose `shutdown` never returns if it is not.
abbrev Httpd : Type 0
Httpd = Bool

abbrev shutdown : Httpd → Option Httpd
shutdown true = some false
shutdown false = none

abbrev idle : Server (List Frame)
idle = init true true []

abbrev fresh_daemon : SocketcanDaemon (List Frame) Httpd
fresh_daemon = record {
  daemon = record { servers = (0, idle) ∷ (1, init false true []) ∷ []; replies = [] };
  httpd = false;
  has_httpd_thread = false;
}

stop_daemon-start_daemon_example :
    ((start_daemon (λ h. true) fresh_daemon).0 ≡ ok tt)
    × (stop_daemon shutdown (λ h. h) (λ h. h) (λ w. []) (start_daemon (λ h. true) fresh_daemon).1
        ≡ some (record fresh_daemon {
          httpd = false;
          has_httpd_thread = true;
          daemon = record fresh_daemon.daemon {
            servers = map_values (ended (λ w. [])) fresh_daemon.daemon.servers;
          };
        }))
stop_daemon-start_daemon_example =
    stop_daemon-start_daemon (λ h. true) shutdown (λ h. h) (λ h. h) (λ w. []) fresh_daemon false
      (refl, (refl, tt)) ((λ x e. cc), ((λ x e. cc), tt)) refl

abbrev live_daemon : SocketcanDaemon (List Frame) Httpd
live_daemon = record { daemon = daemon; httpd = true; has_httpd_thread = true }

abbrev subscribe_to : ℕ → GetRequest
subscribe_to channel = record { path = subscription; channel = some channel; filters = none }

register_while_running_example :
    let (q, d') = register_virtual_bus (λ h. h) [] 3 live_daemon in
    let (q', d'') = do_get lib 7 (subscribe_to 3) d'.daemon in
    let (p, e') = register_bus (λ h. h) (ok []) 3 live_daemon in
    ((q ≡ ok tt)
      × (q' ≡ waiting)
      × (d''.replies ≡ [] ++ (switching_reply ∷ []))
      × (s : Server (List Frame)) × (dict_get 3 d''.servers ≡ some s)
      × (s.running ≡ true)
      × (s.consumers ≡ record { fd = 7; filters = none } ∷ []))
    × ((p ≡ ok tt)
        × (do_get lib 7 (subscribe_to 3) e'.daemon
            ≡ (failed assertion_error, send switching_reply e'.daemon)))
unfolding is_running
register_while_running_example =
    register_while_running (λ h. h) lib [] 3 7 live_daemon (subscribe_to 3) refl refl refl refl
