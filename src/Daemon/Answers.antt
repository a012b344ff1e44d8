-- ===== src/Daemon/Answers.antt =====
-- src/sockcan/daemon/_server.py: how a request to `do_GET` ends.
use sockcan.Prelude.{ℕ, [], ◌∷◌, ◌++◌, ◌≡◌, refl, ap, ◌∙◌, Bool, true, false}
use sockcan.Prelude.{none, some}
use sockcan.Prelude.{Exception}
use sockcan.Prelude.{Result, ok, raise, ◌⊎◌, inl, inr}
use sockcan.Prelude.{Option, assertion_error, if◌then◌else◌, if-keeps}
use sockcan.Filters.{FilterSpec, normalize_filters}
use sockcan.Prelude.{dict_get, dict_set, dict_set_same}
use sockcan.Server.{Server, listen_to}
use sockcan.Server.Listening.{joined}
use sockcan.Daemon.{Daemon, GetRequest, RequestPath, ping, subscription, unsubscription, unknown}
use sockcan.Daemon.{is_value_error, parse_filters, send, upgrade}
use sockcan.Daemon.{subscribe_request, route, on_server, on_channel, on_path, do_get}
use sockcan.Daemon.{Library, Reply, Handled, returned, waiting, failed, after_listen}
use sockcan.Daemon.{text_reply, switching_reply, not_found_reply}
use sockcan.Daemon.Joins.{Joined, Refused, Listens, listen_to-Listens}

-- The code of a request that is not upgraded.
abbrev pub IsPlain : Reply → Type 0
IsPlain reply = (reply.code ≡ 200) ⊎ ((reply.code ≡ 400) ⊎ (reply.code ≡ 404))

module _ {W : Type 0} (lib : Library) (sock : ℕ) (r : GetRequest) (d : Daemon W) where
  -- The subscription of a running server: the client was accepted, and is the server's last consumer.
  abbrev pub Subscribes : ℕ → FilterSpec → Server W → Daemon W → Type 0
  Subscribes channel spec server d' =
      (server' : Server W) × (d'.servers ≡ dict_set channel server' d.servers)
      × (d'.replies ≡ d.replies ++ (switching_reply ∷ []))
      × Joined (record { fd = sock; filters = normalize_filters spec }) server server'

  -- The subscription that the bus of a running server refused: the client was accepted, and the server
  -- has it in its list without watching it.
  abbrev pub HalfSubscribes : ℕ → FilterSpec → Server W → Exception → Daemon W → Type 0
  HalfSubscribes channel spec server e d' =
      (server' : Server W) × (d'.servers ≡ dict_set channel server' d.servers)
      × (d'.replies ≡ d.replies ++ (switching_reply ∷ []))
      × Refused (record { fd = sock; filters = normalize_filters spec }) e server server'

  -- How the request may end.
  abbrev pub Outcome : Handled × Daemon W → Type 0
  Outcome (waiting, d') =
      (channel : ℕ) × (spec : FilterSpec) × (server : Server W) × (r.path ≡ subscription)
      × (r.channel ≡ some channel)
      × (parse_filters lib r.filters ≡ ok spec)
      × (dict_get channel d.servers ≡ some server)
      × (server.running ≡ true)
      × Subscribes channel spec server d'
  Outcome (returned, d') =
      (d'.servers ≡ d.servers)
      × (reply : Reply) × (d'.replies ≡ d.replies ++ (reply ∷ []))
      × IsPlain reply
  Outcome (failed e, d') =
      ((d'.servers ≡ d.servers)
        × ((d'.replies ≡ d.replies) ⊎ (d'.replies ≡ d.replies ++ (switching_reply ∷ []))))
      ⊎ ((channel : ℕ) × (spec : FilterSpec) × (server : Server W) × (r.path ≡ subscription)
          × (r.channel ≡ some channel)
          × (parse_filters lib r.filters ≡ ok spec)
          × (dict_get channel d.servers ≡ some server)
          × (server.running ≡ true)
          × HalfSubscribes channel spec server e d')

  plain-Outcome : (reply : Reply) → IsPlain reply → Outcome (returned, send reply d)
  unfolding send
  plain-Outcome reply plain = (refl, reply, refl, plain)

  module _ (channel : ℕ) (server : Server W)
      (known : dict_get channel d.servers ≡ some server) where
    -- What the handler makes of the outcome of `listen_to`.
    listened-Outcome :
        (spec : FilterSpec) (q : Result (Unit {0}) × Server W)
        → r.path ≡ subscription
        → r.channel ≡ some channel
        → parse_filters lib r.filters ≡ ok spec
        → server.running ≡ true
        → Listens sock spec server q
        → Outcome (
          after_listen q.0,
          record (send switching_reply d) { servers = dict_set channel q.1 d.servers },
        )
    unfolding send
    listened-Outcome spec (ok u, server') path chan parsed runs joined =
        (channel, spec, server, path, chan, parsed, known, runs, (server', refl, refl, joined))
    listened-Outcome spec (raise e, server') path chan parsed runs (inl same) = inl (
      ap (λ s. dict_set channel s d.servers) same ∙ dict_set_same channel server d.servers known,
      inr refl,
    )
    listened-Outcome spec (raise e, server') path chan parsed runs (inr refused) =
        inr (channel, spec, server, path, chan, parsed, known, runs, (server', refl, refl, refused))

    upgrade-Outcome :
        (spec : FilterSpec)
        → r.path ≡ subscription
        → r.channel ≡ some channel
        → parse_filters lib r.filters ≡ ok spec
        → Outcome (upgrade sock channel spec server (send switching_reply d))
    unfolding upgrade send
    upgrade-Outcome spec path chan parsed = by_running server.running refl
      where
        by_running :
            (b : Bool)
            → server.running ≡ b
            → Outcome (
                if b
                then (
                  after_listen (listen_to sock false spec false server).0,
                  record (send switching_reply d) {
                    servers = dict_set channel (listen_to sock false spec false server).1 d.servers;
                  },
                )
                else (failed assertion_error, send switching_reply d))
        by_running true runs =
            listened-Outcome spec (listen_to sock false spec false server) path chan parsed runs
              (listen_to-Listens sock spec server)
        by_running false stopped = inl (refl, inr refl)

    subscribe_request-Outcome :
        (parsed : Result FilterSpec)
        → r.path ≡ subscription
        → r.channel ≡ some channel
        → parse_filters lib r.filters ≡ parsed
        → Outcome (subscribe_request lib sock channel server parsed d)
    unfolding subscribe_request text_reply
    subscribe_request-Outcome (ok spec) path chan parses = upgrade-Outcome spec path chan parses
    subscribe_request-Outcome (raise e) path chan parses =
        if-keeps Outcome (is_value_error e) _ (failed e, d) (plain-Outcome _ (inr (inl refl)))
          (inl (refl, inl refl))

    route-Outcome :
        (path : RequestPath)
        → r.path ≡ path
        → r.channel ≡ some channel
        → Outcome (route lib sock channel server r path d)
    unfolding route not_found_reply
    route-Outcome subscription is chan = subscribe_request-Outcome _ is chan refl
    route-Outcome unsubscription is chan = inl (refl, inl refl)
    route-Outcome ping is chan = plain-Outcome _ (inr (inr refl))
    route-Outcome unknown is chan = plain-Outcome _ (inr (inr refl))

  on_server-Outcome :
      (channel : ℕ) (server : Option (Server W))
      → dict_get channel d.servers ≡ server
      → r.channel ≡ some channel
      → Outcome (on_server lib sock channel r server d)
  unfolding on_server text_reply
  on_server-Outcome channel none known chan = plain-Outcome _ (inr (inl refl))
  on_server-Outcome channel (some server) known chan =
      route-Outcome channel server known r.path refl chan

  on_channel-Outcome :
      (channel : Option ℕ) → r.channel ≡ channel → Outcome (on_channel lib sock r channel d)
  unfolding on_channel text_reply
  on_channel-Outcome none chan = plain-Outcome _ (inr (inl refl))
  on_channel-Outcome (some channel) chan = on_server-Outcome channel _ refl chan

  on_path-Outcome : (path : RequestPath) → Outcome (on_path lib sock r path d)
  unfolding on_path text_reply
  on_path-Outcome ping = plain-Outcome _ (inl refl)
  on_path-Outcome subscription = on_channel-Outcome r.channel refl
  on_path-Outcome unsubscription = on_channel-Outcome r.channel refl
  on_path-Outcome unknown = on_channel-Outcome r.channel refl

  -- A request of a client, whose filters, where they are a list in JSON, are a list of filters, ends in
  -- one of three ways. The handler waits, and keeps the connection open: then it was a subscription to
  -- a channel of the daemon whose server runs, 101 is the reply, and the server has the connection as
  -- its last consumer, with the filters of the query and an empty backlog, and runs. It returns: then
  -- it has sent exactly one reply, 200, 400 or 404, and no server has changed. Or it raises: then no
  -- server has changed either, and at most the 101 was sent; except that, where it raises what the bus
  -- of a running server raises at the filters of a subscription, the 101 was sent and the server has
  -- the connection as its last consumer, with its selector and the filters on the bus as before.
  pub do_get-Outcome : Outcome (do_get lib sock r d)
  unfolding do_get
  do_get-Outcome = on_path-Outcome r.path

  -- A subscription whose filters are read, to a channel that the daemon has.
  pub do_get-upgrade :
      (channel : ℕ) (spec : FilterSpec) (server : Server W)
      → r.path ≡ subscription
      → r.channel ≡ some channel
      → parse_filters lib r.filters ≡ ok spec
      → dict_get channel d.servers ≡ some server
      → do_get lib sock r d ≡ upgrade sock channel spec server (send switching_reply d)
  unfolding do_get route subscribe_request
  do_get-upgrade channel spec server path chan parsed known =
      rw (path, chan, known, do_get, parsed) refl
