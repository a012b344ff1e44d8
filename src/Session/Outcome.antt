-- ===== src/Session/Outcome.antt =====
-- What a subscription of a client leaves behind in the client and in the daemon.
use sockcan.Prelude.{
  ℕ, List, [], ◌∷◌, ◌++◌, ◌≡◌, refl, sym, ap, ◌∙◌, map, flatten, append-nil, take, Bool, true,
  false, Option, none, some,
}
use sockcan.Prelude.{Result, ok, raise, value_error, Text, codes, contains}
use sockcan.Prelude.{subst}
use sockcan.Prelude.{dict_get, dict_set, if◌then◌else◌}
use sockcan.Filters.{CanFilter, normalize_filters}
use sockcan.Server.{Server}
use sockcan.Daemon.{Daemon, GetRequest, subscription, Library, Reply, Handled}
use sockcan.Daemon.{send, do_get, parse_filters}
use sockcan.Daemon.{switching_reply}
use sockcan.Server.Listening.{Admits}
use sockcan.Daemon.Joins.{Joined}
use sockcan.Client.{
  query_params, request_line, upgrade_request, exchange, after_upgrade, connect_socketcan_client,
}
use sockcan.Client.Requests.{IsLine, read_head, upgrade_request-read_head}
use sockcan.Interop.Bus.{filter_spec}
use sockcan.Session.{query_filters}
use sockcan.Session.Handled.{unknown_channel, do_get-unknown, do_get-stopped, do_get-running}
use sockcan.Session.Handled.{do_get-switching}

module _ {E : Type 0} (connect : Text → ℕ → E → Result (Unit {0}) × E)
    (sendall : Text → E → Result (Unit {0}) × E) (recv : ℕ → E → Result Text × E)
    (json_dumps : List CanFilter → Text) (quote : Text → Text) where
  -- The client makes its result of what it receives.
  connect-received :
      (host : Text) (port : ℕ) (name : Text) (filters : Option (List CanFilter)) (w w₁ w₂ w₃ : E)
      (answer : Text)
      → connect host port w ≡ (ok tt, w₁)
      → sendall (upgrade_request host port (query_params json_dumps quote name filters)) w₁
        ≡ (ok tt, w₂)
      → recv 4096 w₂ ≡ (ok answer, w₃)
      → connect_socketcan_client connect sendall recv json_dumps quote host port name filters w ≡ (
          if contains (codes "101 Switching Protocols") answer
          then (ok tt, w₃)
          else (raise value_error, w₃))
  unfolding connect_socketcan_client exchange after_upgrade
  connect-received host port name filters w w₁ w₂ w₃ answer up sent got =
      rw (up, connect_socketcan_client, sent, exchange, got, after_upgrade) refl

  module _ {W : Type 0} (lib : Library) (parse : Text → GetRequest) (render : Reply → Text)
      (daemon : E → Daemon W) (sock channel : ℕ) where
    -- The first bytes that the handler of a request gives the client.
    abbrev pub received : Handled × Daemon W → Text
    received h = take 4096 (flatten (map render h.1.replies))

    -- What the subscription comes to, by what the daemon has for the channel.
    abbrev pub Connects :
        Option (List CanFilter) → Daemon W → Option (Server W) → Result (Unit {0}) × E → Type 0
    Connects filters d none (result, w) =
        (result ≡ raise value_error) × ((daemon w).servers ≡ d.servers)
    Connects filters d (some s) (result, w) =
        (result ≡ ok tt)
        × (s.running ≡ false → (daemon w).servers ≡ d.servers)
        × (s.running ≡ true
            → s.use_stream ≡ true
            → Admits s
            → (s' : Server W) × ((daemon w).servers ≡ dict_set channel s' d.servers)
              × Joined (record { fd = sock; filters = normalize_filters (filter_spec filters) }) s
                  s')

    received-one :
        (h : Handled × Daemon W) (reply : Reply)
        → h.1.replies ≡ reply ∷ []
        → received h ≡ take 4096 (render reply)
    unfolding flatten
    received-one h reply one =
        ap (λ rs. take 4096 (flatten (map render rs))) one
        ∙ ap (take 4096) (append-nil (render reply))

    -- The client's result, by the words of the one reply.
    connect-answered :
        (host name : Text) (port : ℕ) (filters : Option (List CanFilter)) (w w₁ w₂ w₃ : E)
        (h : Handled × Daemon W) (reply : Reply) (b : Bool)
        → connect host port w ≡ (ok tt, w₁)
        → sendall (upgrade_request host port (query_params json_dumps quote name filters)) w₁
          ≡ (ok tt, w₂)
        → recv 4096 w₂ ≡ (ok (received h), w₃)
        → h.1.replies ≡ reply ∷ []
        → contains (codes "101 Switching Protocols") (take 4096 (render reply)) ≡ b
        → connect_socketcan_client connect sendall recv json_dumps quote host port name filters w
          ≡ (if b then (ok tt, w₃) else (raise value_error, w₃))
    connect-answered host name port filters w w₁ w₂ w₃ h reply b up sent got one answers =
        connect-received host port name filters w w₁ w₂ w₃ _ up sent got
        ∙ ap
            (λ t.
              if contains (codes "101 Switching Protocols") t
              then (ok tt, w₃)
              else (raise value_error, w₃))
            (received-one h reply one)
        ∙ ap (λ c. if c then (ok tt, w₃) else (raise value_error, w₃)) answers

    module _ (host name : Text) (port : ℕ) (filters : Option (List CanFilter)) (d : Daemon W)
        (w w₁ w₂ w₃ : E) where
      -- Where the client is connected and its request sent, it is a request to subscribe to the
      -- channel, whose filters are read as they were written, the daemon handles the request that it
      -- finds at the head of what was sent, and the client receives the replies that this gives, of
      -- which only an upgrade has the words `101 Switching Protocols`: if the daemon does not have the
      -- channel, the client raises ValueError and no server changes. If it has, the client returns its
      -- socket. Then a server that runs, of streams, where the connection can be set up and the bus, if
      -- there is one, takes the filters, has the connection as its last consumer, with an empty backlog
      -- and the filters of the client, and no other server changes. But if the server does not run, no
      -- server changes at all, and the client has the socket of a connection that no server knows. The
      -- host and the query have no carriage return and no line feed.
      pub connect_socketcan_client-Connects :
          IsLine host
          → IsLine (query_params json_dumps quote name filters)
          → connect host port w ≡ (ok tt, w₁)
          → sendall (upgrade_request host port (query_params json_dumps quote name filters)) w₁
            ≡ (ok tt, w₂)
          → ((line rest : Text)
              → read_head 2 (upgrade_request host port (query_params json_dumps quote name filters))
                ≡ (line ∷ [], rest)
              → (recv 4096 w₂ ≡ (ok (received (do_get lib sock (parse line) d)), w₃))
                × (daemon w₃ ≡ (do_get lib sock (parse line) d).1))
          → parse (request_line (query_params json_dumps quote name filters)) ≡ record {
            path = subscription;
            channel = some channel;
            filters = query_filters json_dumps filters;
          }
          → parse_filters lib (query_filters json_dumps filters) ≡ ok (filter_spec filters)
          → d.replies ≡ []
          → contains (codes "101 Switching Protocols") (take 4096 (render switching_reply)) ≡ true
          → contains (codes "101 Switching Protocols") (take 4096 (render unknown_channel)) ≡ false
          → Connects filters d (dict_get channel d.servers) (
              connect_socketcan_client connect sendall recv json_dumps quote host port name filters
                w)
      unfolding send
      connect_socketcan_client-Connects host_line query_line up sent serves parses reads fresh
            accepts refuses =
          by_server (dict_get channel d.servers) refl
        where
          r : GetRequest
          r = parse (request_line (query_params json_dumps quote name filters))

          h : Handled × Daemon W
          h = do_get lib sock r d

          served : (recv 4096 w₂ ≡ (ok (received h), w₃)) × (daemon w₃ ≡ h.1)
          served = serves _ _ (upgrade_request-read_head 0 host port _ host_line query_line)

          path : r.path ≡ subscription
          path = ap (λ q. q.path) parses

          chan : r.channel ≡ some channel
          chan = ap (λ q. q.channel) parses

          parsed : parse_filters lib r.filters ≡ ok (filter_spec filters)
          parsed = ap (λ q. parse_filters lib q.filters) parses ∙ reads

          by_server :
              (o : Option (Server W))
              → dict_get channel d.servers ≡ o
              → Connects filters d o (
                  connect_socketcan_client connect sendall recv json_dumps quote host port name
                    filters w)
          by_server none missing =
              let e =
                do_get-unknown lib sock channel (filter_spec filters) r d path chan parsed
                  missing in
              subst (Connects filters d none)
                (sym (
                  connect-answered host name port filters w w₁ w₂ w₃ h unknown_channel false up sent
                    served.0
                    (ap (λ q. q.1.replies) e ∙ ap (λ rs. rs ++ (unknown_channel ∷ [])) fresh)
                    refuses))
                (refl, ap (λ q. q.servers) served.1 ∙ ap (λ q. q.1.servers) e)
          by_server (some s) known =
              subst (Connects filters d (some s))
                (sym (
                  connect-answered host name port filters w w₁ w₂ w₃ h switching_reply true up sent
                    served.0
                    (do_get-switching lib sock channel (filter_spec filters) r d path chan parsed s
                        known
                      ∙ ap (λ rs. rs ++ (switching_reply ∷ [])) fresh)
                    accepts))
                (
                  refl,
                  (λ stopped.
                      ap (λ q. q.servers) served.1
                      ∙ ap (λ q. q.1.servers)
                          (do_get-stopped lib sock channel (filter_spec filters) r d path chan
                            parsed s known stopped)),
                  (λ runs streams admits.
                      let (s', e, listens, joined) =
                        do_get-running lib sock channel (filter_spec filters) r d path chan parsed s
                          known runs streams admits in
                      (s', ap (λ q. q.servers) served.1 ∙ ap (λ q. q.1.servers) e, joined)),
                )
