-- ===== src/Session/Handled.antt =====
-- src/sockcan/daemon/_server.py: what `do_GET` makes of a subscription, by the server of its channel.
use sockcan.Prelude.{ℕ, [], ◌∷◌, ◌++◌, ◌≡◌, refl, ap, ◌∙◌, true, if-keeps, false, none, some}
use sockcan.Prelude.{Result, ok, assertion_error, codes, arith}
use sockcan.Prelude.{dict_get, dict_set, if◌then◌else◌}
use sockcan.Filters.{FilterSpec, normalize_filters}
use sockcan.Server.{Server, listen_to}
use sockcan.Daemon.{Daemon, GetRequest, subscription, Library, Reply, Handled, returned, waiting}
use sockcan.Daemon.{failed, after_listen, send, upgrade, do_get, parse_filters, text_reply}
use sockcan.Daemon.{switching_reply}
use sockcan.Server.Listening.{Admits}
use sockcan.Daemon.Joins.{Joined, listen_to-Joined}
use sockcan.Daemon.Answers.{do_get-upgrade}

-- The refusal of a channel that the daemon does not have.
abbrev pub unknown_channel : Reply
unknown_channel = text_reply 400 (codes "Requested channel is not managed by this daemon")

-- The request after the outcome of `listen_to`.
abbrev joined_by : {W : Type 0} → ℕ → Daemon W → Result (Unit {0}) × Server W → Handled × Daemon W
joined_by channel d q =
    (after_listen q.0, record (send switching_reply d) { servers = dict_set channel q.1 d.servers })

upgrade-if :
    {W : Type 0} (sock channel : ℕ) (spec : FilterSpec) (s : Server W) (d : Daemon W)
    → upgrade sock channel spec s (send switching_reply d) ≡ (
        if s.running
        then joined_by channel d (listen_to sock false spec false s)
        else (failed assertion_error, send switching_reply d))
unfolding upgrade send
upgrade-if sock channel spec s d = refl

module _ {W : Type 0} (lib : Library) (sock channel : ℕ) (spec : FilterSpec) (r : GetRequest)
    (d : Daemon W) (path : r.path ≡ subscription) (chan : r.channel ≡ some channel)
    (parsed : parse_filters lib r.filters ≡ ok spec) where
  pub do_get-unknown :
      dict_get channel d.servers ≡ none → do_get lib sock r d ≡ (returned, send unknown_channel d)
  unfolding do_get
  do_get-unknown unknown = ground (arith, path, chan, unknown)

  pub do_get-stopped :
      (s : Server W)
      → dict_get channel d.servers ≡ some s
      → s.running ≡ false
      → do_get lib sock r d ≡ (failed assertion_error, send switching_reply d)
  do_get-stopped s known stopped =
      do_get-upgrade lib sock r d channel spec s path chan parsed known
      ∙ upgrade-if sock channel spec s d
      ∙ ap
          (λ b.
            if b
            then joined_by channel d (listen_to sock false spec false s)
            else (failed assertion_error, send switching_reply d))
          stopped

  pub do_get-switching :
      (s : Server W)
      → dict_get channel d.servers ≡ some s
      → (do_get lib sock r d).1.replies ≡ d.replies ++ (switching_reply ∷ [])
  unfolding send
  do_get-switching s known =
      ap (λ q. q.1.replies)
        (do_get-upgrade lib sock r d channel spec s path chan parsed known
          ∙ upgrade-if sock channel spec s d)
      ∙ if-keeps (λ q. q.1.replies ≡ d.replies ++ (switching_reply ∷ [])) s.running
          (joined_by channel d (listen_to sock false spec false s))
          (failed assertion_error, send switching_reply d) refl refl

  pub do_get-running :
      (s : Server W)
      → dict_get channel d.servers ≡ some s
      → s.running ≡ true
      → s.use_stream ≡ true
      → Admits s
      → (s' : Server W) × (do_get lib sock r d
          ≡ (waiting, record (send switching_reply d) { servers = dict_set channel s' d.servers }))
        × (listen_to sock false spec false s ≡ (ok tt, s'))
        × Joined (record { fd = sock; filters = normalize_filters spec }) s s'
  do_get-running s known runs streams admits =
      let (s', listens, joined) = listen_to-Joined sock spec s streams admits in
      (
        s',
        do_get-upgrade lib sock r d channel spec s path chan parsed known
            ∙ upgrade-if sock channel spec s d
            ∙ ap
                (λ b.
                  if b
                  then joined_by channel d (listen_to sock false spec false s)
                  else (failed assertion_error, send switching_reply d))
                runs
            ∙ ap (joined_by channel d) listens,
        listens,
        joined,
      )
