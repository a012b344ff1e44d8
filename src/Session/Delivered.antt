-- ===== src/Session/Delivered.antt =====
-- The first frame of the bus after a subscription.
use sockcan.Prelude.{ℕ, ◌+◌, ◌≤◌, List, [], ◌∷◌, ◌++◌, ◌≡◌, ◌≢◌, ap, ap₂, ◌∙◌, subst}
use sockcan.Prelude.{true, false, ◌==◌, ==_self, if◌then◌else◌, some, All, Result, ok, length}
use sockcan.Prelude.{dict_get, dict_set, append-nil, ◌&&◌}
use sockcan.Filters.{FilterSpec, frame_matches, normalize_filters}
use sockcan.Backlog.{Frame, consumer_backlog_size}
use sockcan.Server.{Server}
use sockcan.Server.Listening.{Admits}
use sockcan.Server.View.{view, Sends}
use sockcan.Receive.{dispatch}
use sockcan.Receive.Turn.{additions, additions_other}
use sockcan.Receive.Turn.{Accepts, IsReady}
use sockcan.Receive.FanOut.{dispatch_fan_out}
use sockcan.Daemon.{Library, GetRequest, Daemon, subscription, waiting, parse_filters}
use sockcan.Daemon.{do_get, send, switching_reply}
use sockcan.Session.Handled.{do_get-running}
use sockcan.Session.Served.{client, after, listen_to-others, listen_to-own, after-IsReady}
use sockcan.Session.Served.{after_room, additions-append, additions_absent}

module _ {W : Type 0} (delivered : W → ℕ → List Frame)
    (send_fn : ℕ → Frame → W → Result (Unit {0}) × W)
    (sends : (fd : ℕ) (g : Frame) (w : W) → Sends delivered w fd g (send_fn fd g w))
    (up : (fd : ℕ) (g : Frame) (w : W) → Accepts (send_fn fd g w)) where
  -- What the sockets have seen once a subscription and a frame of the bus are through.
  abbrev pub Spreads : ℕ → FilterSpec → Frame → Server W → Server W → Type 0
  Spreads sock spec f s s' =
      (view delivered s' sock
        ≡ delivered s.world sock
          ++ (if frame_matches (normalize_filters spec) f.can_id f.is_extended then f ∷ [] else []))
      × ((j : ℕ)
          → (j == sock) ≡ false
          → view delivered s' j ≡ view delivered s j ++ additions j s.consumers f)

  additions-client :
      (sock : ℕ) (spec : FilterSpec) (f : Frame)
      → additions sock (client sock spec ∷ []) f
        ≡ (if frame_matches (normalize_filters spec) f.can_id f.is_extended then f ∷ [] else [])
  unfolding additions
  additions-client sock spec f =
      append-nil _
      ∙ ap
          (λ b.
            if b && frame_matches (normalize_filters spec) f.can_id f.is_extended
            then f ∷ []
            else [])
          (==_self sock)

  module _ (sock : ℕ) (spec : FilterSpec) (f : Frame) (s : Server W) (streams : s.use_stream ≡ true)
      (admits : Admits s) where
    own_view :
        All (λ c. c.fd ≢ sock) s.consumers
        → view delivered (after sock spec s) sock
            ++ additions sock (s.consumers ++ (client sock spec ∷ [])) f
          ≡ delivered s.world sock
            ++ (if frame_matches (normalize_filters spec) f.can_id f.is_extended
                then f ∷ []
                else [])
    own_view fresh =
        let (consumers, known, io, watched, world) = listen_to-own sock spec s streams admits in
        ap₂ (◌++◌)
          (ap₂ (λ w x. delivered w sock ++ x.outbound) world io
            ∙ append-nil (delivered s.world sock))
          (additions-append sock s.consumers (client sock spec) f
            ∙ ap (λ xs. xs ++ additions sock (client sock spec ∷ []) f)
                (additions_absent sock s.consumers f fresh)
            ∙ additions-client sock spec f)

    other_view :
        (j : ℕ)
        → (j == sock) ≡ false
        → view delivered (after sock spec s) j
            ++ additions j (s.consumers ++ (client sock spec ∷ [])) f
          ≡ view delivered s j ++ additions j s.consumers f
    other_view j other =
        let (consumers, known, io, watched, world) = listen_to-own sock spec s streams admits in
        ap₂ (◌++◌)
          (ap₂ (λ w x. delivered w j ++ x.outbound) world
            (listen_to-others sock spec s streams admits j other).1)
          (additions-append j s.consumers (client sock spec) f
            ∙ ap (λ xs. additions j s.consumers f ++ xs)
                (additions_other (client sock spec) f j other)
            ∙ append-nil (additions j s.consumers f))

    dispatch-Spreads :
        All (IsReady s) s.consumers
        → All (λ c. c.fd ≢ sock) s.consumers
        → ((j : ℕ) → length (s.io j).outbound + length s.consumers + 1 ≤ consumer_backlog_size)
        → (s' : Server W) × (dispatch send_fn (after sock spec s).consumers f (after sock spec s)
            ≡ (ok tt, s'))
          × Spreads sock spec f s s'
    dispatch-Spreads ready fresh room =
        let (consumers, known, io, watched, world) = listen_to-own sock spec s streams admits in
        let (s', raised, seen) =
          dispatch_fan_out send_fn delivered sends up (s.consumers ++ (client sock spec ∷ [])) f
            (after sock spec s) (after-IsReady sock spec s streams admits s.consumers ready fresh)
            (after_room sock spec s streams admits room) in
        (
          s',
          ap (λ cs. dispatch send_fn cs f (after sock spec s)) consumers ∙ raised,
          (seen sock ∙ own_view fresh, λ j other. seen j ∙ other_view j other),
        )

  -- A client subscribes, over a socket that no consumer has yet and that can be set up, to a running
  -- stream server of the daemon, where its bus takes the filters, no socket fails for good, all the consumers have their entry and are watched, and
  -- the backlogs have room for a frame and a consumer more. Then its request waits with the connection
  -- open, and the next frame of the bus raises nothing: the new client's socket and backlog have
  -- exactly that frame behind what its socket took before, if its filters match it, and nothing
  -- otherwise; every other consumer gets the frame as if there were no new client.
  pub subscription-Spreads :
      (lib : Library) (sock channel : ℕ) (spec : FilterSpec) (r : GetRequest) (d : Daemon W)
      (s : Server W) (f : Frame)
      → r.path ≡ subscription
      → r.channel ≡ some channel
      → parse_filters lib r.filters ≡ ok spec
      → dict_get channel d.servers ≡ some s
      → s.running ≡ true
      → s.use_stream ≡ true
      → Admits s
      → All (IsReady s) s.consumers
      → All (λ c. c.fd ≢ sock) s.consumers
      → ((j : ℕ) → length (s.io j).outbound + length s.consumers + 1 ≤ consumer_backlog_size)
      → (s' : Server W) × (s'' : Server W) × (do_get lib sock r d
          ≡ (waiting, record (send switching_reply d) { servers = dict_set channel s' d.servers }))
        × (dispatch send_fn s'.consumers f s' ≡ (ok tt, s''))
        × Spreads sock spec f s s''
  subscription-Spreads lib sock channel spec r d s f path chan parsed known runs streams admits
        ready fresh room =
      let (s', handled, listens, joined) =
        do_get-running lib sock channel spec r d path chan parsed s known runs streams admits in
      let (s'', raised, spreads) = dispatch-Spreads sock spec f s streams admits ready fresh room in
      (
        s',
        s'',
        handled,
        subst (λ t. dispatch send_fn t.consumers f t ≡ (ok tt, s'')) (ap (λ q. q.1) listens) raised,
        spreads,
      )
