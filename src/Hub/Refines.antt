-- ===== src/Hub/Refines.antt =====
-- The server with its sockets and backlogs implements the hub.
use sockcan.Prelude.{
  ℕ, suc, ◌+◌, ◌*◌, ◌≤◌, List, [], ◌∷◌, ◌++◌, ◌≡◌, refl, sym, ap, ◌∙◌, arith, true,
}
use sockcan.Prelude.{Result, ok, raise, and_then, append-nil, length, subst, All, if-keeps}
use sockcan.Filters.{Consumer}
use sockcan.Backlog.{Frame, consumer_backlog_size}
use sockcan.Server.{Server}
use sockcan.Server.View.{Sends, view, IsWatched}
use sockcan.Receive.Turn.{additions, Accepts, IsReady, Stays, Grown, still-IsReady}
use sockcan.Receive.FanOut.{dispatch-Grown}
use sockcan.Transmit.{forward_all, after_read, on_write}
use sockcan.Transmit.Relay.{others, forward_all-Grown}
use sockcan.Hub.{Hub, HubEvent, from_bus, from_client, drains, hub_step, hub_run, server_step}
use sockcan.Hub.{server_run}
use sockcan.Hub.Writes.{on_write-Grown}

-- What an event brings to each socket.
adds : HubEvent → List Consumer → ℕ → List Frame
adds (from_bus f) cs j = additions j cs f
adds (from_client source f) cs j = additions j (others source cs) f
adds (drains fd) cs j = []

-- The selector reports a socket only while it watches it.
abbrev pub IsPossible : {W : Type 0} → Server W → HubEvent → Type 0
IsPossible s (from_bus f) = Unit
IsPossible s (from_client source f) = Unit
IsPossible s (drains fd) = IsWatched s fd

module _ {W : Type 0} (delivered : W → ℕ → List Frame) where
  -- The server's state stands for the hub's: the same consumers, and each has the same frames.
  pub record Refines (h : Hub) (s : Server W) : Type 0 where
    pub consumers_agree : s.consumers ≡ h.subscribers
    pub seen_agrees : (j : ℕ) → view delivered s j ≡ h.seen j

  Grown-more :
      (xs : ℕ → List Frame) (m n : ℕ) (s : Server W) (r : Result (Unit {0}) × Server W)
      → m ≤ n
      → Grown delivered xs m s r
      → Grown delivered xs n s r
  Grown-more xs m n s r more g = record {
    returns = g.returns;
    seen = g.seen;
    growth = λ j. omega (arith, g.growth j);
    stays = g.stays;
  }

  module _ (send : ℕ → Frame → W → Result (Unit {0}) × W) (recv : ℕ → W → Result Frame × W)
      (bus_send : Frame → W → Result (Unit {0}) × W)
      (sends : (fd : ℕ) (g : Frame) (w : W) → Sends delivered w fd g (send fd g w))
      (up : (fd : ℕ) (g : Frame) (w : W) → Accepts (send fd g w))
      (bus_up : (f : Frame) (w : W) → (bus_send f w).0 ≡ ok tt)
      (bus_apart : (f : Frame) (w : W) (j : ℕ) → delivered (bus_send f w).1 j ≡ delivered w j) where
    -- The bus takes the frame, if there is one.
    after_read-Grown :
        (fd : ℕ) (f : Frame) (s : Server W) (xs : ℕ → List Frame) (n : ℕ)
        → Grown delivered xs n s (forward_all send fd s.consumers f s)
        → Grown delivered xs n s (after_read send recv bus_send fd s (ok f, s.world))
    unfolding after_read
    after_read-Grown fd f s xs n g =
        let t = (forward_all send fd s.consumers f s).1 in
        rw (g.returns, after_read)
          (if-keeps (Grown delivered xs n s) t.has_bus _ (ok tt, t)
            (record {
              returns = bus_up f t.world;
              seen = λ j. ap (λ l. l ++ (t.io j).outbound) (bus_apart f t.world j) ∙ g.seen j;
              growth = g.growth;
              stays = g.stays;
            })
            (record { returns = refl; seen = g.seen; growth = g.growth; stays = g.stays }))

    server_step-Grown :
        (e : HubEvent) (s : Server W)
        → s.use_stream ≡ true
        → All (IsReady s) s.consumers
        → IsPossible s e
        → ((j : ℕ) → length (s.io j).outbound + length s.consumers ≤ consumer_backlog_size)
        → Grown delivered
            (adds e s.consumers)
            (length s.consumers)
            s
            (server_step send recv bus_send e s)
    unfolding server_step adds
    server_step-Grown (from_bus f) s stream ready here room =
        dispatch-Grown send delivered sends up s.consumers f s ready room
    server_step-Grown (from_client fd f) s stream ready here room =
        after_read-Grown fd f s (λ j. additions j (others fd s.consumers) f) (length s.consumers)
          (forward_all-Grown send delivered sends up fd s.consumers f s ready room)
    server_step-Grown (drains fd) s stream ready here room =
        Grown-more (λ j. []) 0 (length s.consumers) s (on_write send fd s) (omega arith)
          (on_write-Grown send delivered sends up fd s stream here)

    hub_step_subscribers : (e : HubEvent) (h : Hub) → (hub_step e h).subscribers ≡ h.subscribers
    unfolding hub_step
    hub_step_subscribers (from_bus f) h = refl
    hub_step_subscribers (from_client fd f) h = refl
    hub_step_subscribers (drains fd) h = refl

    hub_step_seen :
        (e : HubEvent) (h : Hub) (j : ℕ)
        → (hub_step e h).seen j ≡ h.seen j ++ adds e h.subscribers j
    unfolding hub_step adds
    hub_step_seen (from_bus f) h j = refl
    hub_step_seen (from_client fd f) h j = refl
    hub_step_seen (drains fd) h j = sym (append-nil (h.seen j))

    hub_step-Refines :
        (e : HubEvent) (h : Hub) (s : Server W) (n : ℕ) (r : Result (Unit {0}) × Server W)
        → Refines h s
        → Grown delivered (adds e s.consumers) n s r
        → Refines (hub_step e h) r.1
    hub_step-Refines e h s n r same g = record {
      consumers_agree = g.stays.0 ∙ same.consumers_agree ∙ sym (hub_step_subscribers e h);
      seen_agrees = λ j.
          g.seen j
          ∙ ap (λ v. v ++ adds e s.consumers j) (same.seen_agrees j)
          ∙ ap (λ cs. h.seen j ++ adds e cs j) same.consumers_agree
          ∙ sym (hub_step_seen e h j);
    }

    IsPossible-Stays :
        (s s' : Server W) (es : List HubEvent)
        → Stays s s'
        → All (IsPossible s) es
        → All (IsPossible s') es
    IsPossible-Stays s s' [] stays h = tt
    IsPossible-Stays s s' (from_bus f ∷ es) stays h = (tt, IsPossible-Stays s s' es stays h.1)
    IsPossible-Stays s s' (from_client fd f ∷ es) stays h = (tt, IsPossible-Stays s s' es stays h.1)
    IsPossible-Stays s s' (drains fd ∷ es) stays h =
        (stays.4 fd h.0, IsPossible-Stays s s' es stays h.1)

    room_left : (m a b c : ℕ) → a + suc m * c ≤ 10000 → b ≤ a + c → b + m * c ≤ 10000
    room_left m a b c h g = omega (arith, h, g)

    and_then-ok :
        (x : Result (Unit {0}) × Server W) (f : Server W → Result (Unit {0}) × Server W)
        → x.0 ≡ ok tt
        → and_then x f ≡ f x.1
    and_then-ok (ok u, s) f h = refl
    and_then-ok (raise e, s) f h = ground (arith, h)

    -- A stream server whose sockets are never worse than full, whose bus takes what it is given,
    -- and whose consumers all have their entry and are watched by the selector, shows them what the
    -- hub shows them: from a state that stands for the hub's, after any events in any order, frames
    -- of the bus, frames of the clients and watched sockets that take frames again, no handler has
    -- raised and each consumer has exactly the frames of the hub, in the same order, in its socket
    -- or in its backlog behind it. The backlogs have room for one frame for each event and
    -- consumer.
    pub hub_refinement :
        (events : List HubEvent) (h : Hub) (s : Server W)
        → Refines h s
        → s.use_stream ≡ true
        → All (IsReady s) s.consumers
        → All (IsPossible s) events
        → ((j : ℕ)
            → length (s.io j).outbound + length events * length s.consumers ≤ consumer_backlog_size)
        → ((server_run send recv bus_send events s).0 ≡ ok tt)
          × Refines (hub_run events h) (server_run send recv bus_send events s).1
    unfolding hub_run server_run
    hub_refinement [] h s same stream ready possible room = (refl, same)
    hub_refinement (e ∷ es) h s same stream ready possible room =
        let g = server_step-Grown e s stream ready possible.0 (λ j. omega (arith, room j)) in
        let s₁ = (server_step send recv bus_send e s).1 in
        let same' = hub_step-Refines e h s _ (server_step send recv bus_send e s) same g in
        subst (λ r. (r.0 ≡ ok tt) × Refines (hub_run (e ∷ es) h) r.1)
          (sym (
            and_then-ok (server_step send recv bus_send e s) (server_run send recv bus_send es)
              g.returns))
          (hub_refinement es (hub_step e h) s₁ same' (g.stays.2 ∙ stream)
            (subst (All (IsReady s₁)) (sym g.stays.0)
              (still-IsReady s s₁ s.consumers g.stays ready))
            (IsPossible-Stays s s₁ es g.stays possible.1)
            (λ j.
              subst
                (λ cs. length (s₁.io j).outbound + length es * length cs ≤ consumer_backlog_size)
                (sym g.stays.0)
                (room_left (length es) (length (s.io j).outbound) (length (s₁.io j).outbound)
                  (length s.consumers) (room j) (g.growth j))))
