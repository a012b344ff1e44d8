-- ===== src/Session/Served.antt =====
-- A client that has subscribed, and the next frame of the bus.
use sockcan.Prelude.{ℕ, ◌+◌, ◌≤◌, List, [], ◌∷◌, ◌++◌, ◌≡◌, ◌≢◌, refl, sym, ap, ◌∙◌, subst, arith}
use sockcan.Prelude.{true, false, ◌==◌, ==_self, ==_iff, if◌then◌else◌, All}
use sockcan.Prelude.{length, length-append, append_assoc, ◌&&◌}
use sockcan.Prelude.{Bool-cases, inl, inr}
use sockcan.Filters.{Consumer, FilterSpec, frame_matches, normalize_filters}
use sockcan.Backlog.{Frame, consumer_backlog_size, fresh_io}
use sockcan.Server.{Server, listen_to, add_consumer, register, watch, wake}
use sockcan.Server.Listening.{Admits, joined, listen_to-joined}
use sockcan.Server.View.{IsWatched}
use sockcan.Receive.Turn.{additions, IsReady}

abbrev pub client : ℕ → FilterSpec → Consumer
client sock spec = record { fd = sock; filters = normalize_filters spec }

-- The server after the subscription.
abbrev pub after : {W : Type 0} → ℕ → FilterSpec → Server W → Server W
after sock spec s = (listen_to sock false spec false s).1

module _ {W : Type 0} (sock : ℕ) (spec : FilterSpec) (s : Server W) (streams : s.use_stream ≡ true)
    (admits : Admits s) where
  after_eq : after sock spec s ≡ joined sock false false spec s
  after_eq =
      ap (λ r. r.1) (listen_to-joined sock false false spec s (ground (arith, streams)) admits)

  -- What the subscription leaves as it was for the other sockets.
  pub listen_to-others :
      (j : ℕ)
      → (j == sock) ≡ false
      → ((after sock spec s).known j ≡ s.known j)
        × ((after sock spec s).io j ≡ s.io j)
        × ((after sock spec s).selector j ≡ s.selector j)
  unfolding watch add_consumer register wake
  listen_to-others j other = (
    ground (arith, after_eq, other),
    ground (arith, after_eq, other),
    ground (arith, after_eq, other),
  )

  pub listen_to-own :
      ((after sock spec s).consumers ≡ s.consumers ++ (client sock spec ∷ []))
      × ((after sock spec s).known sock ≡ true)
      × ((after sock spec s).io sock ≡ fresh_io)
      × IsWatched (after sock spec s) sock
      × ((after sock spec s).world ≡ s.world)
  unfolding watch add_consumer register wake
  listen_to-own = (
    ground (arith, after_eq),
    ground (arith, after_eq, ==_self sock),
    ground (arith, after_eq, ==_self sock),
    (λ e. ground (arith, after_eq, ==_self sock, e)),
    ground (arith, after_eq),
  )

  pub after-IsReady :
      (cs : List Consumer)
      → All (IsReady s) cs
      → All (λ c. c.fd ≢ sock) cs
      → All (IsReady (after sock spec s)) (cs ++ (client sock spec ∷ []))
  after-IsReady [] ready fresh =
      let (consumers, known, io, watched, world) = listen_to-own in ((known, watched), tt)
  after-IsReady (c ∷ cs) ready fresh =
      let (known, io, selector) = listen_to-others c.fd (ground (arith, fresh.0)) in
      ((known ∙ ready.0.0, λ e. ready.0.1 (sym selector ∙ e)), after-IsReady cs ready.1 fresh.1)

  pub after_room :
      ((j : ℕ) → length (s.io j).outbound + length s.consumers + 1 ≤ consumer_backlog_size)
      → (j : ℕ)
      → length ((after sock spec s).io j).outbound + length (s.consumers ++ (client sock spec ∷ []))
        ≤ consumer_backlog_size
  after_room room j = elim (Bool-cases (j == sock)) [
    | inl same ↦
        let (consumers, known, io, watched, world) = listen_to-own in
        omega (
          arith,
          room j,
          length-append s.consumers (client sock spec ∷ []),
          subst (λ i. length ((after sock spec s).io i).outbound ≡ 0) (sym ((==_iff j sock).0 same))
              (ap (λ x. length x.outbound) io),
        )
    | inr other ↦ omega (
      arith,
      room j,
      length-append s.consumers (client sock spec ∷ []),
      ap (λ x. length x.outbound) (listen_to-others j other).1,
    )
  ]

pub additions-append :
    (j : ℕ) (cs : List Consumer) (c : Consumer) (f : Frame)
    → additions j (cs ++ (c ∷ [])) f ≡ additions j cs f ++ additions j (c ∷ []) f
unfolding additions
additions-append j [] c f = refl
additions-append j (b ∷ cs) c f =
    ap
      (λ xs.
        (if (j == b.fd) && frame_matches b.filters f.can_id f.is_extended then f ∷ [] else [])
        ++ xs)
      (additions-append j cs c f)
    ∙ sym (append_assoc _ (additions j cs f) (additions j (c ∷ []) f))

pub additions_absent :
    (sock : ℕ) (cs : List Consumer) (f : Frame)
    → All (λ c. c.fd ≢ sock) cs
    → additions sock cs f ≡ []
unfolding additions
additions_absent sock [] f fresh = refl
additions_absent sock (c ∷ cs) f fresh = ground (arith, fresh.0, additions_absent sock cs f fresh.1)
