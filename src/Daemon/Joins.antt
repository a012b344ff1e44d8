-- ===== src/Daemon/Joins.antt =====
-- src/sockcan/daemon/_server.py: what `listen_to` makes of the connection of a client.
use sockcan.Prelude.{ℕ, [], ◌∷◌, ◌++◌, ◌≡◌, refl, true, false}
use sockcan.Prelude.{arith, runtime_error}
use sockcan.Prelude.{Exception, Bool-cases, ==_self, sym, subst}
use sockcan.Prelude.{Result, ok, raise, ◌⊎◌, inl, inr}
use sockcan.Filters.{Consumer, FilterSpec, normalize_filters}
use sockcan.Backlog.{fresh_io}
use sockcan.Server.{Server, listen_to, add_consumer, register, watch, wake}
use sockcan.Server.Listening.{Admits, joined, Ends, listen_to-Ends, listen_to-joined}

module _ {W : Type 0} where
  -- The server has one consumer more, with an empty backlog, and runs as before.
  abbrev pub Joined : Consumer → Server W → Server W → Type 0
  Joined c s s' =
      (s'.consumers ≡ s.consumers ++ (c ∷ []))
      × (s'.known c.fd ≡ true)
      × (s'.io c.fd ≡ fresh_io)
      × (s'.running ≡ s.running)

  -- The server has the consumer in its list, but its bus has refused the filters, with this exception,
  -- and its selector is as before.
  abbrev pub Refused : Consumer → Exception → Server W → Server W → Type 0
  Refused c e s s' =
      (s.has_bus ≡ true)
      × (s.surroundings.set_filters ≡ raise e)
      × (s'.consumers ≡ s.consumers ++ (c ∷ []))
      × (s'.selector ≡ s.selector)
      × (s'.bus_filters ≡ s.bus_filters)

  abbrev pub Listens : ℕ → FilterSpec → Server W → Result (Unit {0}) × Server W → Type 0
  Listens sock spec s (ok _, s') =
      Joined (record { fd = sock; filters = normalize_filters spec }) s s'
  Listens sock spec s (raise e, s') =
      (s' ≡ s) ⊎ Refused (record { fd = sock; filters = normalize_filters spec }) e s s'

  joined-Joined :
      (sock : ℕ) (spec : FilterSpec) (s : Server W)
      → Joined
          (record { fd = sock; filters = normalize_filters spec })
          s
          (joined sock false false spec s)
  unfolding add_consumer watch register wake
  joined-Joined sock spec s =
      (ground arith, ground (arith, ==_self sock), ground (arith, ==_self sock), ground arith)

  Ends-Listens :
      (sock : ℕ) (spec : FilterSpec) (s : Server W) (r : Result (Unit {0}) × Server W)
      → Ends sock false false spec s r
      → Listens sock spec s r
  unfolding add_consumer
  Ends-Listens sock spec s r (inl (e, raised, is)) = subst (Listens sock spec s) (sym is) (inl refl)
  Ends-Listens sock spec s r (inr (inl (e, bus, raised, is))) =
      subst (Listens sock spec s) (sym is) (inr (bus, raised, refl, refl, refl))
  Ends-Listens sock spec s r (inr (inr is)) =
      subst (Listens sock spec s) (sym is) (joined-Joined sock spec s)

  listen_to_mismatch :
      (sock : ℕ) (spec : FilterSpec) (s : Server W)
      → s.use_stream ≡ false
      → (raise runtime_error, s) ≡ listen_to sock false spec false s
  unfolding listen_to
  listen_to_mismatch sock spec s datagrams = ground (arith, datagrams)

  pub listen_to-Listens :
      (sock : ℕ) (spec : FilterSpec) (s : Server W)
      → Listens sock spec s (listen_to sock false spec false s)
  listen_to-Listens sock spec s = elim (Bool-cases s.use_stream) [
    | inl streams ↦
        Ends-Listens sock spec s (listen_to sock false spec false s)
          (listen_to-Ends sock false false spec s (ground (arith, streams)))
    | inr datagrams ↦
        let refused : (raise runtime_error, s) ≡ listen_to sock false spec false s =
          listen_to_mismatch sock spec s datagrams in
        subst (Listens sock spec s) refused (inl refl)
  ]

module _ {W : Type 0} where
  -- A stream server takes every stream that can be set up, if its bus takes the filters.
  pub listen_to-Joined :
      (sock : ℕ) (spec : FilterSpec) (s : Server W)
      → s.use_stream ≡ true
      → Admits s
      → (s' : Server W) × (listen_to sock false spec false s ≡ (ok tt, s'))
        × Joined (record { fd = sock; filters = normalize_filters spec }) s s'
  listen_to-Joined sock spec s streams admits = (
    joined sock false false spec s,
    listen_to-joined sock false false spec s (ground (arith, streams)) admits,
    joined-Joined sock spec s,
  )
