-- ===== src/Server/Subscribe.antt =====
-- src/sockcan/daemon/_server.py: what a subscription does to the server and to the bus.
use sockcan.Prelude.{ℕ, [], ◌∷◌, ◌++◌, Bool, true, ◌||◌}
use sockcan.Prelude.{◌⊎◌, raise, Result}
use sockcan.Prelude.{◌≡◌, some, ok}
use sockcan.Filters.{FilterSpec, frame_matches, normalize_filters}
use sockcan.Filters.Union.{anyone_wants}
use sockcan.Server.{Server, read}

module _ {W : Type 0} where
  -- What a new subscription brings about: the socket is watched for reading with nothing waiting,
  -- and the bus's filters accept the frames that the consumers want, the new one's added.
  abbrev pub Subscribed : ℕ → FilterSpec → Server W → Server W → Type 0
  Subscribed ours spec s s' =
      (s'.known ours ≡ true)
      × (s'.selector ours ≡ some read)
      × ((s'.io ours).outbound ≡ [])
      × ((i : ℕ) (e : Bool)
          → frame_matches s'.bus_filters i e
            ≡ (anyone_wants s.consumers i e || frame_matches (normalize_filters spec) i e))

  -- How a subscription ends: with the new consumer; or with an exception of the socket pair or of the
  -- set-up of its socket, and nothing has changed; or with the exception of a bus that refuses the
  -- filters, and the consumer is in the list, but nobody watches its socket and the bus has the
  -- filters from before.
  abbrev pub Outcome : ℕ → FilterSpec → Server W → Result (Unit {0}) × Server W → Type 0
  Outcome ours spec s (ok _, s') = Subscribed ours spec s s'
  Outcome ours spec s (raise e, s') =
      ((s' ≡ s) × ((s.surroundings.pair ≡ raise e) ⊎ (s.surroundings.prepare ≡ raise e)))
      ⊎ ((s.surroundings.set_filters ≡ raise e)
          × (s'.consumers
              ≡ s.consumers ++ (record { fd = ours; filters = normalize_filters spec } ∷ []))
          × (s'.selector ≡ s.selector)
          × (s'.bus_filters ≡ s.bus_filters))
