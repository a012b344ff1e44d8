-- ===== src/Server/Listening.antt =====
-- src/sockcan/daemon/_server.py: how `listen_to` ends, by what the platform and the bus answer.
use sockcan.Prelude.{ℕ, ◌≡◌, refl, arith, Bool, true, false, ◌||◌, ◌⊎◌, inl, inr}
use sockcan.Prelude.{if◌then◌else◌, Result, ok, raise, Exception}
use sockcan.Filters.{FilterSpec, normalize_filters, aggregate_filters}
use sockcan.Server.{Server, add_consumer, refresh_bus_filters, watch, listen_to}

-- The socket can be set up, and a bus takes the filters.
pub record Admits {W : Type 0} (s : Server W) : Type 0 where
  pub prepares : s.surroundings.prepare ≡ ok tt
  pub takes : s.has_bus ≡ true → s.surroundings.set_filters ≡ ok tt

module _ {W : Type 0} (fd : ℕ) (is_dgram force : Bool) (spec : FilterSpec) (s : Server W) where
  -- The server with the new consumer, before the bus has its filters.
  abbrev pub added : Server W
  added = add_consumer fd (normalize_filters spec) s

  abbrev pub joined : Server W
  joined = watch fd (record added {
    bus_filters = if s.has_bus then aggregate_filters added.consumers else s.bus_filters;
  })

  -- The socket could not be set up, or the bus refused the filters once the consumer was added, or
  -- the consumer has joined.
  abbrev pub Ends : Result (Unit {0}) × Server W → Type 0
  Ends r =
      ((e : Exception) × (s.surroundings.prepare ≡ raise e) × (r ≡ (raise e, s)))
      ⊎ (((e : Exception) × (s.has_bus ≡ true)
            × (s.surroundings.set_filters ≡ raise e)
            × (r ≡ (raise e, added)))
          ⊎ (r ≡ (ok tt, joined)))

  module _ (fits : ((s.use_stream || force) || is_dgram) ≡ true) where
    listen_to-by :
        (p q : Result (Unit {0})) (b : Bool)
        → s.surroundings.prepare ≡ p
        → s.surroundings.set_filters ≡ q
        → s.has_bus ≡ b
        → Ends (listen_to fd is_dgram spec force s)
    unfolding listen_to refresh_bus_filters add_consumer
    listen_to-by (raise e) q b prepared set bus = inl (e, prepared, ground (arith, fits, prepared))
    listen_to-by (ok u) (raise e) true prepared set bus =
        inr (inl (e, bus, set, ground (arith, fits, prepared, set, bus)))
    listen_to-by (ok u) (ok v) true prepared set bus =
        inr (inr (ground (arith, fits, prepared, set, bus)))
    listen_to-by (ok u) q false prepared set bus = inr (inr (ground (arith, fits, prepared, bus)))

    pub listen_to-Ends : Ends (listen_to fd is_dgram spec force s)
    listen_to-Ends =
        listen_to-by s.surroundings.prepare s.surroundings.set_filters s.has_bus refl refl refl

    pub listen_to-joined : Admits s → listen_to fd is_dgram spec force s ≡ (ok tt, joined)
    listen_to-joined willing = elim listen_to-Ends [
      | inl (e, prepared, r) ↦ ground (arith, willing.prepares, prepared)
      | inr (inl (e, bus, set, r)) ↦ ground (arith, willing.takes bus, set)
      | inr (inr r) ↦ r
    ]
