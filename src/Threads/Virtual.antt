-- ===== src/Threads/Virtual.antt =====
-- A virtual server has no RX thread, and only that thread removes consumers.
use sockcan.Prelude.{ℕ, List, [], ◌∷◌, ◌++◌, ◌≡◌, ap, ◌∙◌, arith, Bool, true, false}
use sockcan.Prelude.{Result}
use sockcan.Filters.{Consumer, FilterSpec, normalize_filters}
use sockcan.Backlog.{Frame}
use sockcan.Server.{Server, Direction, listen_to, start, stop}
use sockcan.Receive.{has_consumer}
use sockcan.Transmit.{on_write, on_read}
use sockcan.Transmit.Keeps.{Keeps, on_write-Keeps, on_read-Keeps}
use sockcan.Threads.{
  Step, Reach, has_rx, here, next, listens, surrounded, starts, stops, reaps, dispatches, reads,
  writes,
}

-- A server that is virtual and has no RX thread, with a consumer on `fd`.
abbrev pub IsStuckWith : {W : Type 0} → ℕ → Server W → Type 0
IsStuckWith fd s =
    (s.has_bus ≡ false) × (has_rx s.threads ≡ false) × (has_consumer fd s.consumers ≡ true)

has_consumer-append :
    (fd : ℕ) (cs ds : List Consumer) → has_consumer fd cs ≡ true → has_consumer fd (cs ++ ds) ≡ true
unfolding has_consumer
has_consumer-append fd [] ds h = cc
has_consumer-append fd (c ∷ cs) ds h = ground (arith, has_consumer-append fd cs ds)

module _ {W : Type 0} (send : ℕ → Frame → W → Result (Unit {0}) × W)
    (recv : ℕ → W → Result Frame × W) (bus_send : Frame → W → Result (Unit {0}) × W) where
  keep_stuck : (fd : ℕ) (s t : Server W) → Keeps s t → IsStuckWith fd s → IsStuckWith fd t
  keep_stuck fd s t k v = (k.1 ∙ v.0, ap has_rx k.2 ∙ v.1, ap (has_consumer fd) k.0 ∙ v.2)

  listen_to-IsStuckWith :
      (fd fd' : ℕ) (is_dgram : Bool) (spec : FilterSpec) (force : Bool) (s : Server W)
      → IsStuckWith fd s
      → IsStuckWith fd (listen_to fd' is_dgram spec force s).1
  unfolding listen_to
  listen_to-IsStuckWith fd fd' is_dgram spec force s v = ground (
    arith,
    has_consumer-append fd s.consumers (record { fd = fd'; filters = normalize_filters spec } ∷ []),
  )

  start-IsStuckWith :
      (fd : ℕ) (d : Direction) (s : Server W) → IsStuckWith fd s → IsStuckWith fd (start d s).1
  unfolding start has_rx
  start-IsStuckWith fd d s v = ground arith

  stop-IsStuckWith : (fd : ℕ) (s : Server W) → IsStuckWith fd s → IsStuckWith fd (stop s)
  unfolding stop
  stop-IsStuckWith fd s v = ground arith

  Step-IsStuckWith :
      (fd : ℕ) (s : Server W) {t : Server W}
      → Step send recv bus_send s t
      → IsStuckWith fd s
      → IsStuckWith fd t
  Step-IsStuckWith fd s (listens fd' is_dgram spec force) v =
      listen_to-IsStuckWith fd fd' is_dgram spec force s v
  Step-IsStuckWith fd s (surrounded x) v = v
  Step-IsStuckWith fd s (starts d) v = start-IsStuckWith fd d s v
  Step-IsStuckWith fd s stops v = stop-IsStuckWith fd s v
  Step-IsStuckWith fd s (reaps runs) v = cc
  Step-IsStuckWith fd s (dispatches f runs) v = cc
  Step-IsStuckWith fd s (reads fd') v =
      keep_stuck fd s (on_read send recv bus_send fd' s).1 (on_read-Keeps send recv bus_send fd' s)
        v
  Step-IsStuckWith fd s (writes fd') v =
      keep_stuck fd s (on_write send fd' s).1 (on_write-Keeps send recv bus_send fd' s) v

  -- A consumer of a virtual server stays in the list for good, whatever happens to its connection:
  -- no step removes it, whether the server is stopped, started again, or has reported the consumer
  -- as dead.
  pub virtual_never_reaps :
      (fd : ℕ) (s : Server W) {t : Server W}
      → IsStuckWith fd s
      → Reach send recv bus_send s t
      → IsStuckWith fd t
  virtual_never_reaps fd s v here = v
  virtual_never_reaps fd s v (next {t} r st) =
      Step-IsStuckWith fd t st (virtual_never_reaps fd s v r)
