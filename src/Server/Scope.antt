-- ===== src/Server/Scope.antt =====
-- src/sockcan/daemon/_server.py: the context manager of a server, and the wait for its threads.
use sockcan.Prelude.{List, [], ◌∷◌, true, false, Option, none, some, Result, ok, raise}
use sockcan.Server.{Server, ThreadKind}
use sockcan.Threads.{init}

module _ {W : Type 0} where
  -- `factory` around a body, with what `can.Bus` gave and the bus's own exit. The server itself is not
  -- stopped.
  unfoldable pub factory :
      (W → W)
      → (Server W → Result (Unit {0}) × Server W)
      → Result W
      → Result (Unit {0}) × Option (Server W)
  factory bus_exit body (raise e) = (raise e, none)
  factory bus_exit body (ok w) =
      let (r, s) = body (init true false w) in (r, some (record s { world = bus_exit s.world }))

  -- The loop of `join`: a thread that does not end is waited for for ever.
  unfoldable pub join_threads :
      (ThreadKind → Server W → Option (Server W)) → List ThreadKind → Server W → Option (Server W)
  join_threads wait [] s = some s
  join_threads wait (thread ∷ threads) s = elim (wait thread s) [
    | none ↦ none
    | some s' ↦ join_threads wait threads s'
  ]

  unfoldable pub join_server :
      (ThreadKind → Server W → Option (Server W)) → Server W → Option (Server W)
  unfolding join_threads
  join_server wait s = join_threads wait s.threads s
