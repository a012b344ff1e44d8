-- ===== src/Daemon/Global.antt =====
-- src/sockcan/daemon/_server.py: the daemons of a process that `start_daemon_globally` makes and keeps,
-- one for each host and port that is asked for.
use sockcan.Prelude.{ℕ, List, [], ◌∷◌, ◌++◌, ◌≡◌, refl, subst, arith, Bool, true, false}
use sockcan.Prelude.{◌&&◌, ◌==◌, ==_self, if◌then◌else◌, Option, none, some, length, Option-cases}
use sockcan.Prelude.{inl, inr, Result, ok, raise, Text}
use sockcan.Client.{ping_daemon}
use sockcan.Daemon.Life.{SocketcanDaemon, new_daemon, resolve_port, start_daemon}

unfoldable pub same_text : Text → Text → Bool
same_text [] [] = true
same_text (a ∷ s) (b ∷ t) = (a == b) && same_text s t
same_text _ _ = false

-- `cache` has the calls with their results, which are numbers of daemons: the daemons in the order of
-- their making, each of which is stopped at exit.
pub record Globals (W H E : Type 0) : Type 0 where
  pub cache : List (Text × ℕ × ℕ)
  pub daemons : List (SocketcanDaemon W H)
  pub world : E

-- The result that `functools.cache` has for a call.
unfoldable pub cached : Text → ℕ → List (Text × ℕ × ℕ) → Option ℕ
unfolding same_text
cached host port [] = none
cached host port ((h, p, k) ∷ calls) =
    if same_text h host && (p == port) then some k else cached host port calls

same_text_self : (t : Text) → same_text t t ≡ true
unfolding same_text
same_text_self [] = refl
same_text_self (a ∷ t) = ground (arith, ==_self a, same_text_self t)

module _ {W H E : Type 0} (serve_forever : H → H) (bind : Text → ℕ → E → Result (ℕ × H) × E)
    (int : ℕ → Result ℕ) (env_port : Option ℕ) where
  -- An exception is not cached.
  unfoldable pub keep_global :
      Text → ℕ → Globals W H E → Result (Unit {0}) × SocketcanDaemon W H → Result ℕ × Globals W H E
  keep_global host port g (raise x, d) = (raise x, g)
  keep_global host port g (ok _, d) = (
    ok (length g.daemons),
    record g { cache = (host, port, length g.daemons) ∷ g.cache; daemons = g.daemons ++ (d ∷ []) },
  )

  -- What follows the making of a daemon.
  unfoldable pub start_global :
      Text → ℕ → Globals W H E → Result (ℕ × SocketcanDaemon W H) × E → Result ℕ × Globals W H E
  unfolding start_daemon keep_global
  start_global host port g (raise x, e) = (raise x, record g { world = e })
  start_global host port g (ok (bound, d), e) =
      keep_global host port (record g { world = e }) (start_daemon serve_forever d)

  unfoldable pub start_daemon_globally : Text → ℕ → Globals W H E → Result ℕ × Globals W H E
  unfolding new_daemon resolve_port start_global cached
  start_daemon_globally host port g = elim (cached host port g.cache) [
    | some k ↦ (ok k, g)
    | none ↦
        start_global host port g (new_daemon bind host (resolve_port int env_port port) g.world)
  ]

  module _ (connect : Text → ℕ → E → Result (Unit {0}) × E)
      (sendall : Text → E → Result (Unit {0}) × E) (recv : ℕ → E → Result Text × E) where
    -- A daemon of the process, as its number.
    abbrev pub found : Result ℕ × Globals W H E → Result (Option ℕ) × Globals W H E
    found (ok k, g) = (ok (some k), g)
    found (raise x, g) = (raise x, g)

    unfoldable pub after_global_ping :
        Text → ℕ → Globals W H E → Result Bool × E → Result (Option ℕ) × Globals W H E
    unfolding start_daemon_globally
    after_global_ping host port g (raise x, e) = (raise x, record g { world = e })
    after_global_ping host port g (ok true, e) = (ok none, record g { world = e })
    after_global_ping host port g (ok false, e) =
        found (start_daemon_globally host port (record g { world = e }))

    -- `ensure_socketcan_daemon_running`
    unfoldable pub ensure_socketcan_daemon_running :
        Text → ℕ → Globals W H E → Result (Option ℕ) × Globals W H E
    unfolding ping_daemon after_global_ping
    ensure_socketcan_daemon_running host port g =
        if port == 0
        then found (start_daemon_globally host port g)
        else after_global_ping host port g (ping_daemon connect sendall recv host port g.world)

  -- What a call leaves: another call of the same kind gets its daemon.
  abbrev Kept : Text → ℕ → Result ℕ × Globals W H E → Type 0
  Kept host port (raise x, g) = Unit
  Kept host port (ok k, g) = cached host port g.cache ≡ some k

  keep_global-Kept :
      (host : Text) (port : ℕ) (g : Globals W H E) (r : Result (Unit {0}) × SocketcanDaemon W H)
      → Kept host port (keep_global host port g r)
  unfolding keep_global cached
  keep_global-Kept host port g (raise x, d) = tt
  keep_global-Kept host port g (ok u, d) = ground (arith, same_text_self host, ==_self port)

  start_global-Kept :
      (host : Text) (port : ℕ) (g : Globals W H E) (r : Result (ℕ × SocketcanDaemon W H) × E)
      → Kept host port (start_global host port g r)
  unfolding start_global
  start_global-Kept host port g (raise x, e) = tt
  start_global-Kept host port g (ok (bound, d), e) = keep_global-Kept host port _ _

  start_daemon_globally-Kept :
      (host : Text) (port : ℕ) (g : Globals W H E)
      → Kept host port (start_daemon_globally host port g)
  unfolding start_daemon_globally
  start_daemon_globally-Kept host port g = elim (Option-cases (cached host port g.cache)) [
    | inl new ↦
        rw (new, start_daemon_globally)
          (start_global-Kept host port g
            (new_daemon bind host (resolve_port int env_port port) g.world))
    | inr (k, known) ↦ rw (known, start_daemon_globally) known
  ]

  -- A daemon is started once for a host and a port: after a call that did not raise, the same call
  -- gives the same daemon again and changes nothing.
  start_daemon_globally-twice :
      (host : Text) (port k : ℕ) (g g' : Globals W H E)
      → start_daemon_globally host port g ≡ (ok k, g')
      → start_daemon_globally host port g' ≡ (ok k, g')
  unfolding start_daemon_globally
  start_daemon_globally-twice host port k g g' first =
      rw
        (
          subst (Kept host port) first (start_daemon_globally-Kept host port g),
          start_daemon_globally,
        )
        refl
