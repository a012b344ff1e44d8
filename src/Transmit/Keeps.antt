-- ===== src/Transmit/Keeps.antt =====
-- What the handlers of the TX thread leave alone: the consumers, the bus, the threads and whether the
-- server runs.
use sockcan.Prelude.{ℕ, List, [], ◌∷◌, ◌≡◌, refl, ◌∙◌, arith, Result, ok, raise}
use sockcan.Filters.{Consumer}
use sockcan.Backlog.{Frame}
use sockcan.Server.{Server}
use sockcan.Transmit.{
  after_forward, forward, forward_all, drain_loop, settle_drain, after_drain, on_write,
}
use sockcan.Transmit.{DrainEnd, emptied, blocked, disconnected, failed, after_read, on_read}

abbrev pub Keeps : {W : Type 0} → Server W → Server W → Type 0
Keeps s t =
    (t.consumers ≡ s.consumers)
    × (t.has_bus ≡ s.has_bus)
    × (t.threads ≡ s.threads)
    × (t.running ≡ s.running)

pub Keeps-trans : {W : Type 0} (s t u : Server W) → Keeps s t → Keeps t u → Keeps s u
Keeps-trans s t u first rest =
    (rest.0 ∙ first.0, rest.1 ∙ first.1, rest.2 ∙ first.2, rest.3 ∙ first.3)

module _ {W : Type 0} (send : ℕ → Frame → W → Result (Unit {0}) × W)
    (recv : ℕ → W → Result Frame × W) (bus_send : Frame → W → Result (Unit {0}) × W) where
  after_forward-Keeps :
      (fd : ℕ) (f : Frame) (s : Server W) (r : Result (Unit {0}) × W)
      → Keeps s (after_forward send fd f s r).1
  unfolding after_forward
  after_forward-Keeps fd f s (ok u, w) = (refl, refl, refl, refl)
  after_forward-Keeps fd f s (raise e, w) = ground arith

  forward-Keeps :
      (source : ℕ) (c : Consumer) (f : Frame) (s : Server W) → Keeps s (forward send source c f s).1
  unfolding forward
  forward-Keeps source c f s = ground (arith, after_forward-Keeps c.fd f s (send c.fd f s.world))

  forward_all-Keeps :
      (source : ℕ) (cs : List Consumer) (f : Frame) (s : Server W)
      → Keeps s (forward_all send source cs f s).1
  unfolding forward_all
  forward_all-Keeps source [] f s = (refl, refl, refl, refl)
  forward_all-Keeps source (c ∷ cs) f s =
      go (forward_all-Keeps source cs f (forward send source c f s).1) (forward send source c f s).0
        refl
    where
      s₁ : Server W
      s₁ = (forward send source c f s).1

      first : Keeps s s₁
      first = forward-Keeps source c f s

      go :
          Keeps s₁ (forward_all send source cs f s₁).1
          → (r : Result (Unit {0})) → (forward send source c f s).0 ≡ r
          → Keeps s (forward_all send source (c ∷ cs) f s).1
      go rest (raise e) eq = rw (eq, forward_all) first
      go rest (ok u) eq =
          rw (eq, forward_all) (Keeps-trans s s₁ (forward_all send source cs f s₁).1 first rest)

  settle_drain-Keeps :
      (fd : ℕ) (end : DrainEnd) (s : Server W) → Keeps s (settle_drain send fd end s).1
  unfolding settle_drain
  settle_drain-Keeps fd (failed e) s = (refl, refl, refl, refl)
  settle_drain-Keeps fd disconnected s = ground arith
  settle_drain-Keeps fd emptied s = ground arith
  settle_drain-Keeps fd blocked s = ground arith

  after_drain-Keeps :
      (fd : ℕ) (s : Server W) (r : DrainEnd × List Frame × W) → Keeps s (after_drain send fd s r).1
  unfolding after_drain
  after_drain-Keeps fd s (end, left, w) = settle_drain-Keeps fd end _

  pub on_write-Keeps : (fd : ℕ) (s : Server W) → Keeps s (on_write send fd s).1
  unfolding on_write
  on_write-Keeps fd s =
      after_drain-Keeps fd s (drain_loop send s.use_stream fd (s.io fd).outbound s.world)

  pub after_read-Keeps :
      (fd : ℕ) (s : Server W) (r : Result Frame × W)
      → Keeps s (after_read send recv bus_send fd s r).1
  unfolding after_read
  after_read-Keeps fd s (raise e, w) = ground arith
  after_read-Keeps fd s (ok f, w) =
      ground (arith, forward_all-Keeps fd s.consumers f (record s { world = w }))

  pub on_read-Keeps : (fd : ℕ) (s : Server W) → Keeps s (on_read send recv bus_send fd s).1
  unfolding on_read
  on_read-Keeps fd s = after_read-Keeps fd s (recv fd s.world)
