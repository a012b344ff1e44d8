-- ===== src/Hub/Writes.antt =====
-- Draining a backlog to a socket that is at most slow changes nothing that a consumer sees.
use sockcan.Prelude.{ℕ, ◌≤◌, List, [], ◌∷◌, ◌≡◌, refl, sym, ◌∙◌, arith}
use sockcan.Prelude.{true, Result, ok, raise, inl, inr, ◌⊎◌, append-nil, length, subst}
use sockcan.Prelude.{Option-cases}
use sockcan.Backlog.{Frame}
use sockcan.Server.{Server, modify, update, read}
use sockcan.Server.View.{Sends, IsWatched}
use sockcan.Receive.{classify}
use sockcan.Receive.Turn.{Accepts, Stays, Stays-self, Grown}
use sockcan.Transmit.{DrainEnd, emptied, blocked, drain_round, drain_loop}
use sockcan.Transmit.{settle_drain, after_drain, on_write}
use sockcan.Transmit.Drain.{view-on_write, outbound-settle_drain}
use sockcan.Threads.Sound.{drain_loop-le}

abbrev IsOpen : DrainEnd → Type 0
IsOpen end = (end ≡ emptied) ⊎ (end ≡ blocked)

module _ {W : Type 0} (send : ℕ → Frame → W → Result (Unit {0}) × W) where
  drain_round-IsOpen :
      (f : Frame) (fs : List Frame) (next : W → DrainEnd × List Frame × W)
      (r : Result (Unit {0}) × W)
      → Accepts r
      → ((w : W) → IsOpen (next w).0)
      → IsOpen (drain_round send true f fs next r).0
  unfolding drain_round classify
  drain_round-IsOpen f fs next (ok u, w) h rest = rest w
  drain_round-IsOpen f fs next (raise e, w) h rest = inr (ground (arith, h))

  drain_loop-IsOpen :
      ((fd : ℕ) (g : Frame) (w : W) → Accepts (send fd g w))
      → (fd : ℕ) (q : List Frame) (w : W) → IsOpen (drain_loop send true fd q w).0
  unfolding drain_loop
  drain_loop-IsOpen up fd [] w = inl refl
  drain_loop-IsOpen up fd (f ∷ fs) w =
      drain_round-IsOpen f fs (drain_loop send true fd fs) (send fd f w) (up fd f w)
        (drain_loop-IsOpen up fd fs)

  abbrev Settled : ℕ → Server W → Result (Unit {0}) × Server W → Type 0
  Settled fd s r = (r.0 ≡ ok tt) × Stays s r.1

  modify-Settled : (fd : ℕ) (s : Server W) → IsWatched s fd → Settled fd s (modify fd read s)
  unfolding modify
  modify-Settled fd s watched = elim (Option-cases (s.selector fd)) [
    | inl gone ↦ absurd (watched gone)
    | inr (i, there) ↦
        rw (there, modify) (refl, (refl, refl, refl, λ j. refl, λ j h. ground (arith, h)))
  ]

  -- The end of an event by what is left.
  by_rest :
      (fd : ℕ) (end : DrainEnd) (s : Server W) (q : List Frame)
      → (s.io fd).outbound ≡ q
      → IsOpen end
      → Settled fd s (modify fd read s)
      → Settled fd s (settle_drain send fd end s)
  unfolding settle_drain
  by_rest fd end s [] rest (inl all_sent) h = rw (all_sent, settle_drain, rest, h.0) (refl, h.1)
  by_rest fd end s [] rest (inr stopped) h = rw (stopped, settle_drain, rest, h.0) (refl, h.1)
  by_rest fd end s (g ∷ gs) rest (inl all_sent) h =
      rw (all_sent, settle_drain, rest) (refl, Stays-self s)
  by_rest fd end s (g ∷ gs) rest (inr stopped) h =
      rw (stopped, settle_drain, rest) (refl, Stays-self s)

  after_drain-Settled :
      (fd : ℕ) (s : Server W) (r : DrainEnd × List Frame × W)
      → IsWatched s fd
      → IsOpen r.0
      → Settled fd s (after_drain send fd s r)
  unfolding after_drain
  after_drain-Settled fd s (end, left, w) watched end_open =
      by_rest fd end
        (record s { io = update s.io fd (record (s.io fd) { outbound = left }); world = w }) _ refl
        end_open (modify-Settled fd _ watched)

  module _ (delivered : W → ℕ → List Frame)
      (sends : (fd : ℕ) (g : Frame) (w : W) → Sends delivered w fd g (send fd g w))
      (up : (fd : ℕ) (g : Frame) (w : W) → Accepts (send fd g w)) where
    after_drain-le :
        (fd : ℕ) (s : Server W) (r : DrainEnd × List Frame × W) (j : ℕ)
        → length r.1 ≤ length (s.io fd).outbound
        → length ((after_drain send fd s r).1.io j).outbound ≤ length (s.io j).outbound
    unfolding after_drain
    after_drain-le fd s (end, left, w) j fewer =
        let t = record s {
          io = update s.io fd (record (s.io fd) { outbound = left });
          world = w;
        } in
        subst (λ q. length q ≤ length (s.io j).outbound)
          (sym (outbound-settle_drain send delivered sends fd end t j).0) (ground (arith, fewer))

    -- Draining raises nothing and every consumer sees what it saw.
    pub on_write-Grown :
        (fd : ℕ) (s : Server W)
        → s.use_stream ≡ true
        → IsWatched s fd
        → Grown delivered (λ j. []) 0 s (on_write send fd s)
    unfolding on_write
    on_write-Grown fd s stream watched =
        let r = drain_loop send s.use_stream fd (s.io fd).outbound s.world in
        let e = after_drain-Settled fd s r watched (
          subst (λ b. IsOpen (drain_loop send b fd (s.io fd).outbound s.world).0) (sym stream)
            (drain_loop-IsOpen up fd (s.io fd).outbound s.world)) in
        record {
          returns = e.0;
          seen = λ j. view-on_write send delivered sends fd s j stream ∙ sym (append-nil _);
          growth = λ j. omega (
            arith,
            after_drain-le fd s r j (drain_loop-le send s.use_stream fd (s.io fd).outbound s.world),
          );
          stays = e.1;
        }
