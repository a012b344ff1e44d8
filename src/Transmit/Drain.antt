-- ===== src/Transmit/Drain.antt =====
-- The TX thread drains a backlog from its front: what the socket took and what waits for it, taken
-- together, stay as they were.
use sockcan.Prelude.{
  ℕ, List, [], ◌∷◌, ◌++◌, ◌≡◌, ◌≢◌, refl, sym, ap, ap₂, subst, ◌∙◌, arith, true, ◌==◌,
}
use sockcan.Prelude.{==_iff, Bool-cases, inl, inr, ◌⊎◌, append_assoc, Result, ok, raise, Exception}
use sockcan.Backlog.{Frame}
use sockcan.Server.{Server, update}
use sockcan.Server.View.{Sends, view}
use sockcan.Receive.{SendFailure, full, gone, broken, ignored, fatal, classify}
use sockcan.Transmit.{
  DrainEnd, emptied, blocked, disconnected, failed, drain_round, drain_loop, settle_drain,
  after_drain, on_write,
}

-- Only a datagram socket has failures that are passed over.
classify_stream : (e : Exception) → classify true e ≢ ignored
unfolding classify
classify_stream e = ground arith

-- How a loop over `q` ends: nothing is lost, and it stops early only at a frame that is left.
record Drained {W : Type 0} (delivered : W → ℕ → List Frame) (fd : ℕ) (q : List Frame) (w : W)
    (r : DrainEnd × List Frame × W) : Type 0 where
  kept : delivered r.2 fd ++ r.1 ≡ delivered w fd ++ q
  others : (j : ℕ) → j ≢ fd → delivered r.2 j ≡ delivered w j
  ends : ((r.0 ≡ emptied) × (r.1 ≡ [])) ⊎ ((r.0 ≢ emptied) × (r.1 ≢ []))

module _ {W : Type 0} (send : ℕ → Frame → W → Result (Unit {0}) × W)
    (delivered : W → ℕ → List Frame)
    (sends : (fd : ℕ) (g : Frame) (w : W) → Sends delivered w fd g (send fd g w)) where
  drain_round-Drained :
      (fd : ℕ) (f : Frame) (fs : List Frame) (w : W) (next : W → DrainEnd × List Frame × W)
      (r : Result (Unit {0}) × W)
      → Sends delivered w fd f r
      → ((w' : W) → Drained delivered fd fs w' (next w'))
      → Drained delivered fd (f ∷ fs) w (drain_round send true f fs next r)
  unfolding drain_round
  drain_round-Drained fd f fs w next (ok u, w') h rest = record {
    kept = (rest w').kept ∙ ap (λ l. l ++ fs) h.0 ∙ append_assoc (delivered w fd) (f ∷ []) fs;
    others = λ j diff. (rest w').others j diff ∙ h.1 j diff;
    ends = (rest w').ends;
  }
  drain_round-Drained fd f fs w next (raise e, w') h rest = stops (classify true e) refl
    where
      kept' : delivered w' fd ++ (f ∷ fs) ≡ delivered w fd ++ (f ∷ fs)
      kept' = ap (λ l. l ++ (f ∷ fs)) (h fd)

      stops :
          (x : SendFailure)
          → classify true e ≡ x
          → Drained delivered fd (f ∷ fs) w (drain_round send true f fs next (raise e, w'))
      stops full eq =
          rw (eq, drain_round)
            (record { kept = kept'; others = λ j _. h j; ends = inr (λ p. cc, λ p. cc) })
      stops gone eq =
          rw (eq, drain_round)
            (record { kept = kept'; others = λ j _. h j; ends = inr (λ p. cc, λ p. cc) })
      stops broken eq =
          rw (eq, drain_round)
            (record { kept = kept'; others = λ j _. h j; ends = inr (λ p. cc, λ p. cc) })
      stops ignored eq = absurd (classify_stream e eq)
      stops fatal eq =
          rw (eq, drain_round)
            (record { kept = kept'; others = λ j _. h j; ends = inr (λ p. cc, λ p. cc) })

  drain_loop-Drained :
      (fd : ℕ) (q : List Frame) (w : W) → Drained delivered fd q w (drain_loop send true fd q w)
  unfolding drain_loop
  drain_loop-Drained fd [] w = record { kept = refl; others = λ j _. refl; ends = inl (refl, refl) }
  drain_loop-Drained fd (f ∷ fs) w =
      drain_round-Drained fd f fs w (drain_loop send true fd fs) (send fd f w) (sends fd f w)
        (λ w'. drain_loop-Drained fd fs w')

  -- Closing the event moves no frame.
  pub outbound-settle_drain :
      (fd : ℕ) (end : DrainEnd) (s : Server W) (j : ℕ)
      → (((settle_drain send fd end s).1.io j).outbound ≡ (s.io j).outbound)
        × ((settle_drain send fd end s).1.world ≡ s.world)
  unfolding settle_drain
  outbound-settle_drain fd (failed e) s j = (refl, refl)
  outbound-settle_drain fd disconnected s j = ground arith
  outbound-settle_drain fd emptied s j = ground arith
  outbound-settle_drain fd blocked s j = ground arith

  view-after_drain :
      (fd : ℕ) (s : Server W) (j : ℕ) (r : DrainEnd × List Frame × W)
      → Drained delivered fd (s.io fd).outbound s.world r
      → view delivered (after_drain send fd s r).1 j ≡ view delivered s j
  unfolding after_drain
  view-after_drain fd s j (end, left, w) d =
      ap₂ (λ w q. delivered w j ++ q) settled.1 settled.0 ∙ elim (Bool-cases (j == fd)) [
        | inl same ↦ rw (same, (==_iff j fd).0 same) d.kept
        | inr diff ↦ rw (diff, d.others j (λ e. ground (arith, e)))
      ]
    where
      t : Server W
      t = record s { io = update s.io fd (record (s.io fd) { outbound = left }); world = w }

      settled :
          (((settle_drain send fd end t).1.io j).outbound ≡ (t.io j).outbound)
          × ((settle_drain send fd end t).1.world ≡ t.world)
      settled = outbound-settle_drain fd end t j

  -- While the TX thread drains a backlog of a stream server and the RX thread leaves the backlog alone,
  -- the frames that a socket took followed by those that wait for it are the same list before and
  -- after, for every consumer and whatever each send does: none is lost, doubled or overtaken. An
  -- eviction by the RX thread between the peek and the pop is outside this statement.
  pub view-on_write :
      (fd : ℕ) (s : Server W) (j : ℕ)
      → s.use_stream ≡ true
      → view delivered (on_write send fd s).1 j ≡ view delivered s j
  unfolding on_write
  view-on_write fd s j stream =
      view-after_drain fd s j (drain_loop send s.use_stream fd (s.io fd).outbound s.world) (
        subst
          (λ b.
            Drained delivered fd (s.io fd).outbound s.world
              (drain_loop send b fd (s.io fd).outbound s.world))
          (sym stream) (drain_loop-Drained fd (s.io fd).outbound s.world))
