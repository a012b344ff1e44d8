-- ===== src/Receive/FanOut.antt =====
-- The RX thread brings a frame to every consumer that wants it, once and in order.
use sockcan.Prelude.{ℕ, ◌+◌, ◌≤◌, ◌<◌, List, [], ◌∷◌, ◌++◌, ◌≡◌, refl, sym, ap, subst, arith}
use sockcan.Prelude.{true, length, append-nil, Result, ok, raise, All, some}
use sockcan.Prelude.{Bool-cases, Option-cases, inl, inr}
use sockcan.Filters.{Consumer, frame_matches}
use sockcan.Backlog.{Frame, consumer_backlog_size, push_frame}
use sockcan.Server.{Server, update, store_frame, read_write, Interest}
use sockcan.Server.View.{Sends, view, IsWatched}
use sockcan.Receive.{after_send, deliver, dispatch}
use sockcan.Receive.Turn.{additions, Accepts, IsReady, Stays-self, Grown, Grown-nothing}
use sockcan.Receive.Turn.{Grown-seq, Turn, seen_by, ne_of_test, store_frame-Turn, still-IsReady}
use sockcan.Receive.Turn.{additions_unwanted, additions-cons, one_more}

module _ {W : Type 0} (send : ℕ → Frame → W → Result (Unit {0}) × W)
    (delivered : W → ℕ → List Frame) where
  after_send-Turn :
      (c : Consumer) (f : Frame) (s : Server W) (r : Result (Unit {0}) × W)
      → Sends delivered s.world c.fd f r
      → Accepts r
      → (s.io c.fd).outbound ≡ []
      → IsWatched s c.fd
      → frame_matches c.filters f.can_id f.is_extended ≡ true
      → Turn delivered c f s (after_send send c f s r)
  unfolding after_send
  after_send-Turn c f s (ok u, w) h up empty watched wants = record {
    returns = refl;
    seen =
        seen_by delivered c f s (record s { world = w }) wants
          (rw (h.0, empty, append-nil, append-nil))
          (λ j diff. rw (h.1 j (ne_of_test delivered j c.fd diff)));
    growth = λ j. omega arith;
    stays = Stays-self s;
  }
  after_send-Turn c f s (raise e, w) h up empty watched wants =
      elim (Option-cases (s.selector c.fd)) [
        | inl gone ↦ absurd (watched gone)
        | inr (i, there) ↦ rw (queued i there) (
            store_frame-Turn delivered c f s (after i) h refl (refl, refl, refl, λ j. refl, keeps i)
              (rw empty (omega arith)) wants)
      ]
    where
      after : Interest → Server W
      after i = record s {
        world = w;
        io = update s.io c.fd (push_frame (s.io c.fd) f);
        selector = update s.selector c.fd (some read_write);
        wakeups = s.wakeups + 1;
      }

      queued :
          (i : Interest)
          → s.selector c.fd ≡ some i
          → after_send send c f s (raise e, w) ≡ (ok tt, after i)
      queued i there = ground arith

      keeps : (i : Interest) (j : ℕ) → IsWatched s j → IsWatched (after i) j
      keeps i j old = ground arith

  deliver-Turn :
      (c : Consumer) (f : Frame) (s : Server W)
      → ((fd : ℕ) (g : Frame) (w : W) → Sends delivered w fd g (send fd g w))
      → ((fd : ℕ) (g : Frame) (w : W) → Accepts (send fd g w))
      → IsReady s c
      → length (s.io c.fd).outbound < consumer_backlog_size
      → Turn delivered c f s (deliver send c f s)
  unfolding deliver
  deliver-Turn c f s sends up ready room =
      elim (Bool-cases (frame_matches c.filters f.can_id f.is_extended)) [
        | inl wants ↦ turn wants (s.io c.fd).outbound refl
        | inr not_wanted ↦
            rw (not_wanted, deliver)
              (record {
                returns = refl;
                seen = λ j. rw (additions_unwanted c f j not_wanted) (sym (append-nil _));
                growth = λ j. omega arith;
                stays = Stays-self s;
              })
      ]
    where
      turn :
          frame_matches c.filters f.can_id f.is_extended ≡ true
          → (q : List Frame) → (s.io c.fd).outbound ≡ q
          → Turn delivered c f s (deliver send c f s)
      turn wants [] eq =
          rw (wants, deliver, ready.0, eq)
            (after_send-Turn c f s (send c.fd f s.world) (sends c.fd f s.world) (up c.fd f s.world)
              eq ready.1 wants)
      turn wants (g ∷ gs) eq =
          rw (wants, deliver, ready.0, eq)
            (store_frame-Turn delivered c f s (store_frame c.fd f s) (λ j. refl) refl (Stays-self s)
              room wants)

  module _ (sends : (fd : ℕ) (g : Frame) (w : W) → Sends delivered w fd g (send fd g w))
      (up : (fd : ℕ) (g : Frame) (w : W) → Accepts (send fd g w)) where
    pub dispatch-Grown :
        (cs : List Consumer) (f : Frame) (s : Server W)
        → All (IsReady s) cs
        → ((j : ℕ) → length (s.io j).outbound + length cs ≤ consumer_backlog_size)
        → Grown delivered (λ j. additions j cs f) (length cs) s (dispatch send cs f s)
    unfolding dispatch additions
    dispatch-Grown [] f s ready room = Grown-nothing delivered (λ j. []) 0 s (λ j. refl)
    dispatch-Grown (c ∷ cs) f s ready room =
        let t = deliver-Turn c f s sends up ready.0 (omega (arith, room c.fd)) in
        let s₁ = (deliver send c f s).1 in
        let rest =
          dispatch-Grown cs f s₁ (still-IsReady s s₁ cs t.stays ready.1)
            (λ j. omega (arith, room j, t.growth j)) in
        rw (t.returns, dispatch)
          (subst (λ n. Grown delivered (λ j. additions j (c ∷ cs) f) n s (dispatch send cs f s₁))
            (one_more (length cs))
            (Grown-seq delivered (λ j. additions j (c ∷ []) f) (λ j. additions j cs f)
              (λ j. additions j (c ∷ cs) f) 1 (length cs) s (deliver send c f s)
              (dispatch send cs f s₁) t rest (additions-cons c cs f)))

    -- If no send fails otherwise than for a lack of room, every consumer has its entry and is watched
    -- by the selector, and every backlog has room for one more frame per consumer, then the loop of
    -- the RX thread over the consumers, which brings them one frame of the bus, raises nothing. What a
    -- socket took and what waits for it, in this order, grow by exactly the frame for each consumer on
    -- it whose filters match, at the end. The disconnections that follow the loop are not part of it.
    pub dispatch_fan_out :
        (cs : List Consumer) (f : Frame) (s : Server W)
        → All (IsReady s) cs
        → ((j : ℕ) → length (s.io j).outbound + length cs ≤ consumer_backlog_size)
        → (s' : Server W) × (dispatch send cs f s ≡ (ok tt, s'))
          × ((j : ℕ) → view delivered s' j ≡ view delivered s j ++ additions j cs f)
    dispatch_fan_out cs f s ready room =
        let g = dispatch-Grown cs f s ready room in
        ((dispatch send cs f s).1, ap (λ r. (r, (dispatch send cs f s).1)) g.returns, g.seen)
