-- ===== src/Transmit/Relay.antt =====
-- The TX thread brings a frame of one consumer to every other consumer that wants it.
use sockcan.Prelude.{ℕ, ◌+◌, ◌≤◌, ◌<◌, List, [], ◌∷◌, ◌++◌, ◌≡◌, refl, sym, ap, arith}
use sockcan.Prelude.{true, false, ◌==◌, length, append-nil, All, some}
use sockcan.Prelude.{subst, Result, ok, raise, Bool-cases, Option-cases, inl, inr, if◌then◌else◌}
use sockcan.Filters.{Consumer, frame_matches}
use sockcan.Backlog.{Frame, consumer_backlog_size, push_frame}
use sockcan.Server.{Server, update, store_frame, read_write, Interest}
use sockcan.Server.View.{Sends, IsWatched}
use sockcan.Transmit.{after_forward, forward, forward_all}
use sockcan.Receive.Turn.{additions, Accepts, IsReady, Stays-self, Turn, store_frame-Turn, seen_by}
use sockcan.Receive.Turn.{ne_of_test, additions_unwanted, still-IsReady, additions-cons, one_more}
use sockcan.Receive.Turn.{Grown, Grown-nothing, Grown-seq}

-- The consumers that are not on the socket `source`.
unfoldable pub others : ℕ → List Consumer → List Consumer
others source [] = []
others source (c ∷ cs) = let rest = others source cs in if c.fd == source then rest else c ∷ rest

pub others-cons :
    (source : ℕ) (c : Consumer) (cs : List Consumer) (f : Frame) (j : ℕ)
    → additions j (others source (c ∷ cs)) f
      ≡ additions j (others source (c ∷ [])) f ++ additions j (others source cs) f
unfolding others additions
others-cons source c cs f j = elim (Bool-cases (c.fd == source)) [
  | inl same ↦ rw (same, others) refl
  | inr other ↦ rw (other, others) (additions-cons c (others source cs) f j)
]

pub length-others : (source : ℕ) (cs : List Consumer) → length (others source cs) ≤ length cs
unfolding others
length-others source [] = omega arith
length-others source (c ∷ cs) = ground (arith, length-others source cs)

module _ {W : Type 0} (send : ℕ → Frame → W → Result (Unit {0}) × W)
    (delivered : W → ℕ → List Frame) where
  after_forward-Turn :
      (c : Consumer) (f : Frame) (s : Server W) (r : Result (Unit {0}) × W)
      → Sends delivered s.world c.fd f r
      → Accepts r
      → (s.io c.fd).outbound ≡ []
      → IsWatched s c.fd
      → frame_matches c.filters f.can_id f.is_extended ≡ true
      → Turn delivered c f s (after_forward send c.fd f s r)
  unfolding after_forward
  after_forward-Turn c f s (ok u, w) h up empty watched wants = record {
    returns = refl;
    seen =
        seen_by delivered c f s (record s { world = w }) wants
          (rw (h.0, empty, append-nil, append-nil))
          (λ j diff. rw (h.1 j (ne_of_test delivered j c.fd diff)));
    growth = λ j. omega arith;
    stays = Stays-self s;
  }
  after_forward-Turn c f s (raise e, w) h up empty watched wants =
      elim (Option-cases (s.selector c.fd)) [
        | inl gone ↦ absurd (watched gone)
        | inr (i, there) ↦ rw (queued i there) (
            store_frame-Turn delivered c f s after h refl (refl, refl, refl, λ j. refl, keeps i)
              (rw empty (omega arith)) wants)
      ]
    where
      after : Server W
      after = record s {
        world = w;
        io = update s.io c.fd (push_frame (s.io c.fd) f);
        selector = update s.selector c.fd (some read_write);
      }

      queued :
          (i : Interest)
          → s.selector c.fd ≡ some i
          → after_forward send c.fd f s (raise e, w) ≡ (ok tt, after)
      queued i there = ground arith

      keeps : (i : Interest) (j : ℕ) → IsWatched s j → IsWatched after j
      keeps i j old = ground arith

  forward-Turn :
      (source : ℕ) (c : Consumer) (f : Frame) (s : Server W)
      → ((fd : ℕ) (g : Frame) (w : W) → Sends delivered w fd g (send fd g w))
      → ((fd : ℕ) (g : Frame) (w : W) → Accepts (send fd g w))
      → IsReady s c
      → length (s.io c.fd).outbound < consumer_backlog_size
      → (c.fd == source) ≡ false
      → Turn delivered c f s (forward send source c f s)
  unfolding forward
  forward-Turn source c f s sends up ready room other =
      elim (Bool-cases (frame_matches c.filters f.can_id f.is_extended)) [
        | inl wants ↦ turn wants (s.io c.fd).outbound refl
        | inr not_wanted ↦
            rw (other, not_wanted, forward)
              (record {
                returns = refl;
                seen = λ j. rw (additions_unwanted c f j not_wanted) (sym (append-nil _));
                growth = λ j. omega arith;
                stays = Stays-self s;
              })
      ]
    where
      turn :
          frame_matches c.filters f.can_id f.is_extended ≡ true
          → (q : List Frame) → (s.io c.fd).outbound ≡ q
          → Turn delivered c f s (forward send source c f s)
      turn wants [] eq =
          rw (other, wants, forward, ready.0, eq)
            (after_forward-Turn c f s (send c.fd f s.world) (sends c.fd f s.world)
              (up c.fd f s.world) eq ready.1 wants)
      turn wants (g ∷ gs) eq =
          rw (other, wants, forward, ready.0, eq)
            (store_frame-Turn delivered c f s (store_frame c.fd f s) (λ j. refl) refl (Stays-self s)
              room wants)

  module _ (sends : (fd : ℕ) (g : Frame) (w : W) → Sends delivered w fd g (send fd g w))
      (up : (fd : ℕ) (g : Frame) (w : W) → Accepts (send fd g w)) where
    forward-Grown :
        (source : ℕ) (c : Consumer) (f : Frame) (s : Server W)
        → IsReady s c
        → length (s.io c.fd).outbound < consumer_backlog_size
        → Grown delivered
            (λ j. additions j (others source (c ∷ [])) f)
            1
            s
            (forward send source c f s)
    unfolding forward others additions
    forward-Grown source c f s ready room = elim (Bool-cases (c.fd == source)) [
      | inl same ↦
          rw (same, forward, others)
            (Grown-nothing delivered (λ j. additions j [] f) 1 s (λ j. refl))
      | inr other ↦
          subst (λ ds. Grown delivered (λ j. additions j ds f) 1 s (forward send source c f s))
            (ap (λ b. if b then [] else c ∷ []) (sym other))
            (forward-Turn source c f s sends up ready room other)
    ]

    -- Where no socket fails for good, the loop over the consumers raises nothing and brings the
    -- frame to all but its source.
    pub forward_all-Grown :
        (source : ℕ) (cs : List Consumer) (f : Frame) (s : Server W)
        → All (IsReady s) cs
        → ((j : ℕ) → length (s.io j).outbound + length cs ≤ consumer_backlog_size)
        → Grown delivered
            (λ j. additions j (others source cs) f)
            (length cs)
            s
            (forward_all send source cs f s)
    unfolding forward_all others additions
    forward_all-Grown source [] f s ready room = Grown-nothing delivered (λ j. []) 0 s (λ j. refl)
    forward_all-Grown source (c ∷ cs) f s ready room =
        let t = forward-Grown source c f s ready.0 (omega (arith, room c.fd)) in
        let s₁ = (forward send source c f s).1 in
        let rest =
          forward_all-Grown source cs f s₁ (still-IsReady s s₁ cs t.stays ready.1)
            (λ j. omega (arith, room j, t.growth j)) in
        rw (t.returns, forward_all)
          (subst
            (λ n.
              Grown delivered (λ j. additions j (others source (c ∷ cs)) f) n s
                (forward_all send source cs f s₁))
            (one_more (length cs))
            (Grown-seq delivered (λ j. additions j (others source (c ∷ [])) f)
              (λ j. additions j (others source cs) f) (λ j. additions j (others source (c ∷ cs)) f)
              1 (length cs) s (forward send source c f s) (forward_all send source cs f s₁) t rest
              (others-cons source c cs f)))
