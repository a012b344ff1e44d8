-- ===== src/Threads/Sound.antt =====
-- With whole handlers no backlog is ever left that nobody drains, and none grows beyond its limit.
use sockcan.Prelude.{ℕ, suc, ◌≤◌, List, [], ◌∷◌, ◌≡◌, refl, ap, arith}
use sockcan.Prelude.{Bool, ==_self, length}
use sockcan.Prelude.{Result, ok, raise}
use sockcan.Filters.{Consumer}
use sockcan.Backlog.{Frame}
use sockcan.Server.{Server, update}
use sockcan.Receive.{after_send, deliver, dispatch}
use sockcan.Transmit.{after_forward, forward, forward_all, drain_round, drain_loop, settle_drain}
use sockcan.Transmit.{
  DrainEnd, emptied, blocked, disconnected, failed, after_drain, on_write, after_read, on_read,
}
use sockcan.Threads.Served.{
  IsSound, push_frame-le, IsSound-at, unregister-IsSound, listen_to-IsSound, start-IsSound,
  stop-IsSound, reap-IsSound,
}
use sockcan.Threads.{
  Step, Reach, init, here, next, listens, surrounded, starts, stops, reaps, dispatches, reads,
  writes,
}

module _ {W : Type 0} where
  module _ (send : ℕ → Frame → W → Result (Unit {0}) × W) where
    after_send-IsSound :
        (c : Consumer) (f : Frame) (s : Server W) (r : Result (Unit {0}) × W)
        → IsSound s
        → IsSound (after_send send c f s r).1
    unfolding after_send
    after_send-IsSound c f s (ok u, w) v j = v j
    after_send-IsSound c f s (raise e, w) v j =
        ground (arith, v j, v c.fd, push_frame-le (s.io c.fd) f)

    deliver-IsSound :
        (c : Consumer) (f : Frame) (s : Server W) → IsSound s → IsSound (deliver send c f s).1
    unfolding deliver
    deliver-IsSound c f s v j = ground (
      arith,
      v j,
      v c.fd,
      push_frame-le (s.io c.fd) f,
      after_send-IsSound c f s (send c.fd f s.world) v j,
    )

    dispatch-IsSound :
        (cs : List Consumer) (f : Frame) (s : Server W)
        → IsSound s
        → IsSound (dispatch send cs f s).1
    unfolding dispatch
    dispatch-IsSound [] f s v j = v j
    dispatch-IsSound (c ∷ cs) f s v j =
        let v' = deliver-IsSound c f s v in
        ground (arith, v' j, dispatch-IsSound cs f (deliver send c f s).1 v' j)

    after_forward-IsSound :
        (fd : ℕ) (f : Frame) (s : Server W) (r : Result (Unit {0}) × W)
        → IsSound s
        → IsSound (after_forward send fd f s r).1
    unfolding after_forward
    after_forward-IsSound fd f s (ok u, w) v j = v j
    after_forward-IsSound fd f s (raise e, w) v j =
        ground (arith, v j, v fd, push_frame-le (s.io fd) f)

    forward-IsSound :
        (source : ℕ) (c : Consumer) (f : Frame) (s : Server W)
        → IsSound s
        → IsSound (forward send source c f s).1
    unfolding forward
    forward-IsSound source c f s v j = ground (
      arith,
      v j,
      v c.fd,
      push_frame-le (s.io c.fd) f,
      after_forward-IsSound c.fd f s (send c.fd f s.world) v j,
    )

    forward_all-IsSound :
        (source : ℕ) (cs : List Consumer) (f : Frame) (s : Server W)
        → IsSound s
        → IsSound (forward_all send source cs f s).1
    unfolding forward_all
    forward_all-IsSound source [] f s v j = v j
    forward_all-IsSound source (c ∷ cs) f s v j =
        let v' = forward-IsSound source c f s v in
        ground (arith, v' j, forward_all-IsSound source cs f (forward send source c f s).1 v' j)

    -- What is left of a backlog is no longer than it was.
    drain_round-le :
        (is_stream : Bool) (f : Frame) (fs : List Frame) (next : W → DrainEnd × List Frame × W)
        (r : Result (Unit {0}) × W)
        → ((w : W) → length (next w).1 ≤ length fs)
        → length (drain_round send is_stream f fs next r).1 ≤ suc (length fs)
    unfolding drain_round
    drain_round-le is_stream f fs rest (ok u, w) h = omega (arith, h w)
    drain_round-le is_stream f fs rest (raise e, w) h = ground (arith, h w)

    pub drain_loop-le :
        (is_stream : Bool) (fd : ℕ) (q : List Frame) (w : W)
        → length (drain_loop send is_stream fd q w).1 ≤ length q
    unfolding drain_loop
    drain_loop-le is_stream fd [] w = omega arith
    drain_loop-le is_stream fd (f ∷ fs) w =
        drain_round-le is_stream f fs (drain_loop send is_stream fd fs) (send fd f w)
          (λ w'. drain_loop-le is_stream fd fs w')

    settle_drain-IsSound :
        (fd : ℕ) (end : DrainEnd) (s : Server W)
        → IsSound s
        → IsSound (settle_drain send fd end s).1
    unfolding settle_drain
    settle_drain-IsSound fd (failed e) s v j = v j
    settle_drain-IsSound fd disconnected s v j = unregister-IsSound fd s v j
    settle_drain-IsSound fd emptied s v j = ground (arith, v j, v fd)
    settle_drain-IsSound fd blocked s v j = ground (arith, v j, v fd)

    nil_of_length : (q : List Frame) → length q ≤ 0 → q ≡ []
    nil_of_length [] h = refl
    nil_of_length (f ∷ q) h = absurd (omega arith)

    after_drain-IsSound :
        (fd : ℕ) (s : Server W) (r : DrainEnd × List Frame × W)
        → IsSound s
        → length r.1 ≤ length (s.io fd).outbound
        → IsSound (after_drain send fd s r).1
    unfolding after_drain
    after_drain-IsSound fd s (end, left, w) v shorter = settle_drain-IsSound fd end t (
        IsSound-at s t fd v
          (rw (==_self fd) (
            λ e. nil_of_length left (omega (arith, shorter, ap length ((v fd).0 e))),
            omega (arith, (v fd).1),
          ))
          (λ j diff. (refl, rw diff)))
      where
        t : Server W
        t = record s { io = update s.io fd (record (s.io fd) { outbound = left }); world = w }

    pub on_write-IsSound : (fd : ℕ) (s : Server W) → IsSound s → IsSound (on_write send fd s).1
    unfolding on_write
    on_write-IsSound fd s v =
        after_drain-IsSound fd s (drain_loop send s.use_stream fd (s.io fd).outbound s.world) v
          (drain_loop-le s.use_stream fd (s.io fd).outbound s.world)

    module _ (recv : ℕ → W → Result Frame × W) (bus_send : Frame → W → Result (Unit {0}) × W) where
      pub after_read-IsSound :
          (fd : ℕ) (s : Server W) (r : Result Frame × W)
          → IsSound s
          → IsSound (after_read send recv bus_send fd s r).1
      unfolding after_read
      after_read-IsSound fd s (raise e, w) v j =
          ground (arith, v j, unregister-IsSound fd (record s { world = w }) v j)
      after_read-IsSound fd s (ok f, w) v j =
          ground (arith, forward_all-IsSound fd s.consumers f (record s { world = w }) v j)

      on_read-IsSound :
          (fd : ℕ) (s : Server W) → IsSound s → IsSound (on_read send recv bus_send fd s).1
      unfolding on_read
      on_read-IsSound fd s v = after_read-IsSound fd s (recv fd s.world) v

module _ {W : Type 0} (send : ℕ → Frame → W → Result (Unit {0}) × W)
    (recv : ℕ → W → Result Frame × W) (bus_send : Frame → W → Result (Unit {0}) × W) where
  Step-IsSound : (s : Server W) {t : Server W} → Step send recv bus_send s t → IsSound s → IsSound t
  Step-IsSound s (listens fd is_dgram spec force) v = listen_to-IsSound fd is_dgram spec force s v
  Step-IsSound s (surrounded x) v = v
  Step-IsSound s (starts d) v = start-IsSound d s v
  Step-IsSound s stops v = stop-IsSound s v
  Step-IsSound s (reaps runs) v = reap-IsSound s v
  Step-IsSound s (dispatches f runs) v = dispatch-IsSound send s.consumers f s v
  Step-IsSound s (reads fd) v = on_read-IsSound send recv bus_send fd s v
  Step-IsSound s (writes fd) v = on_write-IsSound send fd s v

  -- In every state that whole handlers reach from a fresh server, a consumer that the selector
  -- watches for reading alone has nothing waiting, and no backlog exceeds 10000 frames.
  pub Reach-IsSound :
      (has_bus use_stream : Bool) (w : W) {t : Server W}
      → Reach send recv bus_send (init has_bus use_stream w) t
      → IsSound t
  Reach-IsSound has_bus use_stream w here = λ j. (λ _. refl, omega arith)
  Reach-IsSound has_bus use_stream w (next {t} r st) =
      Step-IsSound t st (Reach-IsSound has_bus use_stream w r)
