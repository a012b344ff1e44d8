-- ===== src/Threads/Rounds.antt =====
-- The loop of the TX thread as a whole, whatever the selector reports.
use sockcan.Prelude.{ℕ, List, [], ◌∷◌, ◌++◌, ◌≡◌, refl, sym, ap, ◌∙◌, Bool, true, false}
use sockcan.Prelude.{Result, ok, raise, and_then, and_then-keeps, if-keeps}
use sockcan.Prelude.{if◌then◌else◌}
use sockcan.Backlog.{Frame}
use sockcan.Server.{Server}
use sockcan.Transmit.{after_read}
use sockcan.Transmit.Keeps.{Keeps, Keeps-trans, on_write-Keeps, after_read-Keeps}
use sockcan.Transmit.Loop.{TxEvent, kill_switch, ready, write_event, read_event, on_ready}
use sockcan.Transmit.Loop.{take_wakeup, for_events, tx_loop}
use sockcan.Threads.Served.{IsSound}
use sockcan.Threads.Sound.{after_read-IsSound, on_write-IsSound}

module _ {W : Type 0} (send : ℕ → Frame → W → Result (Unit {0}) × W)
    (recv : ℕ → W → Result Frame × W) (bus_send : Frame → W → Result (Unit {0}) × W) where
  write_event-IsSound :
      (fd : ℕ) (b : Bool) (s : Server W)
      → IsSound s
      → IsSound (write_event send recv bus_send fd b s).1
  unfolding write_event
  write_event-IsSound fd true s v = on_write-IsSound send fd s v
  write_event-IsSound fd false s v = v

  read_event-IsSound :
      (fd : ℕ) (b : Bool) (s : Server W) (r : Result Frame × W)
      → IsSound s
      → IsSound (read_event send recv bus_send fd b s r).1
  unfolding read_event
  read_event-IsSound fd b s (raise e, w) v =
      after_read-IsSound send recv bus_send fd s (raise e, w) v
  read_event-IsSound fd b s (ok f, w) v =
      and_then-keeps IsSound (after_read send recv bus_send fd s (ok f, w)) _
        (after_read-IsSound send recv bus_send fd s (ok f, w) v) (write_event-IsSound fd b)

  on_ready-IsSound :
      (fd : ℕ) (a b : Bool) (s : Server W)
      → IsSound s
      → IsSound (on_ready send recv bus_send fd a b s).1
  unfolding on_ready
  on_ready-IsSound fd true b s v = read_event-IsSound fd b s (recv fd s.world) v
  on_ready-IsSound fd false b s v = write_event-IsSound fd b s v

  for_events-IsSound :
      (events : List TxEvent) (s : Server W)
      → IsSound s
      → IsSound (for_events send recv bus_send events s).1
  unfolding for_events take_wakeup
  for_events-IsSound [] s v = v
  for_events-IsSound (kill_switch ∷ events) s v =
      let s' = take_wakeup send recv bus_send s in
      if-keeps (λ x. IsSound x.1) s.running (for_events send recv bus_send events s') (ok tt, s')
        (for_events-IsSound events s' v) v
  for_events-IsSound (ready fd a b ∷ events) s v =
      and_then-keeps IsSound (on_ready send recv bus_send fd a b s) _ (on_ready-IsSound fd a b s v)
        (for_events-IsSound events)

  -- The whole loop of the TX thread, whatever the selector reports and the sockets do, ends in a sound
  -- state if it starts in one, by an exception or at the end of the events: a socket that the selector
  -- watches for reading alone has nothing waiting, and no backlog exceeds its limit. A socket that was
  -- unregistered may keep frames in its backlog.
  pub tx_loop-IsSound :
      (batches : List (List TxEvent)) (s : Server W)
      → IsSound s
      → IsSound (tx_loop send recv bus_send batches s).1
  unfolding tx_loop
  tx_loop-IsSound [] s v = v
  tx_loop-IsSound (events ∷ later) s v =
      let round = for_events send recv bus_send events s in
      if-keeps (λ x. IsSound x.1) s.running (and_then round (tx_loop send recv bus_send later))
        (ok tt, s)
        (and_then-keeps IsSound round _ (for_events-IsSound events s v) (tx_loop-IsSound later)) v

  write_event-Keeps :
      (fd : ℕ) (b : Bool) (s : Server W) → Keeps s (write_event send recv bus_send fd b s).1
  unfolding write_event
  write_event-Keeps fd true s = on_write-Keeps send recv bus_send fd s
  write_event-Keeps fd false s = (refl, refl, refl, refl)

  read_event-Keeps :
      (fd : ℕ) (b : Bool) (s : Server W) (r : Result Frame × W)
      → Keeps s (read_event send recv bus_send fd b s r).1
  unfolding read_event
  read_event-Keeps fd b s (raise e, w) = after_read-Keeps send recv bus_send fd s (raise e, w)
  read_event-Keeps fd b s (ok f, w) =
      let first = after_read send recv bus_send fd s (ok f, w) in
      and_then-keeps (Keeps s) first _ (after_read-Keeps send recv bus_send fd s (ok f, w)) (λ t k.
        Keeps-trans s t (write_event send recv bus_send fd b t).1 k (write_event-Keeps fd b t))

  on_ready-Keeps :
      (fd : ℕ) (a b : Bool) (s : Server W) → Keeps s (on_ready send recv bus_send fd a b s).1
  unfolding on_ready
  on_ready-Keeps fd true b s = read_event-Keeps fd b s (recv fd s.world)
  on_ready-Keeps fd false b s = write_event-Keeps fd b s

  if_stopped :
      (s : Server W) (x y : Result (Unit {0}) × Server W)
      → s.running ≡ false
      → (if s.running then x else y) ≡ y
  if_stopped s x y stopped = ap (λ b. if b then x else y) stopped

  tx_loop_idle :
      (later : List (List TxEvent)) (s : Server W)
      → s.running ≡ false
      → tx_loop send recv bus_send later s ≡ (ok tt, s)
  unfolding tx_loop
  tx_loop_idle [] s stopped = refl
  tx_loop_idle (events ∷ later) s stopped = if_stopped s _ (ok tt, s) stopped

  and_then_cong :
      (x : Result (Unit {0}) × Server W) (f g h : Server W → Result (Unit {0}) × Server W)
      → x.1.running ≡ false
      → ((s : Server W) → s.running ≡ false → and_then (f s) g ≡ h s)
      → and_then (and_then x f) g ≡ and_then x h
  and_then_cong (ok u, s) f g h stopped same = same s stopped
  and_then_cong (raise e, s) f g h stopped same = refl

  -- A kill switch that the thread finds after the server was stopped ends the loop: the events
  -- that come after it in the same selection are not handled, nor is any later selection.
  pub tx_loop_stopped :
      (before after : List TxEvent) (later : List (List TxEvent)) (s : Server W)
      → s.running ≡ false
      → and_then
          (for_events send recv bus_send (before ++ (kill_switch ∷ after)) s)
          (tx_loop send recv bus_send later)
        ≡ for_events send recv bus_send (before ++ (kill_switch ∷ [])) s
  unfolding for_events take_wakeup
  tx_loop_stopped [] after later s stopped =
      let s' = take_wakeup send recv bus_send s in
      ap (λ x. and_then x (tx_loop send recv bus_send later)) (if_stopped s _ (ok tt, s') stopped)
      ∙ tx_loop_idle later s' stopped
      ∙ sym (if_stopped s (ok tt, s') (ok tt, s') stopped)
  tx_loop_stopped (kill_switch ∷ before) after later s stopped =
      let s' = take_wakeup send recv bus_send s in
      ap (λ x. and_then x (tx_loop send recv bus_send later)) (if_stopped s _ (ok tt, s') stopped)
      ∙ tx_loop_idle later s' stopped
      ∙ sym (if_stopped s _ (ok tt, s') stopped)
  tx_loop_stopped (ready fd a b ∷ before) after later s stopped =
      let x = on_ready send recv bus_send fd a b s in
      and_then_cong x (for_events send recv bus_send (before ++ (kill_switch ∷ after)))
        (tx_loop send recv bus_send later)
        (for_events send recv bus_send (before ++ (kill_switch ∷ [])))
        ((on_ready-Keeps fd a b s).3 ∙ stopped) (λ t. tx_loop_stopped before after later t)
