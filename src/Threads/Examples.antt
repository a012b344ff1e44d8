-- ===== src/Threads/Examples.antt =====
-- The theorems about the server's threads at two consumers, one of them with a full socket.
use sockcan.Prelude.{List, and_then}
use sockcan.Transmit.Loop.{TxEvent, kill_switch, ready, for_events, tx_loop}
use sockcan.Threads.Rounds.{tx_loop-IsSound, tx_loop_stopped}
use sockcan.Prelude.{ℕ, [], ◌∷◌, ◌++◌, ◌≡◌, refl, arith, true, false, some}
use sockcan.Prelude.{ok, length, ◌-◌}
use sockcan.Backlog.{consumer_backlog_size, fresh_io}
use sockcan.Backlog.Window.{push_all, newest, push_all_lem}
use sockcan.Filters.{no_filters, id_set}
use sockcan.Server.{Server, update, read_write, listen_to, subscribe}
use sockcan.Server.View.{view}
use sockcan.Receive.{dispatch, has_consumer}
use sockcan.Receive.Turn.{additions}
use sockcan.Receive.FanOut.{dispatch_fan_out}
use sockcan.Transmit.{on_write, on_read}
use sockcan.Transmit.Drain.{view-on_write}
use sockcan.Threads.{init, here, next, listens, reads, has_rx}
use sockcan.Threads.Served.{IsSound}
use sockcan.Threads.Sound.{Reach-IsSound}
use sockcan.Threads.Virtual.{IsStuckWith, virtual_never_reaps}
use sockcan.Threads.Sample.{
  Wires, send, send-Sends, send-Accepts, recv, bus_send, frame, consumer, two_consumers,
}

push_all_lem_example :
    ((push_all fresh_io (frame ∷ frame ∷ [])).outbound
      ≡ newest consumer_backlog_size (frame ∷ frame ∷ []))
    × ((push_all fresh_io (frame ∷ frame ∷ [])).dropped
        ≡ length (frame ∷ frame ∷ []) - consumer_backlog_size)
push_all_lem_example = push_all_lem (frame ∷ frame ∷ [])

dispatch_fan_out_example :
    (s' : Server Wires) × (dispatch send two_consumers.consumers frame two_consumers ≡ (ok tt, s'))
    × ((j : ℕ)
        → view (λ v. v) s' j
          ≡ view (λ v. v) two_consumers j ++ additions j two_consumers.consumers frame)
dispatch_fan_out_example =
    dispatch_fan_out send (λ v. v) send-Sends send-Accepts two_consumers.consumers frame
      two_consumers ((refl, λ e. cc), ((refl, λ e. cc), tt)) (λ j. omega arith)

-- Two frames wait for the socket 4.
abbrev backed_up : Server Wires
backed_up = record two_consumers {
  io = update (λ _. fresh_io) 4 (record { outbound = frame ∷ frame ∷ []; dropped = 3 });
  selector = λ j. some read_write;
}

view-on_write_example : view (λ v. v) (on_write send 4 backed_up).1 4 ≡ view (λ v. v) backed_up 4
view-on_write_example = view-on_write send (λ v. v) send-Sends 4 backed_up 4 refl

Reach-IsSound_example :
    IsSound (listen_to 4 false no_filters false (init {W = Wires} true true (λ _. []))).1
Reach-IsSound_example =
    Reach-IsSound send recv bus_send true true (λ _. [])
      (next here (listens 4 false no_filters false))

-- A virtual server with a consumer on the socket 4, whose receive fails.
abbrev virtual : Server Wires
virtual = record two_consumers { has_bus = false }

virtual-IsStuckWith : IsStuckWith 4 virtual
unfolding has_rx has_consumer
virtual-IsStuckWith = (refl, refl, refl)

virtual_never_reaps_example : IsStuckWith 4 (on_read send recv bus_send 4 virtual).1
virtual_never_reaps_example =
    virtual_never_reaps send recv bus_send 4 virtual virtual-IsStuckWith (next here (reads 4))

-- A server with a bus and the consumer on the socket 4.
abbrev one_consumer : Server Wires
one_consumer = record (init true false (λ _. [])) { consumers = consumer 4 ∷ [] }

subscribed : (subscribe 7 true (id_set (0x100 ∷ [])) one_consumer).0 ≡ ok tt
unfolding subscribe
subscribed = refl

-- The socket 4 is readable, but its receive fails; the socket 5 takes frames.
abbrev busy : List (List TxEvent)
busy = (ready 4 true true ∷ ready 5 false true ∷ kill_switch ∷ []) ∷ []

abbrev idle : Server Wires
idle = init true true (λ _. [])

tx_loop-IsSound_example : IsSound (tx_loop send recv bus_send busy idle).1
tx_loop-IsSound_example =
    tx_loop-IsSound send recv bus_send busy idle
      (Reach-IsSound send recv bus_send true true (λ _. []) here)

tx_loop_stopped_example :
    and_then
      (for_events send recv bus_send
        ((ready 4 true true ∷ []) ++ (kill_switch ∷ (ready 5 false true ∷ [])))
        backed_up)
      (tx_loop send recv bus_send busy)
    ≡ for_events send recv bus_send ((ready 4 true true ∷ []) ++ (kill_switch ∷ [])) backed_up
tx_loop_stopped_example =
    tx_loop_stopped send recv bus_send (ready 4 true true ∷ []) (ready 5 false true ∷ []) busy
      backed_up refl
