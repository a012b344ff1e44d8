-- ===== src/Race.antt =====
-- src/sockcan/daemon/_server.py: the RX and the TX thread on the backlog of one consumer, at the grain
-- at which they interleave: a test or a deque operation is one step, and so is what a thread does
-- while it holds `_selector_lock`. The consumer's filters match, its socket is a stream,
-- and its connection is up. The TX thread also passes on the frames of other consumers; there the test
-- and what follows are one step, since only the RX thread can come between and it takes nothing away.
pub mod Stranded
mod Examples
use sockcan.Prelude.{ℕ, List, [], ◌∷◌, ◌++◌, Bool, true, false, ◌≡◌, ◌≢◌, length}
use sockcan.Backlog.{Frame, append_frame, consumer_backlog_size}
use sockcan.Server.{Interest, read, read_write}

-- Where the RX thread stands with a frame: before the test `if outbound`; after a test that found
-- frames waiting, before the append; or after a send that was refused, before `_queue_frame`.
pub data RxPoint : Type 0 where
  waits : RxPoint
  received saw_backlog refused : Frame → RxPoint

-- Where the TX thread stands: in its selection, in the loop `while outbound`, after a send of the
-- oldest frame, or behind the loop, before it takes the lock.
pub data TxPoint : Type 0 where
  selecting draining sent_oldest before_lock : TxPoint

-- `delivered` is what the consumer's socket took.
pub record Shared : Type 0 where
  pub outbound : List Frame
  pub interest : Interest
  pub delivered : List Frame
  pub rx : RxPoint
  pub tx : TxPoint

-- `popleft`, at a deque that may have changed since the peek.
abbrev pub pop_left : List Frame → List Frame
pop_left [] = []
pop_left (f ∷ fs) = fs

-- Under the lock: `if not outbound: selector.modify(fileobj, EVENT_READ, ...)`
unfoldable pub demote : List Frame → Interest → Interest
demote [] i = read
demote (f ∷ fs) i = i

pub data Step (s : Shared) : Shared → Type 0 where
  -- the bus hands over a frame
  rx_recv : (f : Frame) → s.rx ≡ waits → Step s (record s { rx = received f })
  -- `if outbound:` found something
  rx_test_backlog :
      (f : Frame) → s.rx ≡ received f → s.outbound ≢ [] → Step s (record s { rx = saw_backlog f })
  -- `outbound.append(...)`, without the lock
  rx_append :
      (f : Frame)
      → s.rx ≡ saw_backlog f
      → Step s (record s { outbound = append_frame consumer_backlog_size s.outbound f; rx = waits })
  -- nothing was waiting, and the socket takes the frame
  rx_send :
      (f : Frame)
      → s.rx ≡ received f
      → s.outbound ≡ []
      → Step s (record s { delivered = s.delivered ++ (f ∷ []); rx = waits })
  -- nothing was waiting, and the socket is full
  rx_refused :
      (f : Frame) → s.rx ≡ received f → s.outbound ≡ [] → Step s (record s { rx = refused f })
  -- `_queue_frame`: append and promote, with the lock
  rx_queue :
      (f : Frame)
      → s.rx ≡ refused f
      → Step s (record s {
        outbound = append_frame consumer_backlog_size s.outbound f;
        interest = read_write;
        rx = waits;
      })
  -- the selector reports the socket writable, which it does only while it watches for that
  tx_wake : s.tx ≡ selecting → s.interest ≡ read_write → Step s (record s { tx = draining })
  -- the oldest frame goes out
  tx_send :
      (f : Frame) (fs : List Frame)
      → s.tx ≡ draining
      → s.outbound ≡ f ∷ fs
      → Step s (record s { delivered = s.delivered ++ (f ∷ []); tx = sent_oldest })
  tx_pop : s.tx ≡ sent_oldest → Step s (record s { outbound = pop_left s.outbound; tx = draining })
  -- the socket is full again
  tx_blocked : s.tx ≡ draining → s.outbound ≢ [] → Step s (record s { tx = before_lock })
  -- `while outbound:` ends
  tx_empty : s.tx ≡ draining → s.outbound ≡ [] → Step s (record s { tx = before_lock })
  tx_lock :
      s.tx ≡ before_lock
      → Step s (record s { interest = demote s.outbound s.interest; tx = selecting })
  -- a frame of another consumer is passed on to this one: the test and what it leads to
  tx_forward_append :
      (f : Frame)
      → s.tx ≡ selecting
      → s.outbound ≢ []
      → Step s (record s { outbound = append_frame consumer_backlog_size s.outbound f })
  tx_forward_send :
      (f : Frame)
      → s.tx ≡ selecting
      → s.outbound ≡ []
      → Step s (record s { delivered = s.delivered ++ (f ∷ []) })
  tx_forward_queue :
      (f : Frame)
      → s.tx ≡ selecting
      → s.outbound ≡ []
      → Step s (record s {
        outbound = append_frame consumer_backlog_size s.outbound f;
        interest = read_write;
      })

pub data Reach (s : Shared) : Shared → Type 0 where
  here : Reach s s
  next : {t u : Shared} → Reach s t → Step t u → Reach s u
