-- ===== src/Backlog.antt =====
-- src/sockcan/daemon/_server.py: the frames that wait for a consumer whose socket is full.
pub mod Window
use sockcan.Prelude.{ℕ, ◌+◌, List, [], ◌∷◌, ◌++◌, Bool, if◌then◌else◌, ◌==◌, length, drop}
use sockcan.Bytes.{Bytes}

-- `(can_id, data, is_extended)`
pub record Frame : Type 0 where
  pub can_id : ℕ
  pub payload : Bytes
  pub is_extended : Bool

abbrev pub consumer_backlog_size : ℕ
consumer_backlog_size = 10_000

-- The state of a consumer that both threads share, without its two socket functions.
pub record ConsumerIo : Type 0 where
  pub outbound : List Frame
  pub dropped : ℕ

abbrev pub fresh_io : ConsumerIo
fresh_io = record { outbound = []; dropped = 0 }

-- `deque.append` at `maxlen`: a full deque loses its oldest entry.
unfoldable pub append_frame : ℕ → List Frame → Frame → List Frame
append_frame maxlen q f = if length q == maxlen then drop 1 q ++ (f ∷ []) else q ++ (f ∷ [])

unfoldable pub note_dropped_frame : ConsumerIo → ConsumerIo
note_dropped_frame io = record io { dropped = io.dropped + 1 }

-- What both threads do to queue a frame: account for the frame that a full backlog loses, append.
unfoldable pub push_frame : ConsumerIo → Frame → ConsumerIo
unfolding append_frame note_dropped_frame
push_frame io f =
    let io' = if length io.outbound == consumer_backlog_size then note_dropped_frame io else io in
    record io' { outbound = append_frame consumer_backlog_size io'.outbound f }
