-- ===== src/Threads/Served.antt =====
-- No backlog is left that nobody drains, and none grows beyond its limit: the parts that both threads
-- share, the calls of the owner, and reaping.
use sockcan.Prelude.{ℕ, ◌≤◌, List, [], ◌∷◌, ◌≡◌, ◌≢◌, refl, arith}
use sockcan.Prelude.{
  Bool, false, ◌==◌, ==_iff, ==_self, Bool-cases, inl, inr, length, length-append,
}
use sockcan.Prelude.{length-drop, Option, some, drop}
use sockcan.Filters.{Consumer, FilterSpec}
use sockcan.Backlog.{Frame, ConsumerIo, consumer_backlog_size, push_frame}
use sockcan.Server.{Server, Interest, read, modify, unregister, store_frame}
use sockcan.Server.{queue_frame, refresh_bus_filters, listen_to, start, stop, Direction}
use sockcan.Receive.{reap, drop_closed, drop_all_closed, drop_dead, any_closed}

-- One socket: if the selector watches it for reading alone, nothing waits, and the backlog keeps its
-- limit.
abbrev pub IsServed : Option Interest → ConsumerIo → Type 0
IsServed i io = (i ≡ some read → io.outbound ≡ []) × (length io.outbound ≤ consumer_backlog_size)

abbrev pub IsSound : {W : Type 0} → Server W → Type 0
IsSound s = (j : ℕ) → IsServed (s.selector j) (s.io j)

pub push_frame-le :
    (io : ConsumerIo) (f : Frame)
    → length io.outbound ≤ consumer_backlog_size
    → length (push_frame io f).outbound ≤ consumer_backlog_size
unfolding push_frame
push_frame-le io f h = ground (
  arith,
  length-append (drop 1 io.outbound) (f ∷ []),
  length-append io.outbound (f ∷ []),
  length-drop 1 io.outbound,
)

module _ {W : Type 0} where
  -- A state that differs in one socket alone.
  pub IsSound-at :
      (s s' : Server W) (fd : ℕ)
      → IsSound s
      → IsServed (s'.selector fd) (s'.io fd)
      → ((j : ℕ) → (j == fd) ≡ false → (s'.selector j ≡ s.selector j) × (s'.io j ≡ s.io j))
      → IsSound s'
  IsSound-at s s' fd v own other j = elim (Bool-cases (j == fd)) [
    | inl same ↦ rw ((==_iff j fd).0 same) own
    | inr diff ↦ rw ((other j diff).0, (other j diff).1) (v j)
  ]

  pub store_frame-IsSound :
      (fd : ℕ) (f : Frame) (s : Server W)
      → IsSound s
      → s.selector fd ≢ some read
      → IsSound (store_frame fd f s)
  unfolding store_frame
  store_frame-IsSound fd f s v watched =
      IsSound-at s (store_frame fd f s) fd v
        (rw (==_self fd) (λ e. absurd (watched e), push_frame-le (s.io fd) f (v fd).1))
        (λ j diff. (refl, rw diff))

  pub queue_frame-IsSound :
      (fd : ℕ) (f : Frame) (s : Server W) → IsSound s → IsSound (queue_frame fd f s).1
  unfolding queue_frame
  queue_frame-IsSound fd f s v j = ground (arith, v j, v fd, push_frame-le (s.io fd) f)

  pub modify_read-IsSound :
      (fd : ℕ) (s : Server W) → IsSound s → (s.io fd).outbound ≡ [] → IsSound (modify fd read s).1
  unfolding modify
  modify_read-IsSound fd s v empty j = ground (arith, v j, v fd)

  pub unregister-IsSound : (fd : ℕ) (s : Server W) → IsSound s → IsSound (unregister fd s).1
  unfolding unregister
  unregister-IsSound fd s v j = ground (arith, v j, v fd)

  pub refresh_bus_filters-IsSound : (s : Server W) → IsSound s → IsSound (refresh_bus_filters s).1
  unfolding refresh_bus_filters
  refresh_bus_filters-IsSound s v j = ground (arith, v j)

  pub listen_to-IsSound :
      (fd : ℕ) (is_dgram : Bool) (spec : FilterSpec) (force : Bool) (s : Server W)
      → IsSound s
      → IsSound (listen_to fd is_dgram spec force s).1
  unfolding listen_to
  listen_to-IsSound fd is_dgram spec force s v j = ground (arith, v j, v fd)

  pub start-IsSound : (d : Direction) (s : Server W) → IsSound s → IsSound (start d s).1
  unfolding start
  start-IsSound d s v j = ground (arith, v j)

  pub stop-IsSound : (s : Server W) → IsSound s → IsSound (stop s)
  unfolding stop
  stop-IsSound s v j = ground (arith, v j)

  pub drop_closed-IsSound : (fd : ℕ) (s : Server W) → IsSound s → IsSound (drop_closed fd s).1
  unfolding drop_closed
  drop_closed-IsSound fd s v j = ground (arith, v j)

  -- Reaping touches neither a backlog nor the selector.
  pub drop_all_closed-IsSound :
      (cs : List Consumer) (s : Server W) → IsSound s → IsSound (drop_all_closed cs s).1
  unfolding drop_all_closed
  drop_all_closed-IsSound [] s v j = v j
  drop_all_closed-IsSound (c ∷ cs) s v j =
      let v' = drop_closed-IsSound c.fd s v in
      ground (arith, v' j, drop_all_closed-IsSound cs (drop_closed c.fd s).1 v' j)

  pub drop_dead-IsSound :
      (fds : List ℕ) (changed : Bool) (s : Server W)
      → IsSound s
      → IsSound (drop_dead fds changed s).1
  unfolding drop_dead
  drop_dead-IsSound [] changed s v j = v j
  drop_dead-IsSound (fd ∷ fds) changed s v j = drop_dead-IsSound fds _ _ v j

  pub reap-IsSound : (s : Server W) → IsSound s → IsSound (reap s).1
  unfolding reap
  reap-IsSound s v j =
      let t = (drop_all_closed s.closed_connections s).1 in
      let v' = drop_all_closed-IsSound s.closed_connections s v in
      ground (
        arith,
        v' j,
        drop_dead-IsSound t.dead_consumer_fds (any_closed s.closed_connections) t v' j,
      )
