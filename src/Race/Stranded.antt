-- ===== src/Race/Stranded.antt =====
-- The append without the lock can fall between the end of a drain and the lock: the backlog then
-- waits for a write event that the selector no longer looks for.
use sockcan.Prelude.{
  List, [], ◌∷◌, ◌++◌, ◌≡◌, ◌≢◌, refl, sym, ◌∙◌, arith, drop, subst, append-nil, append_assoc,
}
use sockcan.Backlog.{Frame, append_frame, consumer_backlog_size}
use sockcan.Server.{read, read_write}
use sockcan.Race.{Shared, Step, Reach, RxPoint, waits, received, saw_backlog, refused}
use sockcan.Race.{selecting, draining, demote, here, next}
use sockcan.Race.{
  tx_forward_append, tx_forward_send, tx_forward_queue, rx_recv, rx_test_backlog, rx_append,
  rx_send, rx_refused, rx_queue, tx_wake, tx_send, tx_pop, tx_blocked, tx_empty, tx_lock,
}

-- Frames wait, the selector watches for reading alone, and no thread is about to change that.
abbrev pub NotRefused : RxPoint → Type 0
NotRefused (refused f) = ⊥
NotRefused _ = Unit

pub record IsStranded (s : Shared) : Type 0 where
  pub waiting : s.outbound ≢ []
  pub unwatched : s.interest ≡ read
  pub idle : s.tx ≡ selecting
  pub no_queue : NotRefused s.rx

snoc-ne-nil : (q : List Frame) (f : Frame) → q ++ (f ∷ []) ≢ []
snoc-ne-nil [] f e = cc
snoc-ne-nil (g ∷ q) f e = cc

append_frame-ne-nil : (q : List Frame) (f : Frame) → append_frame consumer_backlog_size q f ≢ []
unfolding append_frame
append_frame-ne-nil q f = ground (arith, snoc-ne-nil q f, snoc-ne-nil (drop 1 q) f)

Step-IsStranded :
    (s : Shared) {t : Shared} → IsStranded s → Step s t → IsStranded t × (t.delivered ≡ s.delivered)
unfolding demote
Step-IsStranded s v (rx_recv f at) = ground arith
Step-IsStranded s v (rx_test_backlog f at some) = ground arith
Step-IsStranded s v (rx_append f at) = ground (arith, append_frame-ne-nil s.outbound f)
Step-IsStranded s v (rx_send f at none) = absurd (v.waiting none)
Step-IsStranded s v (rx_refused f at none) = absurd (v.waiting none)
Step-IsStranded s v (rx_queue f at) = absurd (subst NotRefused at v.no_queue)
Step-IsStranded s v (tx_wake at watched) = ground arith
Step-IsStranded s v (tx_send f fs at some) = ground arith
Step-IsStranded s v (tx_pop at) = ground arith
Step-IsStranded s v (tx_blocked at some) = ground arith
Step-IsStranded s v (tx_empty at none) = ground arith
Step-IsStranded s v (tx_lock at) = ground arith
Step-IsStranded s v (tx_forward_append f at some) = ground (arith, append_frame-ne-nil s.outbound f)
Step-IsStranded s v (tx_forward_send f at none) = absurd (v.waiting none)
Step-IsStranded s v (tx_forward_queue f at none) = absurd (v.waiting none)

IsStranded-for_good :
    (s : Shared) {t : Shared}
    → IsStranded s
    → Reach s t
    → IsStranded t × (t.delivered ≡ s.delivered)
IsStranded-for_good s v here = (v, refl)
IsStranded-for_good s v (next {t} r st) =
    let (u, same) = IsStranded-for_good s v r in
    let (w, same') = Step-IsStranded t u st in (w, same' ∙ same)

-- A backlog that is watched for writing as it should be, with the RX thread at a new frame.
abbrev pub backed_up : List Frame → List Frame → Frame → Shared
backed_up delivered queue g = record {
  outbound = queue;
  interest = read_write;
  delivered = delivered;
  rx = received g;
  tx = selecting;
}

module _ (g : Frame) where
  -- The RX thread has seen the backlog and stands before its append; the TX thread drains.
  abbrev mid_drain : List Frame → List Frame → Shared
  mid_drain delivered queue = record {
    outbound = queue;
    interest = read_write;
    delivered = delivered;
    rx = saw_backlog g;
    tx = draining;
  }

  drained :
      (start : Shared) (delivered queue : List Frame)
      → Reach start (mid_drain delivered queue)
      → Reach start (mid_drain (delivered ++ queue) [])
  drained start delivered [] r =
      subst (λ d. Reach start (mid_drain d [])) (sym (append-nil delivered)) r
  drained start delivered (f ∷ fs) r =
      subst (λ d. Reach start (mid_drain d [])) (append_assoc delivered (f ∷ []) fs)
        (drained start (delivered ++ (f ∷ [])) fs
          (next (next r (tx_send f fs refl refl)) (tx_pop refl)))

-- From every backlog with something in it that is watched for writing, with the RX thread at a new
-- frame for it, the threads can leave the consumer stranded with the new frame alone waiting, though
-- its socket takes all that waited before. From then on it stays stranded and gets no frame any more,
-- whatever the two threads do while its connection is up.
pub stranding_reachable :
    (delivered queue : List Frame) (g : Frame)
    → queue ≢ []
    → (t : Shared) × Reach (backed_up delivered queue g) t
      × IsStranded t
      × (t.outbound ≡ g ∷ [])
      × (t.delivered ≡ delivered ++ queue)
      × ((u : Shared) → Reach t u → IsStranded u × (u.delivered ≡ t.delivered))
unfolding demote append_frame
stranding_reachable delivered queue g some = (
  stranded,
  next (next (next emptied (tx_empty refl refl)) (tx_lock refl)) (rx_append g refl),
  is_stranded,
  refl,
  refl,
  λ u r. IsStranded-for_good stranded is_stranded r,
)
  where
    emptied : Reach (backed_up delivered queue g) (mid_drain g (delivered ++ queue) [])
    emptied =
        drained g (backed_up delivered queue g) delivered queue
          (next (next here (rx_test_backlog g refl some)) (tx_wake refl refl))

    stranded : Shared
    stranded = record {
      outbound = g ∷ [];
      interest = read;
      delivered = delivered ++ queue;
      rx = waits;
      tx = selecting;
    }

    is_stranded : IsStranded stranded
    is_stranded = record { waiting = λ e. cc; unwatched = refl; idle = refl; no_queue = tt }
