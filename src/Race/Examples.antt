-- ===== src/Race/Examples.antt =====
-- The race at two frames.
use sockcan.Prelude.{[], ◌∷◌, ◌++◌, ◌≡◌, ◌≢◌, false}
use sockcan.Backlog.{Frame}
use sockcan.Race.{Shared, Reach}
use sockcan.Race.Stranded.{IsStranded, backed_up, stranding_reachable}

abbrev old : Frame
old = record { can_id = 0x100; payload = 1 ∷ []; is_extended = false }

abbrev new : Frame
new = record { can_id = 0x101; payload = 2 ∷ []; is_extended = false }

some_wait : old ∷ [] ≢ []
some_wait e = cc

stranding_reachable_example :
    (t : Shared) × Reach (backed_up [] (old ∷ []) new) t
    × IsStranded t
    × (t.outbound ≡ new ∷ [])
    × (t.delivered ≡ [] ++ (old ∷ []))
    × ((u : Shared) → Reach t u → IsStranded u × (u.delivered ≡ t.delivered))
stranding_reachable_example = stranding_reachable [] (old ∷ []) new some_wait
