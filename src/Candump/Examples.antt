-- ===== src/Candump/Examples.antt =====
-- The trace of an extended frame that was received.
use sockcan.Prelude.{[], ◌∷◌, ◌++◌, ◌≡◌, refl, true, codes, str, join}
use sockcan.Backlog.{Frame}
use sockcan.Candump.{rx, id_field, payload_field, trace_line}
use sockcan.Candump.{tx}
use sockcan.Prelude.{ℕ, List, Text}
use sockcan.Candump.File.{Entry}

abbrev received : Frame
received = record { can_id = 0x18FF12AB; payload = 0xDE ∷ 0x0A ∷ []; is_extended = true }

line :
    trace_line 12 (codes "3.5") rx received
    ≡ codes "     12)           3.5 1 Rx 18FF12AB 2 DE 0A" ++ (10 ∷ [])
unfolding trace_line id_field payload_field str join
line = refl

abbrev format_ms : ℕ → Text
format_ms ns = codes "3.5"

abbrev entries : List Entry
entries =
    record { now = 7; direction = rx; frame = received }
    ∷ record { now = 9; direction = tx; frame = record received { payload = [] } }
    ∷ []
