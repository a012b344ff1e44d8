-- ===== src/Busload/Examples.antt =====
-- The bus load at three messages, of which the second ends a window of 100 ns.
use sockcan.Prelude.{List, [], ◌∷◌, ◌≡◌, refl, true, false}
use sockcan.Wire.{CanMessage}
use sockcan.Busload.{message_bits, Arrival, LoadWindow, busload}

abbrev message : CanMessage
message = record {
  arbitration_id = 0x100;
  payload = 1 ∷ 2 ∷ [];
  is_extended_id = false;
  timestamp = 0;
}

abbrev arrivals : List Arrival
arrivals =
    record { message = message; now = 60; restart = 60 }
    ∷ record { message = message; now = 120; restart = 125 }
    ∷ record { message = record message { is_extended_id = true }; now = 200; restart = 200 }
    ∷ []

abbrev fresh_window : LoadWindow
fresh_window = record { window_bits = 0; window_msg_count = 0; window_start = 10 }

one_window : (busload 100 arrivals fresh_window).1.window_bits ≡ 83
unfolding busload message_bits
one_window = refl
