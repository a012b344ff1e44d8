-- ===== src/Busload.antt =====
-- src/sockcan/daemon/__main__.py: the bus load that the command line shows. Times are whole nanoseconds.
mod Examples
use sockcan.Prelude.{ℕ, ◌+◌, ◌-◌, ◌*◌, List, [], ◌∷◌, ◌++◌, refl, ap, ◌∙◌}
use sockcan.Prelude.{Option, none, some, Bool, if◌then◌else◌, leb, length}
use sockcan.Wire.{CanMessage}

-- `_frame_bit_count`
unfoldable pub frame_bit_count : Bool → ℕ → ℕ
frame_bit_count is_extended_id data_len = (if is_extended_id then 67 else 47) + 8 * data_len

-- The variables of the loop.
pub record LoadWindow : Type 0 where
  pub window_bits : ℕ
  pub window_msg_count : ℕ
  pub window_start : ℕ

-- What is shown of a window: the load is 100 bits in bitrate times elapsed, the rate count in elapsed.
pub record LoadReport : Type 0 where
  pub bits : ℕ
  pub msg_count : ℕ
  pub elapsed : ℕ

-- A message with the times that the clock shows after it and, where a window ends, at the start of
-- the next one.
pub record Arrival : Type 0 where
  pub message : CanMessage
  pub now : ℕ
  pub restart : ℕ

unfoldable pub message_bits : CanMessage → ℕ
unfolding frame_bit_count
message_bits msg = frame_bit_count msg.is_extended_id (length msg.payload)

unfoldable pub count_message : Arrival → LoadWindow → LoadWindow
unfolding message_bits
count_message a w = record w {
  window_bits = w.window_bits + message_bits a.message;
  window_msg_count = w.window_msg_count + 1;
}

-- The loop, with the windows that it shows and the one that is open at its end.
unfoldable pub busload : ℕ → List Arrival → LoadWindow → List LoadReport × LoadWindow
unfolding count_message
busload window [] w = ([], w)
busload window (a ∷ arrivals) w =
    let w' = count_message a w in
    let open_on = busload window arrivals w' in
    let begun =
      busload window arrivals
        (record { window_bits = 0; window_msg_count = 0; window_start = a.restart }) in
    if leb window (a.now - w.window_start)
    then (
      record {
        bits = w'.window_bits;
        msg_count = w'.window_msg_count;
        elapsed = a.now - w.window_start;
      }
          ∷ begun.0,
      begun.1,
    )
    else open_on

abbrev pub sum_of : (LoadReport → ℕ) → List LoadReport → ℕ
sum_of f [] = 0
sum_of f (r ∷ rs) = f r + sum_of f rs

abbrev pub sum_bits : List Arrival → ℕ
sum_bits [] = 0
sum_bits (a ∷ arrivals) = message_bits a.message + sum_bits arrivals
