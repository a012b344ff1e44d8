-- ===== src/Wire/Extended.antt =====
-- Which identifiers the sender marks as extended when the caller leaves the flag out.
use sockcan.Prelude.{ℕ, ◌/◌, ◌%◌, ◌^◌, ◌<◌, ◌≤◌, ◌≡◌, Bool, false, ◌||◌, leb, length, ok, arith}
use sockcan.Bytes.{Bytes, ByteOrder}
use sockcan.Wire.{frame_payload, decode_frame}
use sockcan.Wire.Header.{is_marked_below}
use sockcan.Wire.RoundTrip.{frame_bytes, payload_eq, decode_eq}

-- For an identifier below 2^27 a receiver sees an extended frame exactly if the sender asked for
-- one or the identifier needs more than 11 bits, and it sees the sender's identifier.
extended_when_needed :
    (o : ByteOrder) (can_id : ℕ) (bs : Bytes) (ext : Bool) (t : ℕ)
    → can_id < 2 ^ 27
    → length bs ≤ 8
    → (frame : Bytes) × (frame_payload o can_id bs ext ≡ ok frame)
      × (decode_frame o frame t
          ≡ ok (record {
            arbitration_id = can_id;
            payload = bs;
            is_extended_id = ext || leb 2048 can_id;
            timestamp = t;
          }))
extended_when_needed o can_id bs ext t small short = (
  frame_bytes o can_id bs ext,
  payload_eq o can_id bs ext (omega arith) (omega arith),
  ground (arith, decode_eq o can_id bs ext t, is_marked_below can_id ext small),
)

-- An identifier of 28 or 29 bits whose bits 11 to 26 are zero cannot be a standard one, and yet it
-- goes out unmarked when the caller leaves the flag out: the receiver sees a standard frame.
pub extended_but_unmarked :
    (o : ByteOrder) (can_id : ℕ) (bs : Bytes) (t : ℕ)
    → 2 ^ 27 ≤ can_id
    → can_id < 2 ^ 29
    → can_id / 2 ^ 11 % 2 ^ 16 ≡ 0
    → length bs ≤ 8
    → (frame : Bytes) × (frame_payload o can_id bs false ≡ ok frame)
      × (decode_frame o frame t
          ≡ ok (record {
            arbitration_id = can_id;
            payload = bs;
            is_extended_id = false;
            timestamp = t;
          }))
extended_but_unmarked o can_id bs t high small gap short = (
  frame_bytes o can_id bs false,
  payload_eq o can_id bs false (omega arith) (omega arith),
  ground (arith, decode_eq o can_id bs false t),
)
