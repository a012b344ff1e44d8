-- ===== src/Wire/Relay.antt =====
-- What a frame looks like after a server has received it and sent it on.
use sockcan.Prelude.{ℕ, List, [], ◌∷◌, ◌%◌, ◌^◌, ◌<◌, ◌≤◌, ◌≡◌, refl, ap, ◌∙◌, arith}
use sockcan.Prelude.{Bool, length, Result, ok, ◌>>=◌}
use sockcan.Bytes.{Bytes, ByteOrder}
use sockcan.Wire.{header_id, frame_payload, decode_frame}
use sockcan.Wire.Header.{is_marked, extension_bits}
use sockcan.Wire.RoundTrip.{frame_bytes, payload_eq, decode_eq}

-- A frame that is received at a time and sent on, with what the receiver knows of it.
unfoldable pub relay : ByteOrder → Bytes → ℕ → Result Bytes
relay o frame time =
    decode_frame o frame time >>= (λ m. frame_payload o m.arbitration_id m.payload m.is_extended_id)

-- One server after another.
unfoldable pub relay_all : ByteOrder → List ℕ → Bytes → Result Bytes
unfolding relay
relay_all o [] frame = ok frame
relay_all o (time ∷ times) frame = relay o frame time >>= relay_all o times

header_id-is_marked :
    (can_id : ℕ) (ext : Bool)
    → can_id < 2 ^ 29
    → header_id (can_id % 2 ^ 29) (is_marked can_id ext) ≡ header_id can_id ext
unfolding header_id
header_id-is_marked can_id ext small = ground (arith, small, extension_bits can_id)

frame_bytes-is_marked :
    (o : ByteOrder) (can_id : ℕ) (bs : Bytes) (ext : Bool)
    → can_id < 2 ^ 29
    → frame_bytes o (can_id % 2 ^ 29) bs (is_marked can_id ext) ≡ frame_bytes o can_id bs ext
unfolding frame_bytes
frame_bytes-is_marked o can_id bs ext small = rw (header_id-is_marked can_id ext small) refl

relay-same :
    (o : ByteOrder) (can_id : ℕ) (bs : Bytes) (ext : Bool) (time : ℕ)
    → can_id < 2 ^ 29
    → length bs ≤ 8
    → relay o (frame_bytes o can_id bs ext) time ≡ ok (frame_bytes o can_id bs ext)
unfolding relay
relay-same o can_id bs ext time small short =
    ap (λ r. r >>= (λ m. frame_payload o m.arbitration_id m.payload m.is_extended_id))
      (decode_eq o can_id bs ext time (omega (arith, small)))
    ∙ payload_eq o (can_id % 2 ^ 29) bs (is_marked can_id ext) (omega (arith, small))
        (omega (arith, short))
    ∙ ap ok (frame_bytes-is_marked o can_id bs ext small)

-- A frame that was built for an identifier of 29 bits and up to 8 data bytes comes out of any chain
-- of servers as the same 16 bytes, whenever each of them receives it: nothing of its identifier, its
-- data or its kind is lost on the way, also where the sender left the mark of an extended frame to
-- the protocol.
pub relay_all-frame_payload :
    (o : ByteOrder) (can_id : ℕ) (bs : Bytes) (ext : Bool) (times : List ℕ)
    → can_id < 2 ^ 29
    → length bs ≤ 8
    → (frame : Bytes) × (frame_payload o can_id bs ext ≡ ok frame)
      × (relay_all o times frame ≡ ok frame)
unfolding relay_all
relay_all-frame_payload o can_id bs ext times small short = (
  frame_bytes o can_id bs ext,
  payload_eq o can_id bs ext (omega (arith, small)) (omega (arith, short)),
  chain times,
)
  where
    chain :
        (ts : List ℕ)
        → relay_all o ts (frame_bytes o can_id bs ext) ≡ ok (frame_bytes o can_id bs ext)
    chain [] = refl
    chain (t ∷ ts) =
        ap (λ r. r >>= relay_all o ts) (relay-same o can_id bs ext t small short) ∙ chain ts
