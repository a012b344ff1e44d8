-- ===== src/Wire/Examples.antt =====
-- Frames by hand, and the theorems about frames at concrete requests.
use sockcan.Prelude.{◌≡◌, ◌^◌, ◌%◌, refl, [], ◌∷◌, length, inl, arith, true, false}
use sockcan.Prelude.{ok, raise, struct_error, replicate}
use sockcan.Bytes.{Bytes, little, big, pack_word, le_bytes}
use sockcan.Wire.{frame_payload, decode_frame}
use sockcan.Wire.Header.{is_marked}
use sockcan.Wire.RoundTrip.{decode_frame-frame_payload, frame_payload_refused}
use sockcan.Wire.Relay.{relay_all, relay_all-frame_payload}
use sockcan.Wire.Extended.{extended_but_unmarked}

abbrev three_bytes : Bytes
three_bytes = 1 ∷ 2 ∷ 3 ∷ []

standard_frame :
    frame_payload little 0x123 three_bytes false
    ≡ ok (0x23 ∷ 1 ∷ 0 ∷ 0 ∷ 3 ∷ 0 ∷ 0 ∷ 0 ∷ 1 ∷ 2 ∷ 3 ∷ 0 ∷ 0 ∷ 0 ∷ 0 ∷ 0 ∷ [])
unfolding frame_payload pack_word le_bytes
standard_frame = refl

big_endian_frame :
    frame_payload big 0x18DA_F110 [] true ≡ ok (0x98 ∷ 0xDA ∷ 0xF1 ∷ 0x10 ∷ replicate 12 0)
unfolding frame_payload pack_word le_bytes
big_endian_frame = refl

decode_frame-frame_payload_example :
    (frame : Bytes) × (frame_payload little 0x123 three_bytes false ≡ ok frame)
    × (length frame ≡ 16)
    × (decode_frame little frame 7
        ≡ ok (record {
          arbitration_id = 0x123 % 2 ^ 29;
          payload = three_bytes;
          is_extended_id = is_marked 0x123 false;
          timestamp = 7;
        }))
decode_frame-frame_payload_example =
    decode_frame-frame_payload little 0x123 three_bytes false 7 (omega arith) (omega arith)

refused : frame_payload big 0x1_0000_0000 [] true ≡ raise struct_error
refused = frame_payload_refused big 0x1_0000_0000 [] true (inl (omega arith))

-- The sender does not say that the frame is extended.
relay_all-frame_payload_example :
    (frame : Bytes) × (frame_payload little 0x12345 three_bytes false ≡ ok frame)
    × (relay_all little (3 ∷ 5 ∷ []) frame ≡ ok frame)
relay_all-frame_payload_example =
    relay_all-frame_payload little 0x12345 three_bytes false (3 ∷ 5 ∷ []) (omega arith)
      (omega arith)

extended_but_unmarked_example :
    (frame : Bytes) × (frame_payload little 0x0800_0001 [] false ≡ ok frame)
    × (decode_frame little frame 7
        ≡ ok (record {
          arbitration_id = 0x0800_0001;
          payload = [];
          is_extended_id = false;
          timestamp = 7;
        }))
extended_but_unmarked_example =
    extended_but_unmarked little 0x0800_0001 [] 7 (omega arith) (omega arith) refl (omega arith)
