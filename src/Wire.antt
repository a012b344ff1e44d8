-- ===== src/Wire.antt =====
-- src/sockcan/_protocol.py: the frames of the socketcan protocol. Their header is the `struct`
-- format `=IBB2x`: a 32-bit word in the machine's byte order, two bytes and two bytes of padding.
pub mod Header
pub mod RoundTrip
pub mod Extended
pub mod Relay
mod Examples
use sockcan.Prelude.{ℕ, ◌+◌, ◌*◌, ◌^◌, List, [], ◌∷◌, ◌++◌, Bool, ◌||◌, ◌&&◌, not, if◌then◌else◌}
use sockcan.Prelude.{ltb, leb, ◌==◌, length, take, drop, replicate, get_or, ◌-◌, bit_and, bit_or}
use sockcan.Prelude.{Result, ok, raise, struct_error, ◌>>=◌}
use sockcan.Bytes.{Bytes, ByteOrder, pack_word, unpack_word}

-- The timestamp counts nanoseconds; the program holds it as a float of seconds.
pub record CanMessage : Type 0 where
  pub arbitration_id : ℕ
  pub payload : Bytes
  pub is_extended_id : Bool
  pub timestamp : ℕ

abbrev pub can_eff_flag : ℕ
can_eff_flag = 0x80000000

abbrev pub can_extension_mask : ℕ
can_extension_mask = 0x07FFF800

abbrev pub can_id_mask : ℕ
can_id_mask = 0x1FFFFFFF

abbrev pub socketcan_struct_size : ℕ
socketcan_struct_size = 16

-- CAN_FRAME_HEADER_STRUCT.pack: a value out of its field's range is a struct.error.
unfoldable pub header_pack : ByteOrder → ℕ → ℕ → ℕ → Result Bytes
header_pack o can_id dlc flags =
    if ltb can_id (2 ^ 32) && (ltb dlc 256 && ltb flags 256)
    then ok (pack_word o 4 can_id ++ (dlc ∷ flags ∷ 0 ∷ 0 ∷ []))
    else raise struct_error

-- CAN_FRAME_HEADER_STRUCT.unpack_from: a buffer below 8 bytes is a struct.error.
unfoldable pub header_unpack : ByteOrder → Bytes → Result (ℕ × ℕ × ℕ)
header_unpack o cf =
    if leb 8 (length cf)
    then ok (unpack_word o (take 4 cf), get_or cf 4 0, get_or cf 5 0)
    else raise struct_error

-- The identifier that goes into the header.
unfoldable pub header_id : ℕ → Bool → ℕ
header_id can_id is_extended_id =
    if is_extended_id || ltb 0 (bit_and can_id can_extension_mask)
    then bit_or can_id can_eff_flag
    else can_id

unfoldable pub build_tx_header : ByteOrder → ℕ → ℕ → Bool → Result Bytes
unfolding header_id header_pack
build_tx_header o can_id dlc is_extended_id = header_pack o (header_id can_id is_extended_id) dlc 0

-- `data.ljust(8, b"\0")`
unfoldable pub ljust : Bytes → Bytes
ljust bs = bs ++ replicate (8 - length bs) 0

-- `header + data.ljust(8, b"\0")`, what each of the four senders hands to its socket.
unfoldable pub frame_payload : ByteOrder → ℕ → Bytes → Bool → Result Bytes
unfolding build_tx_header ljust
frame_payload o can_id bs is_extended_id = do
  header ← build_tx_header o can_id (length bs) is_extended_id
  ok (header ++ ljust bs)

-- What both receive functions make of a frame `cf`.
unfoldable pub decode_frame : ByteOrder → Bytes → ℕ → Result CanMessage
unfolding header_unpack
decode_frame o cf timestamp = do
  (word, can_dlc, _) ← header_unpack o cf
  ok (record {
    arbitration_id = bit_and word can_id_mask;
    payload = take can_dlc (drop 8 cf);
    is_extended_id = not (bit_and word can_eff_flag == 0);
    timestamp = timestamp;
  })
