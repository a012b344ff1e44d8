-- ===== src/Stream/Build.antt =====
-- src/sockcan/_protocol.py: build_recv_func and build_send_func, which choose the functions for a
-- socket.
use sockcan.Prelude.{ℕ, List, Bool, if◌then◌else◌, Option, none, some, Result, ok, raise, os_error}
use sockcan.Prelude.{system_error}
use sockcan.Bytes.{Bytes, ByteOrder}
use sockcan.Wire.{CanMessage}
use sockcan.Stream.{Call, socketcan_recv, socketcan_recv_stream}
use sockcan.Stream.{socketcan_send, socketcan_send_stream, socketcan_send_msg}
use sockcan.Stream.{socketcan_send_msg_stream}

-- `socket.CMSG_SPACE`, which a system may not have, at the size of a timestamp: two longs of 64 bits.
unfoldable pub get_received_ancillary_buf_size : Option (ℕ → ℕ) → ℕ
get_received_ancillary_buf_size none = 0
get_received_ancillary_buf_size (some cmsg_space) = cmsg_space 16

module _ {S : Type 0} (recv : ℕ → Call S Bytes)
    (recvmsg : Option (ℕ → ℕ → Call S (Bytes × List Bytes)))
    (timestamp_unpack : Bytes → Result (ℕ × ℕ)) (received_ancillary_buf_size : ℕ) where
  -- `recvmsg` is none on a system without it.
  unfoldable pub build_recv_func : ByteOrder → (S → ℕ) → Bool → Bool → Result (Call S CanMessage)
  unfolding socketcan_recv socketcan_recv_stream
  build_recv_func o time_fn use_native_timestamps is_stream =
      if is_stream
      then ok (socketcan_recv_stream recv (os_error none) o time_fn)
      else elim recvmsg [
        | none ↦ raise system_error
        | some f ↦ ok (
            socketcan_recv f (os_error none) timestamp_unpack o time_fn
              (if use_native_timestamps then received_ancillary_buf_size else 0))
      ]

module _ {S : Type 0} (send : Bytes → Call S ℕ) where
  -- `build_send_func` with `expects_msg_cls=False`.
  unfoldable pub build_send_func : ByteOrder → Bool → ℕ → Bytes → Bool → Call S (Unit {0})
  unfolding socketcan_send socketcan_send_stream
  build_send_func o is_stream =
      if is_stream then socketcan_send_stream send o else socketcan_send send o

  -- `build_send_func` with `expects_msg_cls=True`.
  unfoldable pub build_msg_send_func : ByteOrder → Bool → CanMessage → Call S (Unit {0})
  unfolding socketcan_send_msg socketcan_send_msg_stream
  build_msg_send_func o is_stream =
      if is_stream then socketcan_send_msg_stream send o else socketcan_send_msg send o
