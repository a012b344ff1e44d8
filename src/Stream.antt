-- ===== src/Stream.antt =====
-- src/sockcan/_protocol.py: receiving and sending frames over a socket. The socket is a parameter: its
-- `recv`, `recvmsg` and `send` are functions on a state `S`, which holds the connection, the peer
-- and the clock.
pub mod Reading
pub mod Writing
pub mod Channel
pub mod Build
pub mod Datagram
mod Examples
use sockcan.Prelude.{ℕ, zero, suc, ◌+◌, ◌-◌, ◌*◌, ◌^◌, List, [], ◌∷◌, ◌++◌, flatten, length, drop}
use sockcan.Prelude.{Bool, true, false, if◌then◌else◌, ltb, leb, Option, none, some, ◌>>=◌}
use sockcan.Prelude.{Result, ok, raise, Exception, is_os_error, is_would_block, os_error}
use sockcan.Prelude.{assertion_error, system_error}
use sockcan.Bytes.{Bytes, ByteOrder}
use sockcan.Wire.{CanMessage, socketcan_struct_size, frame_payload, header_unpack, decode_frame}

-- A method of the socket: its outcome and the state after it.
abbrev pub Call : Type 0 → Type 0 → Type 0
Call S A = S → Result A × S

abbrev pub canfd_mtu : ℕ
canfd_mtu = 72

abbrev pub stream_send_attempts : ℕ
stream_send_attempts = 5

-- `except OSError as error: raise exc_class(...) from error`; other exceptions pass.
abbrev pub wrap : Exception → Exception → Exception
wrap exc_class e = if is_os_error e then exc_class else e

-- The second half of `_socketcan_recv_stream`; `time_fn` reads the clock when the frame is there.
unfoldable pub decode_received :
    {S : Type 0} → ByteOrder → (S → ℕ) → Result Bytes × S → Result CanMessage × S
decode_received o time_fn (raise e, s) = (raise e, s)
decode_received o time_fn (ok cf, s) = (decode_frame o cf (time_fn s), s)

module _ {S : Type 0} (recv_fn : ℕ → Call S Bytes) (exc_class : Exception) where
  -- One round of `_complete_frame`, from what the socket returned; `next` is the rest of the loop.
  unfoldable pub take_chunk :
      (List Bytes → ℕ → Call S Bytes) → List Bytes → ℕ → Result Bytes × S → Result Bytes × S
  take_chunk next chunks received (raise e, s) = (raise (wrap exc_class e), s)
  take_chunk next chunks received (ok [], s) = (raise exc_class, s)
  take_chunk next chunks received (ok (b ∷ bs), s) =
      next (chunks ++ ((b ∷ bs) ∷ [])) (received + length (b ∷ bs)) s

  -- Each round adds at least one byte, so that the fuel, the number of bytes that are missing, ends
  -- with the loop.
  unfoldable pub complete_frame_loop : ℕ → ℕ → List Bytes → ℕ → Call S Bytes
  complete_frame_loop zero msg_size chunks received s = (ok (flatten chunks), s)
  complete_frame_loop (suc fuel) msg_size chunks received s = elim (ltb received msg_size) [
    | false ↦ (ok (flatten chunks), s)
    | true ↦
        take_chunk (complete_frame_loop fuel msg_size) chunks received
          (recv_fn (msg_size - received) s)
  ]

  unfoldable pub complete_frame : Bytes → ℕ → Call S Bytes
  unfolding complete_frame_loop take_chunk
  complete_frame first_chunk msg_size =
      complete_frame_loop (msg_size - length first_chunk) msg_size (first_chunk ∷ [])
        (length first_chunk)

  -- What follows the first read of `_socketcan_recv_stream`, up to the whole frame.
  unfoldable pub frame_from : Result Bytes × S → Result Bytes × S
  unfolding complete_frame
  frame_from (raise e, s) = (raise (wrap exc_class e), s)
  frame_from (ok [], s) = (raise exc_class, s)
  frame_from (ok (b ∷ bs), s) = elim (ltb (length (b ∷ bs)) socketcan_struct_size) [
    | true ↦ complete_frame (b ∷ bs) socketcan_struct_size s
    | false ↦ (ok (b ∷ bs), s)
  ]

  unfoldable pub recv_frame : Call S Bytes
  unfolding frame_from
  recv_frame s = frame_from (recv_fn socketcan_struct_size s)

  unfoldable pub socketcan_recv_stream : ByteOrder → (S → ℕ) → Call S CanMessage
  unfolding recv_frame decode_received
  socketcan_recv_stream o time_fn s = decode_received o time_fn (recv_frame s)

-- The time of a datagram: the kernel's, if the socket was asked for ancillary data.
unfoldable pub recv_timestamp : (Bytes → Result (ℕ × ℕ)) → ℕ → List Bytes → ℕ → Result ℕ
recv_timestamp timestamp_unpack ancillary_data_size ancillary_data now =
    elim (ltb 0 ancillary_data_size) [
      | false ↦ ok now
      | true ↦ elim ancillary_data [
        | [] ↦ raise assertion_error
        | cmsg_data ∷ _ ↦ timestamp_unpack cmsg_data >>= λ (seconds, nanoseconds).
            ok (seconds * 1_000_000_000 + nanoseconds)
      ]
    ]

module _ {S : Type 0} (recvmsg : ℕ → ℕ → Call S (Bytes × List Bytes)) (exc_class : Exception)
    (timestamp_unpack : Bytes → Result (ℕ × ℕ)) where
  unfoldable pub socketcan_recv : ByteOrder → (S → ℕ) → ℕ → Call S CanMessage
  unfolding recv_timestamp
  socketcan_recv o time_fn ancillary_data_size s =
      let (r, s') = recvmsg canfd_mtu ancillary_data_size s in
      elim r [
        | raise e ↦ (raise (wrap exc_class e), s')
        | ok (cf, ancillary_data) ↦ (
          (header_unpack o cf >>= λ _.
              recv_timestamp timestamp_unpack ancillary_data_size ancillary_data (time_fn s')
              >>= λ t. decode_frame o cf t),
          s',
        )
      ]

-- A send that was refused for the moment has written nothing.
abbrev pub written_by : Result ℕ → Result ℕ
written_by (ok written) = ok written
written_by (raise e) = if is_would_block e then ok 0 else raise e

module _ {S : Type 0} (send_fn : Bytes → Call S ℕ) where
  -- One round of `_complete_send`, from what the socket returned: `next` is the rest of the loop
  -- with its number of bytes sent and of attempts left. A round with nothing written costs one.
  unfoldable pub note_written :
      (ℕ → ℕ → Call S (Unit {0})) → ℕ → ℕ → ℕ → Result ℕ × S → Result (Unit {0}) × S
  note_written next sent attempts remaining_attempts (r, s) = elim (written_by r) [
    | raise e ↦ (raise e, s)
    | ok (suc w) ↦ next (sent + suc w) attempts s
    | ok zero ↦ elim (leb remaining_attempts 1) [
      | true ↦ (raise (os_error none), s)
      | false ↦ next sent (remaining_attempts - 1) s
    ]
  ]

  -- Progress gives all the attempts back, so that a bound on the rounds is the bytes left times the
  -- attempts and one, and the attempts left.
  unfoldable pub complete_send_loop : ℕ → Bytes → ℕ → ℕ → ℕ → ℕ → Call S (Unit {0})
  complete_send_loop zero payload msg_size attempts sent remaining_attempts s = (ok tt, s)
  complete_send_loop (suc fuel) payload msg_size attempts sent remaining_attempts s =
      elim (ltb sent msg_size) [
        | false ↦ (ok tt, s)
        | true ↦
            note_written (complete_send_loop fuel payload msg_size attempts) sent attempts
              remaining_attempts (send_fn (drop sent payload) s)
      ]

  unfoldable pub complete_send : Bytes → ℕ → ℕ → ℕ → Call S (Unit {0})
  unfolding complete_send_loop note_written
  complete_send payload sent msg_size attempts =
      complete_send_loop (suc ((msg_size - sent) * suc attempts + attempts)) payload msg_size
        attempts sent attempts

  -- What follows the first `send` of a stream sender: a payload taken in part is completed.
  unfoldable pub finish_send : Bytes → Result ℕ × S → Result (Unit {0}) × S
  unfolding complete_send
  finish_send payload (raise e, s) = (raise e, s)
  finish_send payload (ok sent, s) = elim (ltb sent socketcan_struct_size) [
    | true ↦ complete_send payload sent socketcan_struct_size stream_send_attempts s
    | false ↦ (ok tt, s)
  ]

  unfoldable pub send_payload_stream : Bytes → Call S (Unit {0})
  unfolding finish_send
  send_payload_stream payload s = finish_send payload (send_fn payload s)

  unfoldable pub socketcan_send_stream : ByteOrder → ℕ → Bytes → Bool → Call S (Unit {0})
  unfolding send_payload_stream
  socketcan_send_stream o arbitration_id bs is_extended s =
      elim (frame_payload o arbitration_id bs is_extended) [
        | raise e ↦ (raise e, s)
        | ok payload ↦ send_payload_stream payload s
      ]

  unfoldable pub socketcan_send : ByteOrder → ℕ → Bytes → Bool → Call S (Unit {0})
  socketcan_send o arbitration_id bs is_extended s =
      elim (frame_payload o arbitration_id bs is_extended) [
        | raise e ↦ (raise e, s)
        | ok payload ↦
            let (r, s') = send_fn payload s in
            elim r [ raise e ↦ (raise e, s') | ok sent ↦ (ok tt, s') ]
      ]

  unfoldable pub socketcan_send_msg_stream : ByteOrder → CanMessage → Call S (Unit {0})
  unfolding socketcan_send_stream
  socketcan_send_msg_stream o m =
      socketcan_send_stream o m.arbitration_id m.payload m.is_extended_id

  unfoldable pub socketcan_send_msg : ByteOrder → CanMessage → Call S (Unit {0})
  unfolding socketcan_send
  socketcan_send_msg o m = socketcan_send o m.arbitration_id m.payload m.is_extended_id
