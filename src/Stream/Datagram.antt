-- ===== src/Stream/Datagram.antt =====
-- A datagram socket with the functions that build_send_func and build_recv_func choose for it, in
-- src/sockcan/_protocol.py, without native timestamps.
use sockcan.Prelude.{ℕ, ◌%◌, ◌^◌, ◌<◌, ◌≤◌, ◌≡◌, refl, ap, ◌∙◌, List, [], ◌∷◌, ◌++◌, length}
use sockcan.Prelude.{Bool, false, none, some, Result, ok, os_error, arith}
use sockcan.Bytes.{Bytes, ByteOrder}
use sockcan.Wire.{CanMessage, header_id, frame_payload, header_unpack, decode_frame}
use sockcan.Wire.Header.{is_marked}
use sockcan.Wire.RoundTrip.{frame_bytes, payload_eq, decode_eq, length-frame, unpack_eq}
use sockcan.Stream.{Call, canfd_mtu, recv_timestamp, socketcan_recv, socketcan_send}
use sockcan.Stream.Build.{build_recv_func, build_send_func}

module _ {S : Type 0} (queue : S → List Bytes) (o : ByteOrder) (time : S → ℕ)
    (send : Bytes → Call S ℕ) (recv : ℕ → Call S Bytes)
    (recvmsg : ℕ → ℕ → Call S (Bytes × List Bytes)) (timestamp_unpack : Bytes → Result (ℕ × ℕ))
    (buf_size : ℕ)
    (sends : (p : Bytes) (s : S)
      → (n : ℕ) × (s' : S) × (send p s ≡ (ok n, s')) × (queue s' ≡ queue s ++ (p ∷ [])))
    (receives : (s : S) (d : Bytes) (ds : List Bytes)
      → queue s ≡ d ∷ ds
      → length d ≤ canfd_mtu
      → (s' : S) × (recvmsg canfd_mtu 0 s ≡ (ok (d, []), s')) × (queue s' ≡ ds)) where
  send_eq :
      (can_id : ℕ) (bs frame : Bytes) (ext : Bool) (n : ℕ) (s s₁ : S)
      → frame_payload o can_id bs ext ≡ ok frame
      → send frame s ≡ (ok n, s₁)
      → socketcan_send send o can_id bs ext s ≡ (ok tt, s₁)
  unfolding socketcan_send
  send_eq can_id bs frame ext n s s₁ built went = ground (arith, built, went)

  recv_eq :
      (frame : Bytes) (h : ℕ × ℕ × ℕ) (m : CanMessage) (s s₂ : S)
      → recvmsg canfd_mtu 0 s ≡ (ok (frame, []), s₂)
      → header_unpack o frame ≡ ok h
      → decode_frame o frame (time s₂) ≡ ok m
      → socketcan_recv recvmsg (os_error none) timestamp_unpack o time 0 s ≡ (ok m, s₂)
  unfolding socketcan_recv recv_timestamp
  recv_eq frame h m s s₂ came unpacked decoded = ground (arith, came, unpacked, decoded)

  -- On a datagram socket that has recvmsg, takes whole datagrams and hands them over in order, with
  -- the receive function that is built without native timestamps: a message of up to 64 bytes that is
  -- sent while none is in flight comes out of that function as it went in, with the low 29 bits of
  -- its identifier, its data, and the mark of an extended identifier.
  pub datagram_round_trip :
      (can_id : ℕ) (bs : Bytes) (ext : Bool) (s : S)
      → can_id < 2 ^ 32
      → length bs ≤ 64
      → queue s ≡ []
      → (f : Call S CanMessage) × (s₁ : S) × (s₂ : S) × (build_recv_func recv
            (some recvmsg)
            timestamp_unpack
            buf_size
            o
            time
            false
            false
          ≡ ok f)
        × (build_send_func send o false can_id bs ext s ≡ (ok tt, s₁))
        × (f s₁ ≡ (
          ok (record {
            arbitration_id = can_id % 2 ^ 29;
            payload = bs;
            is_extended_id = is_marked can_id ext;
            timestamp = time s₂;
          }),
          s₂,
        ))
        × (queue s₂ ≡ [])
  unfolding build_recv_func build_send_func
  datagram_round_trip can_id bs ext s fits short idle =
      let frame = frame_bytes o can_id bs ext in
      let (n, s₁, went, queued) = sends frame s in
      let (s₂, came, left) =
        receives s₁ frame [] (queued ∙ ap (λ q. q ++ (frame ∷ [])) idle)
          (omega (arith, length-frame o can_id bs ext)) in
      (
        socketcan_recv recvmsg (os_error none) timestamp_unpack o time 0,
        s₁,
        s₂,
        refl,
        send_eq can_id bs frame ext n s s₁ (payload_eq o can_id bs ext fits (omega arith)) went,
        recv_eq frame (header_id can_id ext, length bs, 0) _ s₁ s₂ came
            (unpack_eq o can_id bs ext fits) (decode_eq o can_id bs ext (time s₂) fits),
        left,
      )
