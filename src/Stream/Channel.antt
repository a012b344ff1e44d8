-- ===== src/Stream/Channel.antt =====
-- A sender and a receiver at the two ends of a stream.
use sockcan.Prelude.{ℕ, ◌%◌, ◌^◌, ◌<◌, ◌≤◌, ◌≡◌, refl, sym, ap, ◌∙◌, arith}
use sockcan.Prelude.{List, [], ◌∷◌, ◌++◌, length, All, append_assoc, append-nil}
use sockcan.Prelude.{Bool, ok, Exception}
use sockcan.Bytes.{Bytes, ByteOrder}
use sockcan.Wire.{CanMessage, socketcan_struct_size, frame_payload, decode_frame}
use sockcan.Wire.Header.{is_marked}
use sockcan.Wire.RoundTrip.{frame_bytes, length-frame, payload_eq, decode_eq}
use sockcan.Stream.{Call, socketcan_send_stream, socketcan_recv_stream, decode_received}
use sockcan.Stream.Reading.{Reads, Delivers, recv_frame_exact}
use sockcan.Stream.Writing.{Writes, Progresses, send_payload_stream_exact}

-- The arguments of a send call.
pub record Request : Type 0 where
  pub can_id : ℕ
  pub payload : Bytes
  pub is_extended : Bool

abbrev pub Sendable : Request → Type 0
Sendable q = (q.can_id < 2 ^ 32) × (length q.payload ≤ 8)

-- What the other end should get, at time `t`.
abbrev pub received : Request → ℕ → CanMessage
received q t = record {
  arbitration_id = q.can_id % 2 ^ 29;
  payload = q.payload;
  is_extended_id = is_marked q.can_id q.is_extended;
  timestamp = t;
}

module _ {S : Type 0} (o : ByteOrder) where
  -- Send calls one after the other, each returning, from `s` to `s'`.
  abbrev pub Sent : (Bytes → Call S ℕ) → List Request → S → S → Type 0
  Sent send_fn [] s s' = s ≡ s'
  Sent send_fn (q ∷ qs) s s' =
      (t : S) × (socketcan_send_stream send_fn o q.can_id q.payload q.is_extended s ≡ (ok tt, t))
      × Sent send_fn qs t s'

module _ {R : Type 0} (o : ByteOrder) where
  -- Receive calls one after the other, each returning what was sent, up to `rest`.
  abbrev pub Received :
      (ℕ → Call R Bytes) → Exception → (R → ℕ) → (R → Bytes) → List Request → R → Bytes → Type 0
  Received recv_fn exc time pending [] r rest = pending r ≡ rest
  Received recv_fn exc time pending (q ∷ qs) r rest =
      (t : ℕ) × (r' : R) × (socketcan_recv_stream recv_fn exc o time r ≡ (ok (received q t), r'))
      × Received recv_fn exc time pending qs r' rest

module _ {S R : Type 0} (o : ByteOrder) where
  module _ (send_fn : Bytes → Call S ℕ) (wire : S → Bytes)
      (writes : (s : S) (part : Bytes) → Writes wire s part (send_fn part s))
      (progress : (s : S) (part : Bytes) → 0 < length part → Progresses (send_fn part s))
      (recv_fn : ℕ → Call R Bytes) (exc : Exception) (time : R → ℕ) (pending : R → Bytes)
      (reads : (n : ℕ) (r : R) → Reads pending r n (recv_fn n r))
      (live : (n : ℕ) (r : R) → 0 < n → 0 < length (pending r) → Delivers (recv_fn n r)) where
    send_one :
        (q : Request) (s : S) (frame : Bytes)
        → frame_payload o q.can_id q.payload q.is_extended ≡ ok frame
        → length frame ≡ socketcan_struct_size
        → (t : S) × (socketcan_send_stream send_fn o q.can_id q.payload q.is_extended s
            ≡ (ok tt, t))
          × (wire t ≡ wire s ++ frame)
    unfolding socketcan_send_stream
    send_one q s frame built size =
        rw (built, socketcan_send_stream)
          (send_payload_stream_exact send_fn wire writes progress frame s size)

    recv_one :
        (m : ℕ → CanMessage) (r : R) (frame rest : Bytes)
        → ((t : ℕ) → decode_frame o frame t ≡ ok (m t))
        → length frame ≡ socketcan_struct_size
        → pending r ≡ frame ++ rest
        → (t : ℕ) × (r' : R) × (socketcan_recv_stream recv_fn exc o time r ≡ (ok (m t), r'))
          × (pending r' ≡ rest)
    unfolding socketcan_recv_stream decode_received
    recv_one m r frame rest decodes size at =
        let (r', got, left) =
          recv_frame_exact recv_fn exc pending reads live r frame rest at size in
        (time r', r', ap (decode_received o time) got ∙ ap (λ x. (x, r')) (decodes (time r')), left)

    -- Between two ends that may cut the bytes up as they like, where every write of the sender takes
    -- at least one byte and raises nothing, and where a read of the receiver gives at least one byte
    -- and raises nothing while bytes wait: any sequence of requests with an identifier below 2 ^ 32
    -- and at most 8 bytes goes out without an error, and a receiver whose stream holds what went out
    -- gets exactly the messages, in order, and ends where the bytes end.
    pub channel_round_trip :
        (qs : List Request) (s : S)
        → All Sendable qs
        → (s' : S) × (out : Bytes) × Sent o send_fn qs s s'
          × (wire s' ≡ wire s ++ out)
          × ((r : R) (rest : Bytes)
              → pending r ≡ out ++ rest
              → Received o recv_fn exc time pending qs r rest)
    channel_round_trip [] s ok_all = (s, [], refl, sym (append-nil (wire s)), λ r rest at. at)
    channel_round_trip (q ∷ qs) s ok_all =
        let frame = frame_bytes o q.can_id q.payload q.is_extended in
        let size : length frame ≡ socketcan_struct_size =
          omega (arith, ok_all.0.1, length-frame o q.can_id q.payload q.is_extended) in
        let (t, sent, wrote) =
          send_one q s frame
            (payload_eq o q.can_id q.payload q.is_extended ok_all.0.0 (omega (arith, ok_all.0.1)))
            size in
        let (s', out, sent_all, wrote_all, receives) = channel_round_trip qs t ok_all.1 in
        (
          s',
          frame ++ out,
          (t, sent, sent_all),
          wrote_all ∙ ap (λ w. w ++ out) wrote ∙ append_assoc (wire s) frame out,
          λ r rest at.
              let (time', r', got, left) =
                recv_one (received q) r frame (out ++ rest)
                  (λ time'. decode_eq o q.can_id q.payload q.is_extended time' ok_all.0.0) size
                  (at ∙ append_assoc frame out rest) in
              (time', r', got, receives r' rest left),
        )
