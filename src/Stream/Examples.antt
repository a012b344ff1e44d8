-- ===== src/Stream/Examples.antt =====
-- A connection that moves a few bytes at a time, and the theorems about streams on it.
use sockcan.Prelude.{ℕ, min, ◌<◌, ◌≡◌, refl, sym, List, [], ◌∷◌, ◌++◌, flatten, length, take, drop}
use sockcan.Prelude.{
  take-append-drop, take-all, length-take, ok, raise, os_error, blocking_io_error,
}
use sockcan.Prelude.{struct_error, none, some, arith, true, false, ap, ◌∙◌, ◌≤◌, ◌%◌, ◌^◌}
use sockcan.Bytes.{Bytes, little}
use sockcan.Wire.{CanMessage, socketcan_struct_size}
use sockcan.Wire.Header.{is_marked}
use sockcan.Stream.Build.{build_recv_func, build_send_func}
use sockcan.Stream.Datagram.{datagram_round_trip}
use sockcan.Stream.{Call, canfd_mtu, recv_frame, send_payload_stream}
use sockcan.Stream.Reading.{Reads, Delivers, Splits, recv_frame-Splits, recv_frame_exact}
use sockcan.Stream.Writing.{Writes, Progresses, Leaves, send_payload_stream-Leaves}
use sockcan.Stream.Channel.{Request, Sent, Received, channel_round_trip}

-- The state is what is pending, or what went out.
dribble : ℕ → Call Bytes Bytes
dribble n s = (ok (take (min n 5) s), drop (min n 5) s)

dribble-Reads : (n : ℕ) (s : Bytes) → Reads (λ b. b) s n (dribble n s)
unfolding dribble
dribble-Reads n s = (sym (take-append-drop (min n 5) s), omega (arith, length-take (min n 5) s))

dribble-Delivers : (n : ℕ) (s : Bytes) → 0 < n → 0 < length s → Delivers (dribble n s)
unfolding dribble
dribble-Delivers n s h g = omega (arith, length-take (min n 5) s)

trickle : Bytes → Call Bytes ℕ
trickle part s = (ok (min (length part) 6), s ++ take (min (length part) 6) part)

trickle-Writes : (s part : Bytes) → Writes (λ b. b) s part (trickle part s)
unfolding trickle
trickle-Writes s part = (omega arith, refl)

trickle-Progresses : (s part : Bytes) → 0 < length part → Progresses (trickle part s)
unfolding trickle
trickle-Progresses s part h = omega arith

abbrev frame : Bytes
frame = 0x23 ∷ 1 ∷ 0 ∷ 0 ∷ 3 ∷ 0 ∷ 0 ∷ 0 ∷ 1 ∷ 2 ∷ 3 ∷ 0 ∷ 0 ∷ 0 ∷ 0 ∷ 0 ∷ []

reassembled : recv_frame dribble (os_error none) (frame ++ (9 ∷ [])) ≡ (ok frame, 9 ∷ [])
unfolding recv_frame dribble flatten
reassembled = refl

recv_frame-Splits_example :
    Splits (λ b. b) (9 ∷ []) socketcan_struct_size (recv_frame dribble (os_error none) (9 ∷ []))
recv_frame-Splits_example =
    recv_frame-Splits dribble (os_error none) (λ b. b) dribble-Reads (9 ∷ [])

recv_frame_exact_example :
    (s' : Bytes) × (recv_frame dribble (os_error none) (frame ++ (9 ∷ [])) ≡ (ok frame, s'))
    × (s' ≡ 9 ∷ [])
recv_frame_exact_example =
    recv_frame_exact dribble (os_error none) (λ b. b) dribble-Reads dribble-Delivers
      (frame ++ (9 ∷ [])) frame (9 ∷ []) refl refl

send_payload_stream-Leaves_example :
    Leaves (λ b. b) (9 ∷ []) frame (send_payload_stream trickle frame (9 ∷ []))
send_payload_stream-Leaves_example =
    send_payload_stream-Leaves trickle (λ b. b) trickle-Writes frame (9 ∷ []) refl

abbrev requests : List Request
requests =
    record { can_id = 0x123; payload = 1 ∷ 2 ∷ 3 ∷ []; is_extended = false }
    ∷ record { can_id = 0x18DA_F110; payload = []; is_extended = true }
    ∷ []

channel_round_trip_example :
    (s' : Bytes) × (out : Bytes) × Sent little trickle requests [] s'
    × (s' ≡ [] ++ out)
    × ((r : Bytes) (rest : Bytes)
        → r ≡ out ++ rest
        → Received little dribble (os_error none) length (λ b. b) requests r rest)
channel_round_trip_example =
    channel_round_trip little trickle (λ b. b) trickle-Writes trickle-Progresses dribble
      (os_error none) length (λ b. b) dribble-Reads dribble-Delivers requests [] (omega arith)

-- A datagram socket: the state is what is in flight.
post : Bytes → Call (List Bytes) ℕ
post p s = (ok (length p), s ++ (p ∷ []))

pick_up : ℕ → ℕ → Call (List Bytes) (Bytes × List Bytes)
pick_up n a [] = (raise blocking_io_error, [])
pick_up n a (d ∷ ds) = (ok (take n d, []), ds)

post-sends :
    (p : Bytes) (s : List Bytes)
    → (n : ℕ) × (s' : List Bytes) × (post p s ≡ (ok n, s')) × (s' ≡ s ++ (p ∷ []))
unfolding post
post-sends p s = (length p, s ++ (p ∷ []), refl, refl)

pick_up-receives :
    (s : List Bytes) (d : Bytes) (ds : List Bytes)
    → s ≡ d ∷ ds
    → length d ≤ canfd_mtu
    → (s' : List Bytes) × (pick_up canfd_mtu 0 s ≡ (ok (d, []), s')) × (s' ≡ ds)
unfolding pick_up
pick_up-receives s d ds h fits =
    (ds, ap (pick_up canfd_mtu 0) h ∙ ap (λ x. (ok (x, []), ds)) (take-all canfd_mtu d fits), refl)

datagram_round_trip_example :
    (f : Call (List Bytes) CanMessage) × (s₁ : List Bytes) × (s₂ : List Bytes) × (build_recv_func
        (λ _ s. (ok [], s))
        (some pick_up)
        (λ _. raise struct_error)
        64
        little
        length
        false
        false
      ≡ ok f)
    × (build_send_func post little false 0x18DA_F110 (1 ∷ 2 ∷ []) true [] ≡ (ok tt, s₁))
    × (f s₁ ≡ (
      ok (record {
        arbitration_id = 0x18DA_F110 % 2 ^ 29;
        payload = 1 ∷ 2 ∷ [];
        is_extended_id = is_marked 0x18DA_F110 true;
        timestamp = length s₂;
      }),
      s₂,
    ))
    × (s₂ ≡ [])
datagram_round_trip_example =
    datagram_round_trip (λ q. q) little length post (λ _ s. (ok [], s)) pick_up
      (λ _. raise struct_error) 64 post-sends pick_up-receives 0x18DA_F110 (1 ∷ 2 ∷ []) true []
      (omega arith) (omega arith) refl
