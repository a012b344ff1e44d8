-- ===== src/Stream/Writing.antt =====
-- Writing a frame to a stream whose writes take any part of it, or refuse it for the moment.
use sockcan.Prelude.{ℕ, zero, suc, ◌+◌, ◌-◌, ◌*◌, ◌<◌, ◌≤◌, ◌≡◌, refl, sym, ap, ◌∙◌, arith}
use sockcan.Prelude.{◌++◌, length, take, drop, take-add, take-all, length-drop}
use sockcan.Prelude.{append_assoc, append-nil, true, Bool-cases, ltb, leb}
use sockcan.Prelude.{Result, ok, raise, is_would_block, inl, inr}
use sockcan.Bytes.{Bytes}
use sockcan.Wire.{socketcan_struct_size}
use sockcan.Stream.{
  Call, note_written, complete_send_loop, complete_send, finish_send, send_payload_stream,
}
use sockcan.Stream.{stream_send_attempts}

-- What `send` of a stream socket does, with `wire` the bytes that went out so far: it takes a part
-- of the payload from the front, and nothing when it fails.
abbrev pub Writes : {S : Type 0} → (S → Bytes) → S → Bytes → Result ℕ × S → Type 0
Writes wire s payload (ok n, s') = (n ≤ length payload) × (wire s' ≡ wire s ++ take n payload)
Writes wire s payload (raise e, s') = wire s' ≡ wire s

-- A socket that takes something of each payload.
abbrev pub Progresses : {S : Type 0} → Result ℕ × S → Type 0
Progresses (ok n, s') = 0 < n
Progresses (raise e, s') = ⊥

-- How a frame leaves: whole, or with an error after its first `k` bytes. An error that stands for a
-- full socket, after which the caller queues the frame again, comes only if nothing went out.
abbrev pub Leaves : {S : Type 0} → (S → Bytes) → Bytes → Bytes → Result (Unit {0}) × S → Type 0
Leaves wire before payload (ok u, s') = wire s' ≡ before ++ payload
Leaves wire before payload (raise e, s') =
    (k : ℕ) × (k < length payload)
    × (wire s' ≡ before ++ take k payload)
    × (is_would_block e ≡ true → k ≡ 0)

extend_take :
    (before payload out : Bytes) (m n : ℕ)
    → out ≡ (before ++ take m payload) ++ take n (drop m payload)
    → out ≡ before ++ take (m + n) payload
extend_take before payload out m n e =
    e
    ∙ append_assoc before (take m payload) (take n (drop m payload))
    ∙ ap (◌++◌ before) (sym (take-add m n payload))

spend : (x y c : ℕ) → x < y → x * c + c ≤ y * c
spend x y c h = grind arith

module _ {S : Type 0} (send_fn : Bytes → Call S ℕ) (wire : S → Bytes) where
  -- A round with nothing written, given what the rest of the loop does.
  stalled-Leaves :
      (next : ℕ → ℕ → Call S (Unit {0})) (before payload : Bytes) (sent attempts remaining : ℕ)
      (s : S)
      → wire s ≡ before ++ take sent payload
      → sent < length payload
      → (1 < remaining → Leaves wire before payload (next sent (remaining - 1) s))
      → Leaves wire before payload (note_written send_fn next sent attempts remaining (ok zero, s))
  unfolding note_written
  stalled-Leaves next before payload sent attempts remaining s at more again =
      elim (Bool-cases (leb remaining 1)) [
        | inl last ↦ rw (last, note_written) (sent, more, at, λ e. cc)
        | inr left ↦ rw (left, note_written) (again (ground arith))
      ]

  note_written-Leaves :
      (next : ℕ → ℕ → Call S (Unit {0})) (before payload : Bytes) (sent attempts remaining : ℕ)
      (s : S) (r : Result ℕ × S)
      → Writes wire s (drop sent payload) r
      → wire s ≡ before ++ take sent payload
      → sent < length payload
      → ((w : ℕ) (s' : S)
          → sent + suc w ≤ length payload
          → wire s' ≡ before ++ take (sent + suc w) payload
          → Leaves wire before payload (next (sent + suc w) attempts s'))
      → ((s' : S)
          → wire s' ≡ before ++ take sent payload
          → 1 < remaining
          → Leaves wire before payload (next sent (remaining - 1) s'))
      → Leaves wire before payload (note_written send_fn next sent attempts remaining r)
  unfolding note_written
  note_written-Leaves next before payload sent attempts remaining s (ok zero, s') h at more ahead
        again =
      stalled-Leaves next before payload sent attempts remaining s' (rw h.1 (append-nil _ ∙ at))
        more (again s' (rw h.1 (append-nil _ ∙ at)))
  note_written-Leaves next before payload sent attempts remaining s (ok (suc w), s') h at more ahead
        again =
      ahead w s' (omega (arith, length-drop sent payload)) (
        extend_take before payload (wire s') sent (suc w)
          (h.1 ∙ ap (λ t. t ++ take (suc w) (drop sent payload)) at))
  note_written-Leaves next before payload sent attempts remaining s (raise e, s') h at more ahead
        again =
      elim (Bool-cases (is_would_block e)) [
        | inl full ↦
            rw (full, note_written)
              (stalled-Leaves next before payload sent attempts remaining s' (h ∙ at) more
                (again s' (h ∙ at)))
        | inr fatal ↦ rw (fatal, note_written) (sent, more, h ∙ at, λ full. cc)
      ]

  module _ (writes : (s : S) (part : Bytes) → Writes wire s part (send_fn part s)) where
    complete_send_loop-Leaves :
        (fuel : ℕ) (before payload : Bytes) (attempts sent remaining : ℕ) (s : S)
        → wire s ≡ before ++ take sent payload
        → sent ≤ length payload
        → remaining ≤ attempts
        → (length payload - sent) * suc attempts + remaining < fuel
        → Leaves wire before payload
            (complete_send_loop send_fn fuel payload (length payload) attempts sent remaining s)
    unfolding complete_send_loop
    complete_send_loop-Leaves zero before payload attempts sent remaining s at within some enough =
        absurd (omega arith)
    complete_send_loop-Leaves (suc fuel) before payload attempts sent remaining s at within some
          enough =
        elim (Bool-cases (ltb sent (length payload))) [
          | inl more ↦
              rw (more, complete_send_loop)
                (note_written-Leaves
                  (complete_send_loop send_fn fuel payload (length payload) attempts) before payload
                  sent attempts remaining s (send_fn (drop sent payload) s)
                  (writes s (drop sent payload)) at (ground arith)
                  (λ w s' fits at'.
                    complete_send_loop-Leaves fuel before payload attempts (sent + suc w) attempts
                      s' at' fits (omega arith)
                      (omega (
                        arith,
                        spend (length payload - (sent + suc w)) (length payload - sent)
                            (suc attempts) (omega arith),
                      )))
                  (λ s' at' left.
                    complete_send_loop-Leaves fuel before payload attempts sent (remaining - 1) s'
                      at' within (omega arith) (omega arith)))
          | inr whole ↦
              rw (whole, complete_send_loop)
                (at ∙ ap (◌++◌ before) (take-all sent payload (ground arith)))
        ]

    first_send-Leaves :
        (payload : Bytes) (s : S) (r : Result ℕ × S)
        → length payload ≡ socketcan_struct_size
        → Writes wire s payload r
        → Leaves wire (wire s) payload (finish_send send_fn payload r)
    unfolding finish_send complete_send
    first_send-Leaves payload s (raise e, s') size h =
        (0, omega arith, h ∙ sym (append-nil (wire s)), λ _. refl)
    first_send-Leaves payload s (ok sent, s') size h =
        elim (Bool-cases (ltb sent socketcan_struct_size)) [
          | inl part ↦
              rw (part, finish_send, complete_send, ← size)
                (complete_send_loop-Leaves
                  (suc ((length payload - sent) * suc stream_send_attempts + stream_send_attempts))
                  (wire s) payload stream_send_attempts sent stream_send_attempts s' h.1 h.0
                  (omega arith) (omega arith))
          | inr whole ↦
              rw (whole, finish_send)
                (h.1 ∙ ap (◌++◌ (wire s)) (take-all sent payload (ground arith)))
        ]

    -- A stream sender puts a frame on the wire whole, or raises after a part of it. It never raises
    -- what makes the server queue the frame for another attempt once some of its bytes went out.
    pub send_payload_stream-Leaves :
        (payload : Bytes) (s : S)
        → length payload ≡ socketcan_struct_size
        → Leaves wire (wire s) payload (send_payload_stream send_fn payload s)
    unfolding send_payload_stream
    send_payload_stream-Leaves payload s size =
        first_send-Leaves payload s (send_fn payload s) size (writes s payload)

  abbrev Goes : Result (Unit {0}) × S → Type 0
  Goes (ok u, s') = Unit
  Goes (raise e, s') = ⊥

  module _ (writes : (s : S) (part : Bytes) → Writes wire s part (send_fn part s))
      (progress : (s : S) (part : Bytes) → 0 < length part → Progresses (send_fn part s)) where
    note_written-Goes :
        (next : ℕ → ℕ → Call S (Unit {0})) (sent attempts remaining : ℕ) (r : Result ℕ × S)
        → Progresses r
        → ((w : ℕ) (s' : S) → Goes (next (sent + suc w) attempts s'))
        → Goes (note_written send_fn next sent attempts remaining r)
    unfolding note_written
    note_written-Goes next sent attempts remaining (ok zero, s') h ahead = elim h [ ]
    note_written-Goes next sent attempts remaining (ok (suc w), s') h ahead = ahead w s'
    note_written-Goes next sent attempts remaining (raise e, s') h ahead = absurd h

    complete_send_loop-Goes :
        (fuel : ℕ) (payload : Bytes) (attempts sent remaining : ℕ) (s : S)
        → Goes (complete_send_loop send_fn fuel payload (length payload) attempts sent remaining s)
    unfolding complete_send_loop
    complete_send_loop-Goes zero payload attempts sent remaining s = tt
    complete_send_loop-Goes (suc fuel) payload attempts sent remaining s =
        elim (Bool-cases (ltb sent (length payload))) [
          | inl more ↦
              rw (more, complete_send_loop)
                (note_written-Goes
                  (complete_send_loop send_fn fuel payload (length payload) attempts) sent attempts
                  remaining (send_fn (drop sent payload) s)
                  (progress s (drop sent payload) (ground (arith, length-drop sent payload)))
                  (λ w s'.
                    complete_send_loop-Goes fuel payload attempts (sent + suc w) attempts s'))
          | inr whole ↦ rw (whole, complete_send_loop) tt
        ]

    finish_send-Goes :
        (payload : Bytes) (r : Result ℕ × S)
        → length payload ≡ socketcan_struct_size
        → Progresses r
        → Goes (finish_send send_fn payload r)
    unfolding finish_send complete_send
    finish_send-Goes payload (raise e, s') size h = absurd h
    finish_send-Goes payload (ok sent, s') size h =
        elim (Bool-cases (ltb sent socketcan_struct_size)) [
          | inl part ↦
              rw (part, finish_send, complete_send, ← size)
                (complete_send_loop-Goes
                  (suc ((length payload - sent) * suc stream_send_attempts + stream_send_attempts))
                  payload stream_send_attempts sent stream_send_attempts s')
          | inr whole ↦ rw (whole, finish_send) tt
        ]

    settle :
        (before payload : Bytes) (r : Result (Unit {0}) × S)
        → Leaves wire before payload r
        → Goes r
        → (s' : S) × (r ≡ (ok tt, s')) × (wire s' ≡ before ++ payload)
    settle before payload (ok tt, s') h up = (s', refl, h)
    settle before payload (raise e, s') h up = absurd up

    -- On a socket whose writes each take at least one byte of what they are given, whatever the
    -- pieces, a frame of 16 bytes goes out whole and nothing is raised.
    pub send_payload_stream_exact :
        (payload : Bytes) (s : S)
        → length payload ≡ socketcan_struct_size
        → (s' : S) × (send_payload_stream send_fn payload s ≡ (ok tt, s'))
          × (wire s' ≡ wire s ++ payload)
    unfolding send_payload_stream
    send_payload_stream_exact payload s size =
        settle (wire s) payload (send_payload_stream send_fn payload s)
          (send_payload_stream-Leaves writes payload s size)
          (finish_send-Goes payload (send_fn payload s) size (progress s payload (omega arith)))
