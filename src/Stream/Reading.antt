-- ===== src/Stream/Reading.antt =====
-- Reading a frame from a stream whose reads return any part of what is pending.
use sockcan.Prelude.{ℕ, zero, suc, ◌+◌, ◌-◌, ◌<◌, ◌≤◌, ◌≡◌, sym, ap, ◌∙◌, arith, inl, inr}
use sockcan.Prelude.{
  List, [], ◌∷◌, ◌++◌, flatten, length, length-append, append_inj, append_assoc, append-nil,
}
use sockcan.Prelude.{Bool-cases, ltb, Result, ok, raise, Exception}
use sockcan.Bytes.{Bytes}
use sockcan.Wire.{socketcan_struct_size}
use sockcan.Stream.{Call, take_chunk, complete_frame_loop, complete_frame, frame_from, recv_frame}

-- What `recv` of a stream socket does, with `pending` the bytes that are still to be read: it
-- returns at most `n` of them, from the front, and leaves them all when it fails.
abbrev pub Reads : {S : Type 0} → (S → Bytes) → S → ℕ → Result Bytes × S → Type 0
Reads pending s n (ok c, s') = (pending s ≡ c ++ pending s') × (length c ≤ n)
Reads pending s n (raise e, s') = pending s ≡ pending s'

-- A connection that is up: where bytes are pending, some come.
abbrev pub Delivers : {S : Type 0} → Result Bytes × S → Type 0
Delivers (ok c, s') = 0 < length c
Delivers (raise e, s') = ⊥

-- A frame of `size` bytes is split off `start`; an error leaves the stream inside the frame.
abbrev pub Splits : {S : Type 0} → (S → Bytes) → Bytes → ℕ → Result Bytes × S → Type 0
Splits pending start size (ok cf, s') = (start ≡ cf ++ pending s') × (length cf ≡ size)
Splits pending start size (raise e, s') =
    (part : Bytes) × (start ≡ part ++ pending s') × (length part < size)

flatten_snoc : (cs : List Bytes) (c : Bytes) → flatten (cs ++ (c ∷ [])) ≡ flatten cs ++ c
unfolding flatten
flatten_snoc [] c = append-nil c
flatten_snoc (d ∷ cs) c = rw (flatten_snoc cs c) (sym (append_assoc d (flatten cs) c))

module _ {S : Type 0} (recv_fn : ℕ → Call S Bytes) (exc_class : Exception)
    (pending : S → Bytes) where
  take_chunk-Splits :
      (next : List Bytes → ℕ → Call S Bytes) (chunks : List Bytes) (received size n : ℕ) (s : S)
      (start : Bytes) (r : Result Bytes × S)
      → Reads pending s n r
      → start ≡ flatten chunks ++ pending s
      → received ≡ length (flatten chunks)
      → received < size
      → ((c : Bytes) (s' : S)
          → start ≡ flatten (chunks ++ (c ∷ [])) ++ pending s'
          → received + length c ≡ length (flatten (chunks ++ (c ∷ [])))
          → length c ≤ n
          → 0 < length c
          → Splits pending start size (next (chunks ++ (c ∷ [])) (received + length c) s'))
      → Splits pending start size (take_chunk recv_fn exc_class next chunks received r)
  unfolding take_chunk
  take_chunk-Splits next chunks received size n s start (raise e, s') h at count more ih =
      (flatten chunks, rw (← h) at, omega arith)
  take_chunk-Splits next chunks received size n s start (ok [], s') h at count more ih =
      (flatten chunks, rw (← h.0) at, omega arith)
  take_chunk-Splits next chunks received size n s start (ok (b ∷ bs), s') h at count more ih =
      ih (b ∷ bs) s' (rw (flatten_snoc, append_assoc, ← h.0) at)
        (rw flatten_snoc (omega (arith, length-append (flatten chunks) (b ∷ bs)))) h.1 (omega arith)

  module _ (reads : (n : ℕ) (s : S) → Reads pending s n (recv_fn n s)) where
    complete_frame_loop-Splits :
        (fuel : ℕ) (chunks : List Bytes) (received size : ℕ) (s : S) (start : Bytes)
        → start ≡ flatten chunks ++ pending s
        → received ≡ length (flatten chunks)
        → received ≤ size
        → size ≤ received + fuel
        → Splits pending start size
            (complete_frame_loop recv_fn exc_class fuel size chunks received s)
    unfolding complete_frame_loop
    complete_frame_loop-Splits zero chunks received size s start at count low high =
        (at, omega arith)
    complete_frame_loop-Splits (suc fuel) chunks received size s start at count low high =
        elim (Bool-cases (ltb received size)) [
          | inl more ↦
              rw (more, complete_frame_loop)
                (take_chunk-Splits (complete_frame_loop recv_fn exc_class fuel size) chunks received
                  size (size - received) s start (recv_fn (size - received) s)
                  (reads (size - received) s) at count (ground arith)
                  (λ c s' at' count' fits some_came.
                    complete_frame_loop-Splits fuel (chunks ++ (c ∷ [])) (received + length c) size
                      s' start at' count' (omega arith) (omega arith)))
          | inr full ↦ rw (full, complete_frame_loop) (at, ground arith)
        ]

    complete_frame-Splits :
        (c : Bytes) (size : ℕ) (s : S)
        → length c ≤ size
        → Splits pending (c ++ pending s) size (complete_frame recv_fn exc_class c size s)
    unfolding complete_frame flatten
    complete_frame-Splits c size s short =
        complete_frame_loop-Splits (size - length c) (c ∷ []) (length c) size s (c ++ pending s)
          (rw append-nil) (rw append-nil) short (omega arith)

    frame_from-Splits :
        (s : S) (r : Result Bytes × S)
        → Reads pending s socketcan_struct_size r
        → Splits pending (pending s) socketcan_struct_size (frame_from recv_fn exc_class r)
    unfolding frame_from
    frame_from-Splits s (raise e, s') h = ([], h, omega arith)
    frame_from-Splits s (ok [], s') h = ([], h.0, omega arith)
    frame_from-Splits s (ok (b ∷ bs), s') h =
        elim (Bool-cases (ltb (length (b ∷ bs)) socketcan_struct_size)) [
          | inl short ↦
              rw (short, frame_from)
                (rw h.0 (complete_frame-Splits (b ∷ bs) socketcan_struct_size s' h.1))
          | inr full ↦ rw (full, frame_from) (h.0, ground arith)
        ]

    -- However the stream cuts its bytes up, a receive call that returns takes exactly 16 bytes off
    -- it, and one that raises leaves it inside the frame.
    pub recv_frame-Splits :
        (s : S) → Splits pending (pending s) socketcan_struct_size (recv_frame recv_fn exc_class s)
    unfolding recv_frame
    recv_frame-Splits s =
        frame_from-Splits s (recv_fn socketcan_struct_size s) (reads socketcan_struct_size s)

  -- A live connection with enough bytes pending never makes the receive call fail.
  abbrev Succeeds : Result Bytes × S → Type 0
  Succeeds (ok c, s') = Unit
  Succeeds (raise e, s') = ⊥

  take_chunk-Succeeds :
      (next : List Bytes → ℕ → Call S Bytes) (chunks : List Bytes) (received size n : ℕ) (s : S)
      (r : Result Bytes × S)
      → Reads pending s n r
      → Delivers r
      → ((c : Bytes) (s' : S)
          → pending s ≡ c ++ pending s'
          → 0 < length c
          → length c ≤ n
          → Succeeds (next (chunks ++ (c ∷ [])) (received + length c) s'))
      → Succeeds (take_chunk recv_fn exc_class next chunks received r)
  unfolding take_chunk
  take_chunk-Succeeds next chunks received size n s (raise e, s') h up ih = up
  take_chunk-Succeeds next chunks received size n s (ok [], s') h up ih = absurd (omega arith)
  take_chunk-Succeeds next chunks received size n s (ok (b ∷ bs), s') h up ih =
      ih (b ∷ bs) s' h.0 up h.1

  module _ (reads : (n : ℕ) (s : S) → Reads pending s n (recv_fn n s))
      (live : (n : ℕ) (s : S) → 0 < n → 0 < length (pending s) → Delivers (recv_fn n s)) where
    complete_frame_loop-Succeeds :
        (fuel size : ℕ) (chunks : List Bytes) (received : ℕ) (s : S)
        → size ≤ received + length (pending s)
        → Succeeds (complete_frame_loop recv_fn exc_class fuel size chunks received s)
    unfolding complete_frame_loop
    complete_frame_loop-Succeeds zero size chunks received s enough = tt
    complete_frame_loop-Succeeds (suc fuel) size chunks received s enough =
        elim (Bool-cases (ltb received size)) [
          | inl more ↦
              rw (more, complete_frame_loop)
                (take_chunk-Succeeds (complete_frame_loop recv_fn exc_class fuel size) chunks
                  received size (size - received) s (recv_fn (size - received) s)
                  (reads (size - received) s)
                  (live (size - received) s (ground arith) (ground arith))
                  (λ c s' e some_came fits.
                    complete_frame_loop-Succeeds fuel size (chunks ++ (c ∷ []))
                      (received + length c) s'
                      (omega (arith, ap length e, length-append c (pending s')))))
          | inr full ↦ rw (full, complete_frame_loop) tt
        ]

    frame_from-Succeeds :
        (s : S) (r : Result Bytes × S)
        → Reads pending s socketcan_struct_size r
        → Delivers r
        → socketcan_struct_size ≤ length (pending s)
        → Succeeds (frame_from recv_fn exc_class r)
    unfolding frame_from complete_frame
    frame_from-Succeeds s (raise e, s') h up enough = up
    frame_from-Succeeds s (ok [], s') h up enough = absurd (omega arith)
    frame_from-Succeeds s (ok (b ∷ bs), s') h up enough =
        elim (Bool-cases (ltb (length (b ∷ bs)) socketcan_struct_size)) [
          | inl short ↦
              rw (short, frame_from, complete_frame)
                (complete_frame_loop-Succeeds (socketcan_struct_size - length (b ∷ bs))
                  socketcan_struct_size ((b ∷ bs) ∷ []) (length (b ∷ bs)) s'
                  (omega (arith, ap length h.0, length-append (b ∷ bs) (pending s'))))
          | inr full ↦ rw (full, frame_from) tt
        ]

    settle :
        (s : S) (frame rest : Bytes) (r : Result Bytes × S)
        → pending s ≡ frame ++ rest
        → length frame ≡ socketcan_struct_size
        → Splits pending (pending s) socketcan_struct_size r
        → Succeeds r
        → (s' : S) × (r ≡ (ok frame, s')) × (pending s' ≡ rest)
    settle s frame rest (raise e, s') at size h up = absurd up
    settle s frame rest (ok cf, s') at size h up =
        let (same, left) = append_inj cf frame (pending s') rest (sym h.0 ∙ at) (h.1 ∙ sym size) in
        (s', ap (λ c. (ok c, s')) same, left)

    -- On a live stream whose next 16 bytes are `frame`, the receive call returns `frame`, in
    -- however many pieces it comes, and leaves the stream at the next frame.
    pub recv_frame_exact :
        (s : S) (frame rest : Bytes)
        → pending s ≡ frame ++ rest
        → length frame ≡ socketcan_struct_size
        → (s' : S) × (recv_frame recv_fn exc_class s ≡ (ok frame, s')) × (pending s' ≡ rest)
    unfolding recv_frame
    recv_frame_exact s frame rest at size =
        settle s frame rest (recv_frame recv_fn exc_class s) at size (recv_frame-Splits reads s) (
          frame_from-Succeeds s (recv_fn socketcan_struct_size s) (reads socketcan_struct_size s)
            (live socketcan_struct_size s (omega arith) (omega (arith, enough)))
            (omega (arith, enough)))
      where
        enough : socketcan_struct_size ≤ length (pending s)
        enough = omega (arith, ap length at, length-append frame rest)
