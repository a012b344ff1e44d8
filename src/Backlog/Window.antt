-- ===== src/Backlog/Window.antt =====
-- A backlog holds the newest frames, as many as it may, and counts the others.
use sockcan.Prelude.{
  ℕ, zero, suc, ◌+◌, ◌-◌, ◌≤◌, ◌<◌, List, [], ◌∷◌, ◌++◌, ◌≡◌, refl, sym, ap, ◌∙◌, arith,
}
use sockcan.Prelude.{
  length, drop, length-append, length-drop, append_assoc, append-nil, Bool-cases, inl, inr,
}
use sockcan.Prelude.{◌==◌, ==_iff}
use sockcan.Prelude.{false, subst}
use sockcan.Backlog.{fresh_io, Frame, ConsumerIo, consumer_backlog_size, append_frame, push_frame}

-- Frames queued one after the other, with no drain between them.
unfoldable pub push_all : ConsumerIo → List Frame → ConsumerIo
push_all io [] = io
push_all io (f ∷ fs) = push_all (push_frame io f) fs

-- The newest `n` entries of a list.
unfoldable pub newest {ℓ} : {A : Type ℓ} → ℕ → List A → List A
newest n xs = drop (length xs - n) xs

drop-append_le {ℓ} :
    {A : Type ℓ} (k : ℕ) (xs ys : List A) → k ≤ length xs → drop k (xs ++ ys) ≡ drop k xs ++ ys
drop-append_le zero xs ys h = refl
drop-append_le (suc k) [] ys h = absurd (omega arith)
drop-append_le (suc k) (x ∷ xs) ys h = drop-append_le k xs ys (omega arith)

drop-one_drop {ℓ} : {A : Type ℓ} (k : ℕ) (xs : List A) → drop 1 (drop k xs) ≡ drop (suc k) xs
drop-one_drop zero [] = refl
drop-one_drop zero (x ∷ xs) = refl
drop-one_drop (suc k) [] = refl
drop-one_drop (suc k) (x ∷ xs) = drop-one_drop k xs

length-newest {ℓ} :
    {A : Type ℓ} (n : ℕ) (xs : List A) → length (newest n xs) ≡ length xs - (length xs - n)
unfolding newest
length-newest n xs = length-drop (length xs - n) xs

drop-newest :
    (n k : ℕ) (xs : List Frame) (f : Frame)
    → length xs + 1 - n ≡ k
    → k ≤ length xs
    → drop k xs ++ (f ∷ []) ≡ newest n (xs ++ (f ∷ []))
unfolding newest
drop-newest n k xs f e h =
    sym (drop-append_le k xs (f ∷ []) h)
    ∙ ap (λ m. drop m (xs ++ (f ∷ []))) (omega (arith, e, length-append xs (f ∷ [])))

-- One more entry: the window moves by one place once it is full.
append_frame-newest :
    (n : ℕ) (xs : List Frame) (f : Frame)
    → 0 < n
    → append_frame n (newest n xs) f ≡ newest n (xs ++ (f ∷ []))
unfolding append_frame newest
append_frame-newest n xs f pos = elim (Bool-cases (length (newest n xs) == n)) [
  | inl full ↦
      let size = (==_iff _ n).0 full in
      rw (full, append_frame)
        (ap (λ q. q ++ (f ∷ [])) (drop-one_drop (length xs - n) xs)
          ∙ drop-newest n (suc (length xs - n)) xs f (omega (arith, size, length-newest n xs))
              (omega (arith, size, length-newest n xs)))
  | inr room ↦
      rw (room, append_frame)
        (ap (λ m. drop m xs ++ (f ∷ [])) (short room)
          ∙ drop-newest n 0 xs f (omega (arith, short room, under room)) (omega arith))
]
  where
    under : (length (newest n xs) == n) ≡ false → length xs < n
    under h = ground (arith, h, length-newest n xs)

    short : (length (newest n xs) == n) ≡ false → length xs - n ≡ 0
    short h = omega (arith, under h)

-- What a backlog is after the frames `xs` were queued and none went out.
record Holds (xs : List Frame) (io : ConsumerIo) : Type 0 where
  frames : io.outbound ≡ newest consumer_backlog_size xs
  lost : io.dropped ≡ length xs - consumer_backlog_size

push_frame-Holds :
    (xs : List Frame) (io : ConsumerIo) (f : Frame)
    → Holds xs io
    → Holds (xs ++ (f ∷ [])) (push_frame io f)
unfolding push_frame
push_frame-Holds xs io f h = record {
  frames = ground (arith, h.frames, append_frame-newest consumer_backlog_size xs f (omega arith));
  lost =
      ground (
        arith,
        h.frames,
        h.lost,
        length-newest consumer_backlog_size xs,
        length-append xs (f ∷ []),
      );
}

push_all-Holds :
    (xs : List Frame) (io : ConsumerIo) (fs : List Frame)
    → Holds xs io
    → Holds (xs ++ fs) (push_all io fs)
unfolding push_all
push_all-Holds xs io [] h = subst (λ l. Holds l io) (sym (append-nil xs)) h
push_all-Holds xs io (f ∷ fs) h =
    subst (λ l. Holds l (push_all (push_frame io f) fs)) (append_assoc xs (f ∷ []) fs)
      (push_all-Holds (xs ++ (f ∷ [])) (push_frame io f) fs (push_frame-Holds xs io f h))

-- After any frames were queued for a consumer that takes none, its backlog holds the newest of them
-- in order, 10000 at most, and the count of dropped frames is exactly the number of the others.
pub push_all_lem :
    (fs : List Frame)
    → ((push_all fresh_io fs).outbound ≡ newest consumer_backlog_size fs)
      × ((push_all fresh_io fs).dropped ≡ length fs - consumer_backlog_size)
unfolding newest
push_all_lem fs =
    let h = push_all-Holds [] fresh_io fs (record { frames = refl; lost = omega arith }) in
    (h.frames, h.lost)
