-- ===== src/Interop/Reading.antt =====
-- The reads of a bus whose filters are applied on the client's side.
use sockcan.Prelude.{
  ℕ, zero, suc, ◌<◌, List, [], ◌∷◌, ◌≡◌, refl, sym, ap, subst, ◌∙◌, arith, if◌then◌else◌,
}
use sockcan.Prelude.{Option, none, some, Result, ok, raise, length, Bool-cases, inl, inr}
use sockcan.Filters.{CanFilter, matches_filters}
use sockcan.Backlog.{Frame}
use sockcan.Interop.Bus.{UserspaceSocketcanBus, filter_read, bus_recv}

-- The first frame that the filters accept, and the frames behind it.
unfoldable pub first_match : List CanFilter → List Frame → Option Frame × List Frame
first_match filters [] = (none, [])
first_match filters (f ∷ fs) =
    let rest = first_match filters fs in
    if matches_filters filters f.can_id f.is_extended then (some f, fs) else rest

-- A read that is no frame: None, or an exception such as the one at the end of a stream.
abbrev pub IsEnd : {W : Type 0} → Result (Option Frame) × W → Type 0
IsEnd (ok (some f), w) = ⊥
IsEnd (ok none, w) = Unit
IsEnd (raise e, w) = Unit

module _ {W : Type 0} (base_recv : W → Result (Option Frame) × W)
    (last : Result (Option Frame) × W) where
  -- The reads from `w` on give these frames, one after the other, and then `last`.
  abbrev pub Gives : List Frame → W → Type 0
  Gives [] w = base_recv w ≡ last
  Gives (f ∷ fs) w = (w' : W) × (base_recv w ≡ (ok (some f), w')) × Gives fs w'

  -- The call gives the frame, and the next reads the frames behind it; or it gives the last read.
  abbrev pub Receives : Option Frame × List Frame → Option (Result (Option Frame) × W) → Type 0
  Receives (some f, rest) r = (w' : W) × (r ≡ some (ok (some f), w')) × Gives rest w'
  Receives (none, rest) r = r ≡ some last

  filter_read-last :
      (bus : UserspaceSocketcanBus) (next : W → Option (Result (Option Frame) × W))
      (r : Result (Option Frame) × W)
      → IsEnd r
      → filter_read base_recv bus next r ≡ some r
  unfolding filter_read
  filter_read-last bus next (ok none, w) ends = refl
  filter_read-last bus next (ok (some f), w) ends = absurd ends
  filter_read-last bus next (raise e, w) ends = refl

  filter_read-Receives :
      (bus : UserspaceSocketcanBus) (next : W → Option (Result (Option Frame) × W)) (f : Frame)
      (fs : List Frame) (w : W)
      → Gives fs w
      → Receives (first_match bus.can_filters fs) (next w)
      → Receives
          (first_match bus.can_filters (f ∷ fs))
          (filter_read base_recv bus next (ok (some f), w))
  unfolding filter_read first_match
  filter_read-Receives bus next f fs w gives rest =
      elim (Bool-cases (matches_filters bus.can_filters f.can_id f.is_extended)) [
        | inl wanted ↦ rw (wanted, filter_read, first_match) (w, refl, gives)
        | inr dropped ↦ rw (dropped, filter_read, first_match) rest
      ]

  -- Where the reads give some frames and then something that is no frame, None or an exception, and
  -- with more fuel than frames, `recv` ends: it gives the oldest of the frames that the filters
  -- accept, drops those before it and leaves those behind it for the next call, which may have other
  -- filters. Where none is accepted, it ends as the read after them did.
  pub bus_recv-first_match :
      (fuel : ℕ) (bus : UserspaceSocketcanBus) (fs : List Frame) (w : W)
      → IsEnd last
      → Gives fs w
      → length fs < fuel
      → Receives (first_match bus.can_filters fs) (bus_recv base_recv fuel bus w)
  unfolding bus_recv first_match
  bus_recv-first_match zero bus fs w ends gives enough = absurd (omega (arith, enough))
  bus_recv-first_match (suc fuel) bus [] w ends gives enough =
      ap (filter_read base_recv bus (bus_recv base_recv fuel bus)) gives
      ∙ filter_read-last bus (bus_recv base_recv fuel bus) last ends
  bus_recv-first_match (suc fuel) bus (f ∷ fs) w ends (w', got, gives) enough =
      subst
        (λ r.
          Receives (first_match bus.can_filters (f ∷ fs))
            (filter_read base_recv bus (bus_recv base_recv fuel bus) r))
        (sym got)
        (filter_read-Receives bus (bus_recv base_recv fuel bus) f fs w' gives
          (bus_recv-first_match fuel bus fs w' ends gives (omega (arith, enough))))
