-- ===== src/Receive/Turn.antt =====
-- A consumer's turn at a frame: what its socket took, and what waits for it, grow by the frame.
use sockcan.Prelude.{
  ℕ, suc, ◌+◌, ◌≤◌, ◌<◌, List, [], ◌∷◌, ◌++◌, ◌≡◌, ◌≢◌, refl, sym, ap, ◌∙◌, arith,
}
use sockcan.Prelude.{true, false, ◌&&◌, ◌==◌, ==_iff, ==_self, if◌then◌else◌, length, append_assoc}
use sockcan.Prelude.{append-nil, Result, ok, raise, is_would_block, All}
use sockcan.Prelude.{Bool-cases, inl, inr, length-append}
use sockcan.Filters.{Consumer, frame_matches}
use sockcan.Backlog.{Frame, ConsumerIo, consumer_backlog_size, push_frame}
use sockcan.Server.{Server, update}
use sockcan.Server.View.{view, IsWatched}

-- What socket `j` gets of a frame.
unfoldable pub additions : ℕ → List Consumer → Frame → List Frame
additions j [] f = []
additions j (c ∷ cs) f =
    (if (j == c.fd) && frame_matches c.filters f.can_id f.is_extended then f ∷ [] else [])
    ++ additions j cs f

-- A consumer that is only slow: its socket takes the frame, or is full.
abbrev pub Accepts : {W : Type 0} → Result (Unit {0}) × W → Type 0
Accepts (ok _, w) = Unit
Accepts (raise e, w) = is_would_block e ≡ true

abbrev pub IsReady : {W : Type 0} → Server W → Consumer → Type 0
IsReady s c = (s.known c.fd ≡ true) × IsWatched s c.fd

-- A backlog with room takes the frame at its end.
push_frame_room :
    (io : ConsumerIo) (f : Frame)
    → length io.outbound < consumer_backlog_size
    → push_frame io f ≡ record io { outbound = io.outbound ++ (f ∷ []) }
unfolding push_frame
push_frame_room io f room = ground arith

pub additions_own :
    (c : Consumer) (f : Frame)
    → frame_matches c.filters f.can_id f.is_extended ≡ true
    → additions c.fd (c ∷ []) f ≡ f ∷ []
unfolding additions
additions_own c f wants = rw (==_self c.fd, wants)

pub additions_other :
    (c : Consumer) (f : Frame) (j : ℕ) → (j == c.fd) ≡ false → additions j (c ∷ []) f ≡ []
unfolding additions
additions_other c f j other = rw other

pub additions_unwanted :
    (c : Consumer) (f : Frame) (j : ℕ)
    → frame_matches c.filters f.can_id f.is_extended ≡ false
    → additions j (c ∷ []) f ≡ []
unfolding additions
additions_unwanted c f j no_match = ground arith

-- What a call leaves of the server as it was.
abbrev pub Stays : {W : Type 0} → Server W → Server W → Type 0
Stays s t =
    (t.consumers ≡ s.consumers)
    × (t.has_bus ≡ s.has_bus)
    × (t.use_stream ≡ s.use_stream)
    × ((j : ℕ) → t.known j ≡ s.known j)
    × ((j : ℕ) → IsWatched s j → IsWatched t j)

pub Stays-self : {W : Type 0} (s : Server W) → Stays s s
Stays-self s = (refl, refl, refl, λ j. refl, λ j h. h)

pub Stays-trans : {W : Type 0} (s t u : Server W) → Stays s t → Stays t u → Stays s u
Stays-trans s t u a b =
    (b.0 ∙ a.0, b.1 ∙ a.1, b.2 ∙ a.2, λ j. b.3 j ∙ a.3 j, λ j h. b.4 j (a.4 j h))

pub one_more : (n : ℕ) → 1 + n ≡ suc n
one_more n = omega arith

pub additions-cons :
    (c : Consumer) (cs : List Consumer) (f : Frame) (j : ℕ)
    → additions j (c ∷ cs) f ≡ additions j (c ∷ []) f ++ additions j cs f
unfolding additions
additions-cons c cs f j = ap (λ l. l ++ additions j cs f) (sym (append-nil _))

pub still-IsReady :
    {W : Type 0} (s s' : Server W) (cs : List Consumer)
    → Stays s s'
    → All (IsReady s) cs
    → All (IsReady s') cs
still-IsReady s s' [] stays h = tt
still-IsReady s s' (c ∷ cs) stays h =
    ((stays.3 c.fd ∙ h.0.0, stays.4 c.fd h.0.1), still-IsReady s s' cs stays h.1)

module _ {W : Type 0} (delivered : W → ℕ → List Frame) where
  -- A call that raises nothing, brings socket `j` the frames `xs j`, and queues `n` at most for each.
  pub record Grown (xs : ℕ → List Frame) (n : ℕ) (s : Server W) (r : Result (Unit {0}) × Server W)
      : Type 0 where
    pub returns : r.0 ≡ ok tt
    pub seen : (j : ℕ) → view delivered r.1 j ≡ view delivered s j ++ xs j
    pub growth : (j : ℕ) → length (r.1.io j).outbound ≤ length (s.io j).outbound + n
    pub stays : Stays s r.1

  abbrev pub Turn : Consumer → Frame → Server W → Result (Unit {0}) × Server W → Type 0
  Turn c f s r = Grown (λ j. additions j (c ∷ []) f) 1 s r

  pub Grown-nothing :
      (xs : ℕ → List Frame) (n : ℕ) (s : Server W) → ((j : ℕ) → xs j ≡ []) → Grown xs n s (ok tt, s)
  Grown-nothing xs n s none_new = record {
    returns = refl;
    seen = λ j.
        sym (append-nil (view delivered s j)) ∙ ap (◌++◌ (view delivered s j)) (sym (none_new j));
    growth = λ j. omega arith;
    stays = Stays-self s;
  }

  -- One call after the other.
  pub Grown-seq :
      (xs ys zs : ℕ → List Frame) (m n : ℕ) (s : Server W) (r r' : Result (Unit {0}) × Server W)
      → Grown xs m s r
      → Grown ys n r.1 r'
      → ((j : ℕ) → zs j ≡ xs j ++ ys j)
      → Grown zs (m + n) s r'
  Grown-seq xs ys zs m n s r r' a b both = record {
    returns = b.returns;
    seen = λ j.
        b.seen j
        ∙ ap (λ v. v ++ ys j) (a.seen j)
        ∙ append_assoc (view delivered s j) (xs j) (ys j)
        ∙ ap (◌++◌ (view delivered s j)) (sym (both j));
    growth = λ j. omega (arith, a.growth j, b.growth j);
    stays = Stays-trans s r.1 r'.1 a.stays b.stays;
  }

  -- To see what every socket sees, look at the consumer's own and at another.
  pub seen_by :
      (c : Consumer) (f : Frame) (s s' : Server W)
      → frame_matches c.filters f.can_id f.is_extended ≡ true
      → view delivered s' c.fd ≡ view delivered s c.fd ++ (f ∷ [])
      → ((j : ℕ) → (j == c.fd) ≡ false → view delivered s' j ≡ view delivered s j)
      → (j : ℕ) → view delivered s' j ≡ view delivered s j ++ additions j (c ∷ []) f
  seen_by c f s s' wants own other j = elim (Bool-cases (j == c.fd)) [
    | inl same ↦ rw ((==_iff j c.fd).0 same, additions_own c f wants) own
    | inr diff ↦ rw (additions_other c f j diff, append-nil) (other j diff)
  ]

  pub ne_of_test : (j k : ℕ) → (j == k) ≡ false → j ≢ k
  ne_of_test j k h = ground arith

  pub store_frame-Turn :
      (c : Consumer) (f : Frame) (s s' : Server W)
      → ((j : ℕ) → delivered s'.world j ≡ delivered s.world j)
      → s'.io ≡ update s.io c.fd (push_frame (s.io c.fd) f)
      → Stays s s'
      → length (s.io c.fd).outbound < consumer_backlog_size
      → frame_matches c.filters f.can_id f.is_extended ≡ true
      → Turn c f s (ok tt, s')
  store_frame-Turn c f s s' same stored stays room wants = record {
    returns = refl;
    seen =
        seen_by c f s s' wants
          (rw (same, stored, ==_self c.fd, push_frame_room (s.io c.fd) f room)
            (sym (append_assoc (delivered s.world c.fd) (s.io c.fd).outbound (f ∷ []))))
          (λ j diff. rw (same, stored, diff));
    growth = λ j. ground (
      arith,
      stored,
      push_frame_room (s.io c.fd) f room,
      length-append (s.io c.fd).outbound (f ∷ []),
    );
    stays = stays;
  }
