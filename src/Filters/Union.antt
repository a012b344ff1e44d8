-- ===== src/Filters/Union.antt =====
-- The bus gets the union of what the consumers want, and both copies of the matching agree.
use sockcan.Prelude.{ℕ, List, [], ◌∷◌, ◌++◌, ◌≡◌, refl, sym, ap, ◌∙◌, Bool, true, false, ◌||◌}
use sockcan.Prelude.{Option, none, some, Bool-cases, inl, inr, or-false, or_assoc}
use sockcan.Filters.{CanFilter, Consumer, any_accepts, matches_filters, frame_matches}
use sockcan.Filters.{filter_accepts, add_filters, aggregate_from, aggregate_filters}

any_accepts-append :
    (fs gs : List CanFilter) (i : ℕ) (e : Bool)
    → any_accepts (fs ++ gs) i e ≡ (any_accepts fs i e || any_accepts gs i e)
unfolding any_accepts
any_accepts-append [] gs i e = refl
any_accepts-append (f ∷ fs) gs i e = elim (Bool-cases (filter_accepts f i e)) [
  | inl hit ↦ rw hit
  | inr miss ↦ rw miss (any_accepts-append fs gs i e)
]

-- Some consumer takes the frame.
unfoldable pub anyone_wants : List Consumer → ℕ → Bool → Bool
anyone_wants [] i e = false
anyone_wants (c ∷ cs) i e = frame_matches c.filters i e || anyone_wants cs i e

-- A list of filters with something in it is matched by its filters alone.
matches_nonempty :
    (fs gs : List CanFilter) (g : CanFilter) (i : ℕ) (e : Bool)
    → frame_matches (some (fs ++ (g ∷ gs))) i e ≡ any_accepts (fs ++ (g ∷ gs)) i e
unfolding frame_matches
matches_nonempty [] gs g i e = refl
matches_nonempty (f ∷ fs) gs g i e = refl

true_or : (a b : Bool) → (a || (true || b)) ≡ true
true_or true b = refl
true_or false b = refl

-- `acc` holds filters already; with none of its own a consumer wants everything.
add_filters_lem :
    (next : List CanFilter → Option (List CanFilter)) (acc : List CanFilter)
    (filters : Option (List CanFilter)) (others : Bool) (i : ℕ) (e : Bool)
    → ((f : CanFilter) (fs : List CanFilter)
        → frame_matches (next (acc ++ (f ∷ fs))) i e
          ≡ (any_accepts (acc ++ (f ∷ fs)) i e || others))
    → frame_matches (add_filters next acc filters) i e
      ≡ (any_accepts acc i e || (frame_matches filters i e || others))
unfolding add_filters frame_matches
add_filters_lem next acc none others i e ih = sym (true_or (any_accepts acc i e) others)
add_filters_lem next acc (some []) others i e ih = sym (true_or (any_accepts acc i e) others)
add_filters_lem next acc (some (f ∷ fs)) others i e ih =
    ih f fs
    ∙ ap (λ b. b || others) (any_accepts-append acc (f ∷ fs) i e)
    ∙ or_assoc (any_accepts acc i e) (any_accepts (f ∷ fs) i e) others

aggregate_from_lem :
    (cs : List Consumer) (acc fs : List CanFilter) (f : CanFilter) (i : ℕ) (e : Bool)
    → frame_matches (aggregate_from cs (acc ++ (f ∷ fs))) i e
      ≡ (any_accepts (acc ++ (f ∷ fs)) i e || anyone_wants cs i e)
unfolding aggregate_from anyone_wants
aggregate_from_lem [] acc fs f i e = matches_nonempty acc fs f i e ∙ sym (or-false _)
aggregate_from_lem (c ∷ cs) acc fs f i e =
    add_filters_lem (aggregate_from cs) (acc ++ (f ∷ fs)) c.filters (anyone_wants cs i e) i e
      (λ g gs. aggregate_from_lem cs (acc ++ (f ∷ fs)) gs g i e)

-- As soon as there is a consumer, the filters that the server sets on the bus accept a frame
-- exactly if some consumer does.
pub aggregate_filters-anyone_wants :
    (c : Consumer) (cs : List Consumer) (i : ℕ) (e : Bool)
    → frame_matches (aggregate_filters (c ∷ cs)) i e ≡ anyone_wants (c ∷ cs) i e
unfolding aggregate_filters aggregate_from anyone_wants any_accepts
aggregate_filters-anyone_wants c cs i e =
    add_filters_lem (aggregate_from cs) [] c.filters (anyone_wants cs i e) i e
      (λ f fs. aggregate_from_lem cs [] fs f i e)

-- The server and the client decide alike on every list of filters, an empty one included.
pub matches_filters-frame_matches :
    (fs : List CanFilter) (i : ℕ) (e : Bool) → matches_filters fs i e ≡ frame_matches (some fs) i e
unfolding matches_filters frame_matches
matches_filters-frame_matches [] i e = refl
matches_filters-frame_matches (f ∷ fs) i e = refl
