-- ===== src/Filters/Examples.antt =====
-- Filters on a few frames, and the theorems about filters at concrete consumers.
use sockcan.Prelude.{[], ◌∷◌, ◌≡◌, refl, true, false, none, some, arith, if◌then◌else◌}
use sockcan.Filters.{
  CanFilter, Consumer, frame_matches, aggregate_filters, normalize_filters, id_set,
}
use sockcan.Filters.Union.{anyone_wants, aggregate_filters-anyone_wants}
use sockcan.Filters.Exact.{contains, is_empty, frame_matches-id_set}

-- Identifiers 0x100 to 0x10F, standard frames only.
abbrev sixteen : CanFilter
sixteen = record { can_id = 0x100; can_mask = 0x7F0; extended = some false }

abbrev picky : Consumer
picky = record { fd = 4; filters = some (sixteen ∷ []) }

abbrev greedy : Consumer
greedy = record { fd = 5; filters = none }

masked : frame_matches (some (sixteen ∷ [])) 0x10A false ≡ true
unfolding frame_matches
masked = refl

wrong_kind : frame_matches (some (sixteen ∷ [])) 0x10A true ≡ false
unfolding frame_matches
wrong_kind = refl

one_takes_all : aggregate_filters (picky ∷ greedy ∷ []) ≡ none
unfolding aggregate_filters
one_takes_all = refl

aggregate_filters-anyone_wants_example :
    frame_matches (aggregate_filters (picky ∷ [])) 0x10A false
    ≡ anyone_wants (picky ∷ []) 0x10A false
aggregate_filters-anyone_wants_example = aggregate_filters-anyone_wants picky [] 0x10A false

frame_matches-id_set_example :
    frame_matches (normalize_filters (id_set (1 ∷ 7 ∷ []))) 7 true
    ≡ (if is_empty (1 ∷ 7 ∷ []) then true else contains 7 (1 ∷ 7 ∷ []))
frame_matches-id_set_example = frame_matches-id_set (1 ∷ 7 ∷ []) 7 true (omega arith) (omega arith)
