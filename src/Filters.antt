-- ===== src/Filters.antt =====
-- The filters of a consumer: src/sockcan/daemon/_server.py (`_normalize_filters`, `_frame_matches`,
-- `_aggregate_filters`, `_Consumer`) and the client's copy in src/sockcan/interop.py.
pub mod Union
pub mod Exact
mod Examples
use sockcan.Prelude.{ℕ, List, [], ◌∷◌, ◌++◌, map, Bool, true, false, ◌&&◌, ◌||◌, eqb, ◌==◌}
use sockcan.Prelude.{Option, none, some, bit_and, if◌then◌else◌}

-- python-can's `CanFilter`; the key `extended` may be missing.
pub record CanFilter : Type 0 where
  pub can_id : ℕ
  pub can_mask : ℕ
  pub extended : Option Bool

-- `"extended" not in can_filter or is_extended == can_filter["extended"]`
unfoldable pub extended_matches : Option Bool → Bool → Bool
extended_matches none is_extended = true
extended_matches (some e) is_extended = eqb is_extended e

unfoldable pub filter_accepts : CanFilter → ℕ → Bool → Bool
unfolding extended_matches
filter_accepts f can_id is_extended =
    (bit_and can_id f.can_mask == bit_and f.can_id f.can_mask)
    && extended_matches f.extended is_extended

-- The loop of `_frame_matches`, up to the first filter that accepts.
unfoldable pub any_accepts : List CanFilter → ℕ → Bool → Bool
unfolding filter_accepts
any_accepts [] can_id is_extended = false
any_accepts (f ∷ fs) can_id is_extended =
    if filter_accepts f can_id is_extended then true else any_accepts fs can_id is_extended

-- `_matches_filters` of the client.
unfoldable pub matches_filters : List CanFilter → ℕ → Bool → Bool
unfolding any_accepts
matches_filters [] can_id is_extended = true
matches_filters (f ∷ fs) can_id is_extended = any_accepts (f ∷ fs) can_id is_extended

-- `_frame_matches` of the server: there the filters may be None too.
unfoldable pub frame_matches : Option (List CanFilter) → ℕ → Bool → Bool
unfolding any_accepts
frame_matches none can_id is_extended = true
frame_matches (some []) can_id is_extended = true
frame_matches (some (f ∷ fs)) can_id is_extended = any_accepts (f ∷ fs) can_id is_extended

-- What a caller may pass: nothing, a set of identifiers, in the order of its iteration, or filters.
pub data FilterSpec : Type 0 where
  no_filters : FilterSpec
  id_set : List ℕ → FilterSpec
  filter_list : List CanFilter → FilterSpec

unfoldable pub normalize_filters : FilterSpec → Option (List CanFilter)
normalize_filters no_filters = none
normalize_filters (filter_list fs) = some fs
normalize_filters (id_set ids) =
    some (map (λ i. record { can_id = i; can_mask = 0x1FFFFFFF; extended = none }) ids)

-- A consumer: its socket, by a number, and its filters. The send function is that of its socket.
pub record Consumer : Type 0 where
  pub fd : ℕ
  pub filters : Option (List CanFilter)

-- One consumer in the loop of `_aggregate_filters`: one without filters ends it.
unfoldable pub add_filters :
    (List CanFilter → Option (List CanFilter))
    → List CanFilter
    → Option (List CanFilter)
    → Option (List CanFilter)
add_filters next aggregated none = none
add_filters next aggregated (some []) = none
add_filters next aggregated (some (f ∷ fs)) = next (aggregated ++ (f ∷ fs))

unfoldable pub aggregate_from : List Consumer → List CanFilter → Option (List CanFilter)
unfolding add_filters
aggregate_from [] aggregated = some aggregated
aggregate_from (c ∷ cs) aggregated = add_filters (aggregate_from cs) aggregated c.filters

unfoldable pub aggregate_filters : List Consumer → Option (List CanFilter)
unfolding aggregate_from
aggregate_filters consumers = aggregate_from consumers []
