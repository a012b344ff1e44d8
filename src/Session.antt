-- ===== src/Session.antt =====
-- src/sockcan/daemon/_client.py and src/sockcan/daemon/_server.py: a client that subscribes to a channel
-- of a daemon. The network and http.server, which gives the daemon the request line and the client the
-- replies, are parameters.
pub mod Handled
pub mod Outcome
pub mod Served
pub mod Delivered
mod Examples
mod Joining
use sockcan.Prelude.{Option, none, some, [], ◌∷◌, List, Text}
use sockcan.Filters.{CanFilter}

-- The text of the filters in a query, before it is quoted: there is none for no filters.
abbrev pub query_filters : (List CanFilter → Text) → Option (List CanFilter) → Option Text
query_filters json_dumps (some (f ∷ fs)) = some (json_dumps (f ∷ fs))
query_filters json_dumps _ = none
