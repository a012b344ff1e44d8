-- ===== src/Client.antt =====
-- src/sockcan/daemon/_client.py: the requests that a client sends to the daemon, and what it makes of
-- the replies. The socket, JSON and the quoting of URLs are parameters; a socket has no name here,
-- since a call uses one only.
pub mod Requests
mod Examples
use sockcan.Prelude.{
  ℕ, List, [], ◌∷◌, ◌++◌, Bool, true, false, ◌==◌, if◌then◌else◌, Option, none, some,
}
use sockcan.Prelude.{Result, ok, raise, Exception, timeout_error, os_error, value_error, call_then}
use sockcan.Prelude.{Text, codes, join, contains, str}
use sockcan.Filters.{CanFilter}
use sockcan.Receive.{connection_refused_errno}

-- `HTTP_DELIMITER`
abbrev pub http_delimiter : Text
http_delimiter = 13 ∷ 10 ∷ []

-- `except (ConnectionRefusedError, TimeoutError)`; the first is the OSError with that errno.
unfoldable pub is_no_service : Exception → Bool
is_no_service timeout_error = true
is_no_service (os_error (some n)) = n == connection_refused_errno
is_no_service e = false

unfoldable pub host_line : Text → ℕ → Text
host_line host port = codes "Host: " ++ (host ++ (codes ":" ++ str port))

unfoldable pub ping_request : Text → ℕ → Text
unfolding host_line
ping_request host port =
    join http_delimiter
      (codes "GET /ping HTTP/1.1" ∷ host_line host port ∷ codes "Connection: close" ∷ [])
    ++ (http_delimiter ++ http_delimiter)

-- The query: an empty list of filters is left out, as None is.
unfoldable pub query_params :
    (List CanFilter → Text) → (Text → Text) → Text → Option (List CanFilter) → Text
query_params json_dumps quote channel (some (f ∷ fs)) =
    codes "channel=" ++ (channel ++ (codes "&filters=" ++ quote (json_dumps (f ∷ fs))))
query_params json_dumps quote channel _ = codes "channel=" ++ channel

unfoldable pub request_line : Text → Text
request_line params = codes "GET /subscribe?" ++ (params ++ codes " HTTP/1.1")

unfoldable pub upgrade_request : Text → ℕ → Text → Text
unfolding request_line host_line
upgrade_request host port params =
    join http_delimiter (
      (request_line params ++ http_delimiter)
      ∷ host_line host port
      ∷ codes "Connection: Upgrade"
      ∷ codes "Upgrade: socketcan"
      ∷ [])
    ++ http_delimiter

module _ {W : Type 0} (connect : Text → ℕ → W → Result (Unit {0}) × W)
    (sendall : Text → W → Result (Unit {0}) × W) (recv : ℕ → W → Result Text × W) where
  -- A request once the socket is connected, and the first 4096 bytes at most of what comes back.
  unfoldable pub exchange : Text → W → Result Text × W
  exchange request w = call_then (sendall request w) (λ _ w'. recv 4096 w')

  unfoldable pub after_ping : Result Text × W → Result Bool × W
  after_ping (ok response, w) = (ok (contains (codes "200 OK") response), w)
  after_ping (raise e, w) = (raise e, w)

  unfoldable pub ping_connected : Text → Result (Unit {0}) × W → Result Bool × W
  unfolding after_ping exchange is_no_service
  ping_connected request (ok _, w) = after_ping (exchange request w)
  ping_connected request (raise e, w) = if is_no_service e then (ok false, w) else (raise e, w)

  unfoldable pub ping_daemon : Text → ℕ → W → Result Bool × W
  unfolding ping_connected ping_request
  ping_daemon host port w = ping_connected (ping_request host port) (connect host port w)

  -- The socket is the one that was connected, so that there is nothing to return.
  unfoldable pub after_upgrade : Result Text × W → Result (Unit {0}) × W
  after_upgrade (ok response, w) =
      if contains (codes "101 Switching Protocols") response
      then (ok tt, w)
      else (raise value_error, w)
  after_upgrade (raise e, w) = (raise e, w)

  module _ (json_dumps : List CanFilter → Text) (quote : Text → Text) where
    unfoldable pub connect_socketcan_client :
        Text → ℕ → Text → Option (List CanFilter) → W → Result (Unit {0}) × W
    unfolding after_upgrade exchange upgrade_request query_params
    connect_socketcan_client host port channel filters w = call_then (connect host port w) (λ _ w'.
        after_upgrade
          (exchange (upgrade_request host port (query_params json_dumps quote channel filters)) w'))
