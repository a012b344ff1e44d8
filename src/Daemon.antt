-- ===== src/Daemon.antt =====
-- src/sockcan/daemon/_server.py: `do_GET` of the HTTP handler, which subscribes a client to a bus. The
-- parsing of the URL, JSON, the process and the messages of exceptions are parameters, `Library`. A
-- channel is known by a number.
pub mod Joins
pub mod Answers
pub mod Channels
pub mod Global
pub mod Life
pub mod Started
mod Examples
use sockcan.Prelude.{ℕ, List, [], ◌∷◌, ◌++◌, Bool, true, false, if◌then◌else◌, Option, none, some}
use sockcan.Prelude.{Result, ok, raise, Exception, ◌>>=◌, type_error, value_error, runtime_error}
use sockcan.Prelude.{assertion_error, Text, codes, str}
use sockcan.Filters.{CanFilter, FilterSpec, no_filters, filter_list}
use sockcan.Prelude.{Dict, dict_get, dict_set}
use sockcan.Server.{Server, listen_to}

pub data RequestPath : Type 0 where
  ping subscription unsubscription unknown : RequestPath

-- `channel` and `filters` are the first query parameters of the name.
pub record GetRequest : Type 0 where
  pub path : RequestPath
  pub channel : Option ℕ
  pub filters : Option Text

-- What `json.loads` returns: a list of filters, or what is no list. A list with an entry that is no
-- filter is left out.
pub data Json : Type 0 where
  json_list : List CanFilter → Json
  json_other : Json

-- `json.loads`, `unquote`, the text of an exception, and `os.getpid()`.
pub record Library : Type 0 where
  pub json_loads : Text → Result Json
  pub unquote : Text → Text
  pub message : Exception → Text
  pub pid : ℕ

-- What the handler sends: the headers are those that it adds itself.
pub record Reply : Type 0 where
  pub code : ℕ
  pub headers : List (Text × Text)
  pub body : Text

-- How a request ends: the handler returns, and the connection is closed; it waits for its kill switch,
-- which keeps the connection open; or it raises.
pub data Handled : Type 0 where
  returned waiting : Handled
  failed : Exception → Handled

-- `replies` is what was sent.
pub record Daemon (W : Type 0) : Type 0 where
  pub servers : Dict (Server W)
  pub replies : List Reply

-- `except (json.JSONDecodeError, ValueError)`
abbrev pub is_value_error : Exception → Bool
is_value_error value_error = true
is_value_error _ = false

-- The reply of `send_response_and_content`.
unfoldable pub text_reply : ℕ → Text → Reply
text_reply code message = record {
  code = code;
  headers = (codes "Content-type", codes "text/plain") ∷ [];
  body = message;
}

unfoldable pub switching_reply : Reply
switching_reply = record {
  code = 101;
  headers = (codes "Upgrade", codes "socketcan") ∷ (codes "Connection", codes "Upgrade") ∷ [];
  body = [];
}

unfoldable pub not_found_reply : Reply
not_found_reply = record {
  code = 404;
  headers = [];
  body = codes "404 Not Found: Provide a 'channel' parameter.";
}

unfoldable pub check_list : Json → Result FilterSpec
check_list (json_list fs) = ok (filter_list fs)
check_list json_other = raise type_error

-- The filters of a query: an empty text is no filters.
unfoldable pub parse_filters : Library → Option Text → Result FilterSpec
unfolding check_list
parse_filters lib none = ok no_filters
parse_filters lib (some []) = ok no_filters
parse_filters lib (some (c ∷ filter_str)) =
    lib.json_loads (lib.unquote (c ∷ filter_str)) >>= check_list

-- The end of a subscription: the wait, unless `listen_to` raised.
abbrev pub after_listen : Result (Unit {0}) → Handled
after_listen (ok _) = waiting
after_listen (raise e) = failed e

module _ {W : Type 0} where
  unfoldable pub send : Reply → Daemon W → Daemon W
  send reply d = record d { replies = d.replies ++ (reply ∷ []) }

  -- `assert server.running` and `server.listen_to`, after the upgrade was sent.
  unfoldable pub upgrade : ℕ → ℕ → FilterSpec → Server W → Daemon W → Handled × Daemon W
  unfolding listen_to
  upgrade sock channel spec server d =
      if server.running
      then (let (r, server') = listen_to sock false spec false server in
          (after_listen r, record d { servers = dict_set channel server' d.servers }))
      else (failed assertion_error, d)

module _ {W : Type 0} (lib : Library) where
  unfoldable pub subscribe_request :
      ℕ → ℕ → Server W → Result FilterSpec → Daemon W → Handled × Daemon W
  unfolding send upgrade text_reply switching_reply
  subscribe_request sock channel server (ok spec) d =
      upgrade sock channel spec server (send switching_reply d)
  subscribe_request sock channel server (raise e) d =
      if is_value_error e
      then (returned, send (text_reply 400 (codes "Invalid filters format: " ++ lib.message e)) d)
      else (failed e, d)

  -- A request with a channel that the daemon has.
  unfoldable pub route : ℕ → ℕ → Server W → GetRequest → RequestPath → Daemon W → Handled × Daemon W
  unfolding parse_filters subscribe_request not_found_reply
  route sock channel server r subscription d =
      subscribe_request sock channel server (parse_filters lib r.filters) d
  route sock channel server r unsubscription d = (failed runtime_error, d)
  route sock channel server r _ d = (returned, send not_found_reply d)

  unfoldable pub on_server : ℕ → ℕ → GetRequest → Option (Server W) → Daemon W → Handled × Daemon W
  unfolding route
  on_server sock channel r none d =
      (returned, send (text_reply 400 (codes "Requested channel is not managed by this daemon")) d)
  on_server sock channel r (some server) d = route sock channel server r r.path d

  unfoldable pub on_channel : ℕ → GetRequest → Option ℕ → Daemon W → Handled × Daemon W
  unfolding on_server
  on_channel sock r none d = (returned, send (text_reply 400 (codes "Channel must be specified")) d)
  on_channel sock r (some channel) d = on_server sock channel r (dict_get channel d.servers) d

  unfoldable pub on_path : ℕ → GetRequest → RequestPath → Daemon W → Handled × Daemon W
  unfolding on_channel
  on_path sock r ping d = (returned, send (text_reply 200 (str lib.pid)) d)
  on_path sock r _ d = on_channel sock r r.channel d

  unfoldable pub do_get : ℕ → GetRequest → Daemon W → Handled × Daemon W
  unfolding on_path
  do_get sock r d = on_path sock r r.path d
