-- ===== src/Session/Examples.antt =====
-- A client and a daemon with one running bus, on a network that loses nothing.
use sockcan.Prelude.{
  ℕ, ◌-◌, List, [], ◌∷◌, ◌++◌, ◌≡◌, refl, ap, ◌∙◌, sym, map, flatten, take, drop, true,
}
use sockcan.Prelude.{Option, none, some, Result, ok, Text, codes, contains, str}
use sockcan.Prelude.{starts_with, dict_get, ◌==◌, if◌then◌else◌}
use sockcan.Filters.{CanFilter}
use sockcan.Backlog.{Frame}
use sockcan.Threads.{init}
use sockcan.Daemon.{Daemon, GetRequest, subscription, Library, Reply, json_list, do_get}
use sockcan.Client.{connect_socketcan_client, upgrade_request, request_line, query_params}
use sockcan.Daemon.{parse_filters, text_reply, switching_reply, check_list}
use sockcan.Interop.Bus.{filter_spec}
use sockcan.Client.Requests.{is_line, is_line-IsLine, read_head}
use sockcan.Session.Outcome.{Connects, connect_socketcan_client-Connects}

-- Every text of filters is that of one filter.
abbrev only_0x123 : List CanFilter
only_0x123 = record { can_id = 0x123; can_mask = 0x7FF; extended = none } ∷ []

abbrev lib : Library
lib = record {
  json_loads = λ t. ok (json_list only_0x123);
  unquote = λ t. t;
  message = λ e. [];
  pid = 1;
}

abbrev json_dumps : List CanFilter → Text
json_dumps fs = codes "[291]"

-- The characters before the next space.
word : Text → Text
word [] = []
word (c ∷ t) = let rest = word t in if c == 32 then [] else c ∷ rest

-- The parameter that follows the channel.
abbrev second_parameter : Text → Option Text
second_parameter [] = none
second_parameter (c ∷ t) = if c == 38 then some (word (drop 8 t)) else none

abbrev query : Text → GetRequest
query [] = record { path = subscription; channel = none; filters = none }
query (c ∷ t) = record {
  path = subscription;
  channel = some (c - 48);
  filters = second_parameter t;
}

-- A request line: the name of a channel is one digit.
abbrev parse : Text → GetRequest
parse line = query (drop 23 line)

abbrev render : Reply → Text
render r =
    codes "HTTP/1.0 "
    ++ (str r.code
        ++ ((if r.code == 101 then codes " Switching Protocols" else codes " Bad Request")
            ++ r.body))

-- The daemon, and what has been sent to it.
record Net : Type 0 where
  daemon : Daemon (List Frame)
  inbox : Text

abbrev connect : Text → ℕ → Net → Result (Unit {0}) × Net
connect host port w = (ok tt, w)

abbrev sendall : Text → Net → Result (Unit {0}) × Net
sendall request w = (ok tt, record w { inbox = request })

abbrev answer_line : ℕ → Net → List Text × Text → Result Text × Net
answer_line n w ([], rest) = (ok [], w)
answer_line n w (line ∷ lines, rest) =
    let h = do_get lib 9 (parse line) w.daemon in
    (ok (take n (flatten (map render h.1.replies))), record w { daemon = h.1 })

abbrev recv : ℕ → Net → Result Text × Net
recv n w = answer_line n w (read_head 2 w.inbox)

abbrev daemon : Daemon (List Frame)
daemon = record { servers = (4, record (init true true []) { running = true }) ∷ []; replies = [] }

abbrev net : Net
net = record { daemon = daemon; inbox = [] }

abbrev name : Text
name = codes "4"

abbrev request : Text
request =
    upgrade_request (codes "pc") 8000 (query_params json_dumps (λ t. t) name (some only_0x123))

abbrev received_net : Net
received_net = (recv 4096 (record net { inbox = request })).1

-- The head of the request is its first line, whatever that is.
serves :
    (line rest : Text)
    → read_head 2 request ≡ (line ∷ [], rest)
    → let h = do_get lib 9 (parse line) daemon in
      (recv 4096 (record net { inbox = request })
        ≡ (ok (take 4096 (flatten (map render h.1.replies))), received_net))
      × (received_net.daemon ≡ h.1)
serves line rest e =
    let got = ap (answer_line 4096 (record net { inbox = request })) e in
    (
      got
          ∙ ap
              (λ w. (
                ok (take 4096 (flatten (map render (do_get lib 9 (parse line) daemon).1.replies))),
                w,
              ))
              (sym (ap (λ q. q.1) got)),
      ap (λ q. q.1.daemon) got,
    )

connect_socketcan_client-Connects_example :
    Connects connect sendall recv json_dumps
      (λ t. t)
      lib
      parse
      render
      (λ w. w.daemon)
      9
      4
      (some only_0x123)
      daemon
      (dict_get 4 daemon.servers)
      (connect_socketcan_client connect sendall recv json_dumps
        (λ t. t)
        (codes "pc")
        8000
        name
        (some only_0x123)
        net)
unfolding contains starts_with str word request_line query_params parse_filters filter_spec is_line
    text_reply switching_reply check_list
connect_socketcan_client-Connects_example =
    connect_socketcan_client-Connects connect sendall recv json_dumps (λ t. t) lib parse render
      (λ w. w.daemon) 9 4 (codes "pc") name 8000 (some only_0x123) daemon net net
      (record net { inbox = request }) received_net (is_line-IsLine (codes "pc") refl)
      (is_line-IsLine (query_params json_dumps (λ t. t) name (some only_0x123)) refl) refl refl
      serves refl refl refl refl refl
