-- ===== src/Session/Joining.antt =====
-- A client that joins two others, whose sockets are those of the sample.
use sockcan.Prelude.{
  List, [], ◌∷◌, ◌≡◌, refl, arith, true, none, some, ok, dict_set, dict_get, codes,
}
use sockcan.Filters.{CanFilter, filter_list}
use sockcan.Server.{Server}
use sockcan.Receive.{dispatch}
use sockcan.Daemon.{Daemon, GetRequest, subscription, Library, json_list, do_get, waiting, send}
use sockcan.Daemon.{switching_reply, parse_filters, check_list}
use sockcan.Threads.Sample.{Wires, frame, two_consumers, send-Sends, send-Accepts}
use sockcan.Threads.Sample
use sockcan.Session.Delivered.{Spreads, subscription-Spreads}

abbrev only_0x100 : List CanFilter
only_0x100 = record { can_id = 0x100; can_mask = 0x7FF; extended = none } ∷ []

abbrev library : Library
library = record {
  json_loads = λ t. ok (json_list only_0x100);
  unquote = λ t. t;
  message = λ e. [];
  pid = 1;
}

abbrev running_server : Server Wires
running_server = record two_consumers { running = true }

abbrev with_two : Daemon Wires
with_two = record { servers = (0, running_server) ∷ []; replies = [] }

abbrev joining : GetRequest
joining = record { path = subscription; channel = some 0; filters = some (codes "[256]") }

subscription-Spreads_example :
    (s' : Server Wires) × (s'' : Server Wires) × (do_get library 7 joining with_two ≡ (
      waiting,
      record (send switching_reply with_two) { servers = dict_set 0 s' with_two.servers },
    ))
    × (dispatch Sample.send s'.consumers frame s' ≡ (ok tt, s''))
    × Spreads
        (λ v. v)
        Sample.send
        send-Sends
        send-Accepts
        7
        (filter_list only_0x100)
        frame
        running_server
        s''
unfolding parse_filters check_list dict_get
subscription-Spreads_example =
    subscription-Spreads (λ v. v) Sample.send send-Sends send-Accepts library 7 0
      (filter_list only_0x100) joining with_two running_server frame refl refl refl refl refl refl
      (record { prepares = refl; takes = λ _. refl }) ((refl, λ e. cc), ((refl, λ e. cc), tt))
      ((λ e. absurd (omega (arith, e))), ((λ e. absurd (omega (arith, e))), tt)) (λ j. omega arith)
