-- ===== src/Hub/Examples.antt =====
-- The server and the hub at a run with a full socket.
use sockcan.Prelude.{[], ◌∷◌, List, ◌≡◌, refl, arith, ok}
use sockcan.Hub.{Hub, HubEvent, from_bus, from_client, drains, hub_run, server_run}
use sockcan.Hub.Refines.{Refines, hub_refinement}
use sockcan.Threads.Sample.{
  send, send-Sends, send-Accepts, recv, bus_send, frame, consumer, two_consumers,
}

abbrev start_hub : Hub
start_hub = record { subscribers = consumer 4 ∷ consumer 5 ∷ []; seen = λ j. [] }

-- A frame of the bus, which the socket 5 does not take, one of the client 4, and a socket that is
-- ready.
abbrev events : List HubEvent
events = from_bus frame ∷ from_client 4 frame ∷ drains 5 ∷ []

hub_refinement_example :
    ((server_run send recv bus_send events two_consumers).0 ≡ ok tt)
    × Refines
        (λ v. v)
        (hub_run events start_hub)
        (server_run send recv bus_send events two_consumers).1
hub_refinement_example =
    hub_refinement (λ v. v) send recv bus_send send-Sends send-Accepts (λ f w. refl) (λ f w j. refl)
      events start_hub two_consumers (record { consumers_agree = refl; seen_agrees = λ j. refl })
      refl ((refl, λ e. cc), ((refl, λ e. cc), tt)) (tt, (tt, ((λ e. cc), tt))) (λ j. omega arith)
