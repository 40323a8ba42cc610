-- ===== src/Handler/Admission/Examples.antt =====
-- Two clients that come, and a third that does not fit.
use pire2pire.Base.{◌≤◌, refl, true, some, List, [], ◌∷◌, codes}
use pire2pire.Handler.Admission.{
  max_clients, Client, ClientEvent, connects, client_numbers, new_client, add_client, handle_client,
  admission, client_event, client_events, client_events-bound,
}

abbrev arrivals : List ClientEvent
arrivals =
    connects (some (codes "10.0.0.2")) true (some 1)
    ∷ connects (some (codes "10.0.0.3")) true (some 2)
    ∷ connects (some (codes "10.0.0.4")) true (some 3)
    ∷ []

abbrev two_clients : List Client
two_clients =
    record { addr = codes "10.0.0.3"; thread_id = some 2 }
    ∷ record { addr = codes "10.0.0.2"; thread_id = some 1 }
    ∷ []

client_events-bound_example : client_numbers two_clients ≤ max_clients
unfolding client_events client_event handle_client client_numbers new_client add_client admission
client_events-bound_example = client_events-bound arrivals two_clients refl
