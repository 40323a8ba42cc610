-- ===== src/Pooled/Server/Examples.antt =====
-- A server with room for one client and two daemons.
use pire2pire.Base.{◌≡◌, refl, true, false, some, [], ◌∷◌, codes, arith}
use pire2pire.Handler.Identify.Address.{IsAddress}
use pire2pire.Pooled.Server.{
  Limits, client_comes, client_ends, accept_daemon, server_events, started,
}
use pire2pire.Pooled.Server.Identified.{accept_daemon-identification}
use pire2pire.Pooled.Server.Slots.{Slots, server_events-Slots}
use pire2pire.Requests.Connect.{Self, identification}

abbrev limits : Limits
limits = record { max_clients = 1; max_daemons = 2 }

abbrev me : Self
me = record { my_ip = codes "10.0.0.2"; daemon_port = 7331 }

server_events-Slots_example : Slots limits (
    server_events limits started (
      client_comes (some (codes "10.0.0.1")) true true
      ∷ client_comes (some (codes "10.0.0.3")) true true
      ∷ client_ends 0
      ∷ client_comes (some (codes "10.0.0.3")) false true
      ∷ []))
server_events-Slots_example = server_events-Slots limits (
    client_comes (some (codes "10.0.0.1")) true true
    ∷ client_comes (some (codes "10.0.0.3")) true true
    ∷ client_ends 0
    ∷ client_comes (some (codes "10.0.0.3")) false true
    ∷ [])

-- The second client finds no room.
second_client :
    (server_events limits started (
      client_comes (some (codes "10.0.0.1")) true true
      ∷ client_comes (some (codes "10.0.0.3")) true true
      ∷ [])).clients
    ≡ some (codes "10.0.0.1") ∷ []
unfolding server_events
second_client = refl

accept_daemon-identification_example :
    accept_daemon limits started (some (identification me)) (some (codes "10.0.0.9")) true true
    ≡ record {
      server = record {
        nb_clients = 0;
        clients = [];
        nb_daemons = 1;
        daemons = record { addr = codes "10.0.0.9"; port = 7331 } ∷ [];
      };
      sent = [];
      closed = false;
    }
unfolding IsAddress
accept_daemon-identification_example =
    accept_daemon-identification limits started me (codes "10.0.0.9")
      (refl, (refl, (refl, (refl, (refl, (refl, (refl, (refl, tt)))))))) (omega arith) (omega arith)
