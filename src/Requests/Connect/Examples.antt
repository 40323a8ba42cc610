-- ===== src/Requests/Connect/Examples.antt =====
-- A daemon at 10.0.0.1 connects to one at 10.0.0.2.
use pire2pire.Base.{◌≡◌, refl, some, [], ◌∷◌, ◌++◌, codes, str_eq, arith}
use pire2pire.Handler.Identify.{newline, accepted, identify}
use pire2pire.Handler.Identify.Address.{IsAddress, endpoint}
use pire2pire.Requests.Connect.{Self, connected, identification, success, client_request_connect}
use pire2pire.Requests.Connect.Identifies.{reachable, client_request_connect-identified}

abbrev self : Self
self = record { my_ip = codes "10.0.0.1"; daemon_port = 7331 }

client_request_connect-identified_example :
    (client_request_connect self reachable [] (codes "connect " ++ endpoint (codes "10.0.0.2") 7331)
      ≡ connected
          (identification self ++ newline)
          (record { addr = codes "10.0.0.2"; port = 7331 } ∷ [])
          (success (codes "10.0.0.2")))
    × (identify self.my_ip (some (identification self)) ≡ accepted 7331)
unfolding IsAddress str_eq success
client_request_connect-identified_example =
    client_request_connect-identified self [] (codes "10.0.0.2") 7331
      (refl, (refl, (refl, (refl, (refl, (refl, (refl, (refl, tt))))))))
      (refl, (refl, (refl, (refl, (refl, (refl, (refl, (refl, tt)))))))) (omega arith) (omega arith)
      refl (omega arith)
