-- ===== src/Requests/Neighbours/Examples.antt =====
-- A daemon that hears of 10.0.0.2.
use pire2pire.Base.{◌≡◌, refl, true, [], ◌∷◌, ◌++◌, codes, str_eq, List, arith}
use pire2pire.Handler.Identify.{Peer}
use pire2pire.Handler.Identify.Address.{IsAddress, endpoint}
use pire2pire.Requests.Neighbours.{
  Addresses, peers, is_known, daemon_request_neighbour, daemon_request_neighbour-Addresses,
}

abbrev known : List Peer
known = record { addr = codes "10.0.0.1"; port = 7331 } ∷ []

address : IsAddress (codes "10.0.0.2")
unfolding IsAddress
address = (refl, (refl, (refl, (refl, (refl, (refl, (refl, (refl, tt))))))))

daemon_request_neighbour-Addresses_example :
    (ds' : List Peer) × (daemon_request_neighbour known true
        (codes "neighbour " ++ endpoint (codes "10.0.0.2") 7331)
      ≡ peers ds')
    × Addresses ds'
    × (daemon_request_neighbour ds' true (codes "neighbour " ++ endpoint (codes "10.0.0.2") 7331)
        ≡ peers ds')
    × (ds' ≡ record { addr = codes "10.0.0.2"; port = 7331 } ∷ known)
unfolding is_known str_eq
daemon_request_neighbour-Addresses_example =
    daemon_request_neighbour-Addresses known true (codes "10.0.0.2") 7331 address (omega arith)
      (refl, tt)
