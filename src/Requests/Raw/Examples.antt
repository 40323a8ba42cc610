-- ===== src/Requests/Raw/Examples.antt =====
-- A local client sends "list" to the daemon at 10.0.0.2.
use pire2pire.Base.{
  ◌≡◌, refl, false, ◌&&◌, not, none, [], ◌∷◌, ◌++◌, codes, starts_with, str_eq, arith,
}
use pire2pire.Cmd.{OptState, is_a_delimiter}
use pire2pire.Cmd.Split.{join_spaces}
use pire2pire.Handler.Identify.{Peer, newline}
use pire2pire.Handler.Identify.Address.{IsAddress}
use pire2pire.Requests.Raw.{forwarded, find_peer, client_request_raw}
use pire2pire.Requests.Raw.Forwards.{is_forwarded, raw_words, client_request_raw-join_spaces}

abbrev remote : Peer
remote = record { addr = codes "10.0.0.2"; port = 7331 }

abbrev reader : OptState
reader = record { optind = 1; optarg = none }

client_request_raw-join_spaces_example :
    (client_request_raw reader
        (codes "127.0.0.1")
        (remote ∷ [])
        (join_spaces (raw_words (codes "10.0.0.2") 7331 (codes "list" ∷ [])))
      ≡ forwarded
          (codes " < raw: Sent raw command successfully" ++ newline)
          remote
          (codes "list" ++ newline))
    × ((is_forwarded (client_request_raw reader (codes "10.0.0.9") (remote ∷ []) (codes "raw x"))
          && not (starts_with (codes "10.0.0.9") (codes "127.0.0.1")))
        ≡ false)
unfolding starts_with IsAddress is_a_delimiter find_peer str_eq join_spaces
client_request_raw-join_spaces_example =
    client_request_raw-join_spaces reader (codes "127.0.0.1") (codes "10.0.0.2") 7331 (codes "list")
      [] (remote ∷ []) remote (codes "raw x") (codes "10.0.0.9") refl
      (refl, (refl, (refl, (refl, (refl, (refl, (refl, (refl, tt)))))))) (omega arith)
      ((refl, (refl, (refl, (refl, tt)))), tt) (omega arith) refl
