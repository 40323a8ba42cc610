-- ===== src/Handler/Clients/Examples.antt =====
-- A client that sends too many requests.
use pire2pire.Base.{◌≤◌, true, some, [], ◌∷◌, codes, arith}
use pire2pire.Handler.Clients.{
  Session, running, line, finished, max_requests_per_client, client_request_count, handle_requests,
  handle_requests-bounded,
}

abbrev fresh_session : Session
fresh_session = record { phase = running; requests = []; sent = [] }

handle_requests-bounded_example :
    client_request_count
      (handle_requests fresh_session (
        line (some (codes "help")) true 4
        ∷ line (some (codes "info")) true 5
        ∷ finished 4
        ∷ [])).requests
    ≤ max_requests_per_client
unfolding client_request_count
handle_requests-bounded_example =
    handle_requests-bounded fresh_session
      (line (some (codes "help")) true 4 ∷ line (some (codes "info")) true 5 ∷ finished 4 ∷ [])
      (omega arith)
