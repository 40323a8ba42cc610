-- ===== src/Peers/Examples.antt =====
-- Two messages to a client and to a daemon.
use pire2pire.Base.{◌≡◌, [], ◌∷◌, codes}
use pire2pire.Socket.{sent, send_failed}
use pire2pire.Peers.Send.{client_send, daemon_send, send_error, on_lock, send_error-keeps_lock}

send_error-keeps_lock_example :
    ((client_send 1 (codes "hi") (send_failed ∷ [])).returned ≡ send_error 0
      → client_send 0 (codes "yo") (sent 2 ∷ []) ≡ record { wire = []; returned = on_lock })
    × ((daemon_send 1 (codes "hi") (send_failed ∷ [])).returned ≡ send_error 0
        → daemon_send 0 (codes "yo") (sent 2 ∷ []) ≡ record { wire = []; returned = on_lock })
send_error-keeps_lock_example =
    send_error-keeps_lock (codes "hi") (codes "yo") (send_failed ∷ []) (sent 2 ∷ []) 0
