-- ===== src/Peers/Send.antt =====
-- `client_send` and `daemon_send`: the whole message under the lock of the socket.
use pire2pire.Base.{ℕ, zero, suc, ◌≡◌, ap, List, [], Bytes, arith, All, length, ◌≤◌}
use pire2pire.Socket.{Send, complete, broken, pending, SendResult, send_loop}
use pire2pire.Socket.Sends.{IsProgress, send_loop-complete}

-- How the call ended: `sent_whole` is 0 and `send_error` is -1. The count of the lock afterwards.
pub data Returned : Type 0 where
  sent_whole send_error : (lock : ℕ) → Returned
  on_lock on_socket : Returned

pub record Sending : Type 0 where
  pub wire : Bytes
  pub returned : Returned

after_loop : ℕ → SendResult → Sending
after_loop lock r = elim r.status [
  | complete ↦ record { wire = r.wire; returned = sent_whole (suc lock) }
  | broken ↦ record { wire = r.wire; returned = send_error lock }
  | pending ↦ record { wire = r.wire; returned = on_socket }
]

-- The count is that of `socket_lock`. On an error the function returns without `sem_post`.
pub client_send : ℕ → Bytes → List Send → Sending
unfolding after_loop
client_send zero msg as' = record { wire = []; returned = on_lock }
client_send (suc lock) msg as' = after_loop lock (send_loop msg as')

pub daemon_send : ℕ → Bytes → List Send → Sending
unfolding after_loop
daemon_send zero msg as' = record { wire = []; returned = on_lock }
daemon_send (suc lock) msg as' = after_loop lock (send_loop msg as')

-- With the lock free and a peer that keeps taking bytes, the whole message goes out, the call returns
-- 0 and the lock is free again; this holds for clients and for daemons.
pub send-whole :
    (msg : Bytes) (as' : List Send)
    → All IsProgress as'
    → length msg ≤ length as'
    → (client_send 1 msg as' ≡ record { wire = msg; returned = sent_whole 1 })
      × (daemon_send 1 msg as' ≡ record { wire = msg; returned = sent_whole 1 })
unfolding client_send daemon_send after_loop
send-whole msg as' p h = let (s, w) = send_loop-complete msg as' p h in (ground arith, ground arith)

after_loop-lock_held :
    (lock : ℕ) (r : SendResult) (k : ℕ) → (after_loop lock r).returned ≡ send_error k → k ≡ lock
unfolding after_loop
after_loop-lock_held lock r k h = ground arith

-- The defect: after a call that found the lock free and failed on the socket, every later call for
-- the same peer finds the lock held, waits for ever and sends nothing.
pub send_error-keeps_lock :
    (msg msg' : Bytes) (as' as'' : List Send) (lock : ℕ)
    → ((client_send 1 msg as').returned ≡ send_error lock
        → client_send lock msg' as'' ≡ record { wire = []; returned = on_lock })
      × ((daemon_send 1 msg as').returned ≡ send_error lock
          → daemon_send lock msg' as'' ≡ record { wire = []; returned = on_lock })
unfolding client_send daemon_send
send_error-keeps_lock msg msg' as' as'' lock = (
  λ h. ap (λ k. client_send k msg' as'') (after_loop-lock_held 0 (send_loop msg as') lock h),
  λ h. ap (λ k. daemon_send k msg' as'') (after_loop-lock_held 0 (send_loop msg as') lock h),
)
