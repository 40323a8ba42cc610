-- ===== src/Requests/Search.antt =====
-- The lock of trunk/daemon/client_requests/client_request_list.c, under which `list_client` is set, and
-- its reader in trunk/daemon/daemon_requests/daemon_request_file.c, which takes no lock. The requests
-- of all peers run side by side, and the scheduler picks one for each step.
mod Exclusive
mod Examples
use pire2pire.Base.{ℕ, zero, suc, ◌+◌, Bool, true, false, Option, none, some, List, [], ◌∷◌, ◌++◌}

-- How far a "list" request is: before `sem_wait`, behind it, asleep with `list_client` set, awake with
-- it reset, and behind `sem_post`.
pub data Phase : Type 0 where
  waiting locked listing reset finished : Phase

-- `lister`: a "list" of a client. `fresh`: a "file" that has not read `list_client`. `holding`: it
-- keeps the client it read in `lister`. `forwarded`: it sent its line there. `ignored`: it read NULL.
pub data Thread : Type 0 where
  lister : (client : ℕ) → Phase → Thread
  fresh ignored : Thread
  holding forwarded : (client : ℕ) → Thread

-- `list_lock` is a binary semaphore; clients are shown by their addresses.
pub record Shared : Type 0 where
  pub list_lock : Bool
  pub list_client : Option ℕ

-- One step of a thread; a thread that waits for the lock, or has ended, stays as it is.
pub move : Shared → Thread → Shared × Thread
move s (lister c waiting) = elim s.list_lock [
  | true ↦ (record s { list_lock = false }, lister c locked)
  | false ↦ (s, lister c waiting)
]
move s (lister c locked) = (record s { list_client = some c }, lister c listing)
move s (lister c listing) = (record s { list_client = none }, lister c reset)
move s (lister c reset) = (record s { list_lock = true }, lister c finished)
move s (lister c finished) = (s, lister c finished)
move s fresh = elim s.list_client [ none ↦ (s, ignored) | some c ↦ (s, holding c) ]
move s (holding c) = (s, forwarded c)
move s (forwarded c) = (s, forwarded c)
move s ignored = (s, ignored)

-- The i-th thread takes a step.
pub move_at : Shared → List Thread → ℕ → Shared × List Thread
unfolding move
move_at s [] i = (s, [])
move_at s (t ∷ ts) zero = let r = move s t in (r.0, r.1 ∷ ts)
move_at s (t ∷ ts) (suc i) = let r = move_at s ts i in (r.0, t ∷ r.1)

pub data Event : Type 0 where
  client_lists : (client : ℕ) → Event
  file_comes : Event
  goes : ℕ → Event

pub step : Shared × List Thread → Event → Shared × List Thread
unfolding move_at
step (s, ts) (client_lists c) = (s, lister c waiting ∷ ts)
step (s, ts) file_comes = (s, fresh ∷ ts)
step (s, ts) (goes i) = move_at s ts i

pub run : Shared × List Thread → List Event → Shared × List Thread
unfolding step
run st [] = st
run st (e ∷ es) = run (step st e) es

pub start : Shared × List Thread
start = (record { list_lock = true; list_client = none }, [])
