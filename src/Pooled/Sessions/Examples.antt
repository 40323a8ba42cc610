-- ===== src/Pooled/Sessions/Examples.antt =====
-- Runs of two peers, and the properties at concrete inputs.
use pire2pire.Base.{
  Bool, List, starts_with, ◌≡◌, ◌≢◌, refl, true, none, some, [], ◌∷◌, codes, ◌==◌, if◌then◌else◌,
  arith,
}
use pire2pire.Pooled.Dispatch.{fast, client_handler, client_pool}
use pire2pire.Pooled.Sessions.{
  client, daemon, Setting, Request, State, next, fault, Event, reads, adds, takes, begins, locks,
  cleans, new_request, find, step, is_careful, Outcome, start, run, Reach, begun, later,
}
use pire2pire.Pooled.Sessions.Gone.{nb_requests-running, gone-other_peer}
use pire2pire.Pooled.Sessions.Counts.{jobs, running}
use pire2pire.Pooled.Sessions.Race.{clean_client-faults, clean_daemon-faults}
use pire2pire.Pooled.Sessions.Safety.{step-ne-fault}
use pire2pire.ThreadPool.{pool_queue, get_job, pool_flush_by_arg}

-- Peer 0 is a daemon, the others are clients.
abbrev setting : Setting
setting = record {
  kinds = λ c. if c == 0 then daemon else client;
  max_requests_per_client = 2;
  max_requests_per_daemon = 2;
}

clean_daemon-faults_example :
    run setting (next start) (
      reads 0 (some (codes "list"))
      ∷ adds 0 (some 100) (some 200)
      ∷ reads 0 none
      ∷ locks 0
      ∷ cleans 0
      ∷ [])
    ≡ fault
unfolding starts_with
clean_daemon-faults_example =
    clean_daemon-faults setting 0 (codes "list") 100 200 refl (omega arith) refl

clean_client-faults_example :
    run setting (next start) (
      reads 1 (some (codes "info"))
      ∷ adds 1 (some 100) (some 200)
      ∷ takes (new_request setting 100 (codes "info") 1).pool
      ∷ reads 1 none
      ∷ locks 1
      ∷ cleans 1
      ∷ begins
          (new_request setting 100 (codes "info") 1).pool
          (new_request setting 100 (codes "info") 1).addr
      ∷ [])
    ≡ fault
unfolding starts_with
clean_client-faults_example =
    clean_client-faults setting 1 (codes "info") 100 200 refl (omega arith) refl

record Run (l : Setting) : Type 0 where
  last : State
  reach : Reach l last

-- One more event, where it is careful and can happen.
turn : (l : Setting) → Run l → Event → Run l
unfolding step is_careful
turn l r e = if_next (is_careful l r.last e) refl (step l r.last e) refl
  where
    if_next : (b : Bool) → is_careful l r.last e ≡ b → (o : Outcome) → step l r.last e ≡ o → Run l
    if_next true h (next t) k = record { last = t; reach = later e t r.reach h k }
    if_next b h o k = r

drive : (l : Setting) → Run l → List Event → Run l
unfolding turn client_handler client_pool starts_with pool_queue get_job pool_flush_by_arg
drive l r [] = r
drive l r (e ∷ es) = drive l (turn l r e) es

-- Client 1 asks for "info", which a worker runs; client 2 has a request in the queue.
abbrev two_clients : Run setting
two_clients =
    drive setting (record { last = start; reach = begun })
      (reads 1 (some (codes "info"))
        ∷ adds 1 (some 100) (some 200)
        ∷ takes fast
        ∷ begins fast 100
        ∷ reads 2 (some (codes "get 1"))
        ∷ adds 2 (some 101) (some 201)
        ∷ [])

-- Then client 1 goes, and its worker is cancelled.
abbrev one_gone : Run setting
one_gone = drive setting two_clients (reads 1 none ∷ locks 1 ∷ cleans 1 ∷ cleans 1 ∷ [])

nb_requests-running_example : two_clients.last.nb_requests 1 ≡ running 1 two_clients.last.requests
unfolding drive
nb_requests-running_example = nb_requests-running setting two_clients.last 1 two_clients.reach refl

two_clients_counts : two_clients.last.nb_requests 1 ≡ 1
unfolding drive
two_clients_counts = refl

gone-other_peer_example : (r : Request) × (find 101 one_gone.last.requests ≡ some r) × (r.peer ≢ 1)
unfolding drive jobs
gone-other_peer_example =
    gone-other_peer setting one_gone.last 1 fast 101 one_gone.reach refl (omega arith)

step-ne-fault_example : step setting two_clients.last (cleans 1) ≢ fault
unfolding drive
step-ne-fault_example = step-ne-fault setting two_clients.last (cleans 1) two_clients.reach refl
