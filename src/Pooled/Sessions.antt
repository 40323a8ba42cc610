-- ===== src/Pooled/Sessions.antt =====
-- branches/block_by_block/daemon: what client_handler.c, daemon_handler.c, client_request.c and
-- daemon_request.c do with the requests of the peers and the queues of the two pools. An event is what
-- one thread does between two releases of a lock; the threads take their turns in any order.
pub mod Accounts
pub mod Gone
pub mod Running
pub mod Workers
mod Examples
pub mod Counts
pub mod Places
pub mod Race
pub mod Safety
use pire2pire.Base.{
  ℕ, ◌+◌, ◌-◌, ◌≡◌, Bool, true, false, ◌&&◌, ◌||◌, not, Option, none, some, List, [], ◌∷◌, ◌++◌,
  Bytes, codes, ◌==◌, if◌then◌else◌, starts_with, keep,
}
use pire2pire.Handler.Dispatch.{Callback, DaemonCallback, daemon_callback}
use pire2pire.Pooled.Dispatch.{PoolName, fast, slow, client_handler, client_pool, daemon_pool}
use pire2pire.ThreadPool.{Job, JobQueue, pool_queue, get_job, pool_flush_by_arg}
use pire2pire.ThreadPool.Queue.{at_addr}

pub data Kind : Type 0 where
  client daemon : Kind

-- Who the peers are, and the limits of `prefs`.
pub record Setting : Type 0 where
  pub kinds : ℕ → Kind
  pub max_requests_per_client : ℕ
  pub max_requests_per_daemon : ℕ

-- The function that treats a request.
pub data Handler : Type 0 where
  for_client : Callback → Handler
  for_daemon : DaemonCallback → Handler

-- struct client_request and struct daemon_request, at their address.
pub record Request : Type 0 where
  pub addr : ℕ
  pub cmd : Bytes
  pub peer : ℕ
  pub handler : Handler
  pub pool : PoolName
  pub assigned : Bool

-- The thread of a peer. `checked`: a line is read, and the peer is below its limit. `leaving`: out of
-- the loop. `cleaning`: behind it, with `req_lock`. `gone`: the peer is freed.
pub data Phase : Type 0 where
  reading leaving cleaning gone : Phase
  checked : Bytes → Phase

-- The requests of all peers that are not freed, the latest first: those of one peer are its list. `taken`:
-- the requests whose job a worker took, and whose function is not yet begun.
pub record State : Type 0 where
  pub requests : List Request
  pub nb_requests : ℕ → ℕ
  pub queues : PoolName → JobQueue
  pub taken : PoolName → List ℕ
  pub phases : ℕ → Phase
  pub sent : List (ℕ × Bytes)

-- `blocked`: the event cannot happen now. `fault`: memory that is freed is read or written.
pub data Outcome : Type 0 where
  next : State → Outcome
  blocked fault : Outcome

pub data Event : Type 0 where
  reads : (peer : ℕ) (message : Option Bytes) → Event
  adds : (peer : ℕ) (request job : Option ℕ) → Event
  takes : (pool : PoolName) → Event
  begins : (pool : PoolName) (request : ℕ) → Event
  finishes : (request : ℕ) → Event
  locks : (peer : ℕ) → Event
  cleans : (peer : ℕ) → Event

abbrev pub same_pool : PoolName → PoolName → Bool
same_pool fast fast = true
same_pool fast slow = false
same_pool slow fast = false
same_pool slow slow = true

abbrev pub at_pool {ℓ} : {A : Type ℓ} → (PoolName → A) → PoolName → A → PoolName → A
at_pool f p a q = if same_pool p q then a else f q

abbrev pub at_peer {ℓ} : {A : Type ℓ} → (ℕ → A) → ℕ → A → ℕ → A
at_peer f c a d = if d == c then a else f d

abbrev enters : State → ℕ → Phase → State
enters s c ph = record s { phases = at_peer s.phases c ph }

abbrev says : State → ℕ → Bytes → State
says s c answer = record s { sent = s.sent ++ (c, answer) ∷ [] }

pub limit : Setting → ℕ → ℕ
limit l c = elim (l.kinds c) [
  | client ↦ l.max_requests_per_client
  | daemon ↦ l.max_requests_per_daemon
]

pub too_many_requests : Bytes
too_many_requests = codes " < Too many requests, mister, plz calm down" ++ 10 ∷ []

request_not_created : Bytes
request_not_created = codes " < Failed to create a new request" ++ 10 ∷ []

-- From `socket_getline` to the test of the limit, which both loops make alike.
pub read_line : Setting → State → ℕ → Option Bytes → State
unfolding limit too_many_requests
read_line l s c none = enters s c leaving
read_line l s c (some m) =
    if starts_with m (codes "quit")
    then enters s c leaving
    else if s.nb_requests c == limit l c
    then says s c too_many_requests
    else enters s c (checked m)

pub client_request_new : ℕ → Bytes → ℕ → Request
client_request_new a m c = record {
  addr = a;
  cmd = m;
  peer = c;
  handler = for_client (client_handler m);
  pool = client_pool (client_handler m);
  assigned = false;
}

pub daemon_request_new : ℕ → Bytes → ℕ → Request
daemon_request_new a m c = record {
  addr = a;
  cmd = m;
  peer = c;
  handler = for_daemon (daemon_callback m);
  pool = daemon_pool (daemon_callback m);
  assigned = false;
}

pub new_request : Setting → ℕ → Bytes → ℕ → Request
unfolding client_request_new daemon_request_new
new_request l a m c = elim (l.kinds c) [
  | client ↦ client_request_new a m c
  | daemon ↦ daemon_request_new a m c
]

-- `pool_queue` returns at once, and nobody looks, when there is no memory for the job. The function of
-- the job is the handler of the requests, written as 0.
pub queue_request : State → Request → Option ℕ → Outcome
queue_request s r none = next s
queue_request s r (some j) =
    elim (pool_queue (s.queues r.pool) (record { addr = j; func = 0; arg = r.addr })) [
      | none ↦ fault
      | some q ↦ next (record s { queues = at_pool s.queues r.pool q })
    ]

-- From `client_request_new` to `pool_queue`: before that no other thread knows the request.
pub add_request : Setting → State → ℕ → Bytes → Option ℕ → Option ℕ → Outcome
unfolding new_request queue_request request_not_created
add_request l s c m none job = next (says (enters s c reading) c request_not_created)
add_request l s c m (some a) job =
    let r = new_request l a m c in
    queue_request (record (enters s c reading) { requests = r ∷ s.requests }) r job

unfoldable pub has_addr : ℕ → List Request → Bool
has_addr a [] = false
has_addr a (r ∷ rs) = (r.addr == a) || has_addr a rs

unfoldable pub find : ℕ → List Request → Option Request
find a [] = none
find a (r ∷ rs) = if r.addr == a then some r else find a rs

-- The first request in the list of a peer.
unfoldable pub first_of : ℕ → List Request → Option Request
first_of c [] = none
first_of c (r ∷ rs) = if r.peer == c then some r else first_of c rs

abbrev pub drop_request : ℕ → List Request → List Request
drop_request a rs = keep (λ r. if r.addr == a then false else true) rs

unfoldable pub assign : ℕ → List Request → List Request
assign a [] = []
assign a (r ∷ rs) = (if r.addr == a then record r { assigned = true } else r) ∷ assign a rs

unfoldable pub has : ℕ → List ℕ → Bool
has a [] = false
has a (x ∷ xs) = (x == a) || has a xs

unfoldable pub remove_one : ℕ → List ℕ → List ℕ
remove_one a [] = []
remove_one a (x ∷ xs) = if x == a then xs else x ∷ remove_one a xs

-- `malloc` gives addresses that are free.
pub is_fresh : State → Option ℕ → Option ℕ → Bool
unfolding has_addr
is_fresh s none none = true
is_fresh s none (some j) = not (at_addr j (s.queues fast).jobs || at_addr j (s.queues slow).jobs)
is_fresh s (some a) none = not (has_addr a s.requests)
is_fresh s (some a) (some j) =
    not (has_addr a s.requests)
    && not (at_addr j (s.queues fast).jobs || at_addr j (s.queues slow).jobs)

pub take_job : State → PoolName → Outcome
take_job s p = elim (get_job (s.queues p)) [
  | none ↦ blocked
  | some (j, q) ↦
      next
        (record s { queues = at_pool s.queues p q; taken = at_pool s.taken p (j.arg ∷ s.taken p) })
]

abbrev locked : Phase → Bool
locked cleaning = true
locked ph = false

-- The first section of `client_request_handler`, which reads `r->client`.
pub begin_request : State → PoolName → ℕ → Option Request → Outcome
unfolding assign remove_one
begin_request s p a none = fault
begin_request s p a (some r) =
    if locked (s.phases r.peer)
    then blocked
    else next (record s {
      requests = assign a s.requests;
      nb_requests = at_peer s.nb_requests r.peer (s.nb_requests r.peer + 1);
      taken = at_pool s.taken p (remove_one a (s.taken p));
    })

-- The last section of `client_request_handler`.
pub finish_request : State → ℕ → Option Request → Outcome
finish_request s a none = blocked
finish_request s a (some r) =
    if locked (s.phases r.peer)
    then blocked
    else if r.assigned
    then next (record s {
      requests = drop_request a s.requests;
      nb_requests = at_peer s.nb_requests r.peer (s.nb_requests r.peer - 1);
    })
    else blocked

-- `pool_kill`, which cancels the worker that runs the request and waits for its end, or
-- `pool_flush_by_arg`; then the request is freed.
pub stop_and_free : State → Request → State
stop_and_free s r =
    if r.assigned then record s { requests = drop_request r.addr s.requests } else record s {
      requests = drop_request r.addr s.requests;
      queues = at_pool s.queues r.pool (pool_flush_by_arg (s.queues r.pool) r.addr);
    }

-- A round of the loop at the end of `handle_client`, as far as the return of `pthread_join` and the
-- `free`: it happens when the worker has ended, and till then other threads may take their turns. The
-- loop keeps `tmp->next` before. It holds the lock of the list, so that the request behind a freed one
-- is the first of what is left.
pub clean_client : State → ℕ → Option Request → Outcome
unfolding stop_and_free
clean_client s c none = next (enters s c gone)
clean_client s c (some r) = next (stop_and_free s r)

-- `tmp->next`, read at the address of `tmp`, which must not be freed.
pub read_next : State → ℕ → Outcome
unfolding find
read_next s tmp = elim (find tmp s.requests) [ none ↦ fault | some r ↦ next s ]

-- A round of the loop at the end of `handle_daemon`, which goes on by `tmp->next` when `tmp` is freed.
pub clean_daemon : State → ℕ → Option Request → Outcome
unfolding read_next stop_and_free
clean_daemon s c none = next (enters s c gone)
clean_daemon s c (some r) = read_next (stop_and_free s r) r.addr

pub clean_peer : Setting → State → ℕ → Outcome
unfolding first_of clean_client clean_daemon
clean_peer l s c = elim (l.kinds c) [
  | client ↦ clean_client s c (first_of c s.requests)
  | daemon ↦ clean_daemon s c (first_of c s.requests)
]

pub read_event : Setting → State → ℕ → Option Bytes → Phase → Outcome
unfolding read_line
read_event l s c m reading = next (read_line l s c m)
read_event l s c m ph = blocked

pub add_event : Setting → State → ℕ → Option ℕ → Option ℕ → Phase → Outcome
unfolding add_request is_fresh
add_event l s c a j (checked m) = if is_fresh s a j then add_request l s c m a j else blocked
add_event l s c a j ph = blocked

pub lock_event : State → ℕ → Phase → Outcome
lock_event s c leaving = next (enters s c cleaning)
lock_event s c ph = blocked

pub clean_event : Setting → State → ℕ → Phase → Outcome
unfolding clean_peer
clean_event l s c cleaning = clean_peer l s c
clean_event l s c ph = blocked

pub step : Setting → State → Event → Outcome
unfolding read_event add_event take_job has begin_request find finish_request lock_event clean_event
step l s (reads c m) = read_event l s c m (s.phases c)
step l s (adds c a j) = add_event l s c a j (s.phases c)
step l s (takes p) = take_job s p
step l s (begins p a) =
    if has a (s.taken p) then begin_request s p a (find a s.requests) else blocked
step l s (finishes a) = finish_request s a (find a s.requests)
step l s (locks c) = lock_event s c (s.phases c)
step l s (cleans c) = clean_event l s c (s.phases c)

-- No peer has sent anything.
abbrev pub start : State
start = record {
  requests = [];
  nb_requests = λ c. 0;
  queues = λ p. record { jobs = []; jobq_tail = none };
  taken = λ p. [];
  phases = λ c. reading;
  sent = [];
}

-- That a request is freed while a worker is about to begin it, or while `tmp->next` is still to be read.
pub is_hasty : Setting → State → Option Request → Kind → Bool
unfolding has
is_hasty l s none k = false
is_hasty l s (some r) daemon = true
is_hasty l s (some r) client = if r.assigned then false else has r.addr (s.taken r.pool)

pub is_careful : Setting → State → Event → Bool
unfolding is_hasty first_of
is_careful l s (cleans c) = not (is_hasty l s (first_of c s.requests) (l.kinds c))
is_careful l s e = true

-- The states of runs in which no peer is cleaned up hastily.
pub data Reach (l : Setting) : State → Type 0 where
  begun : Reach l start
  later :
      {s : State} (e : Event) (t : State)
      → Reach l s
      → is_careful l s e ≡ true
      → step l s e ≡ next t
      → Reach l t

abbrev then_step : Setting → Event → Outcome → Outcome
then_step l e (next s) = step l s e
then_step l e blocked = blocked
then_step l e fault = fault

-- Events in a row, up to the first that is blocked or faults.
pub run : Setting → Outcome → List Event → Outcome
unfolding step
run l o [] = o
run l o (e ∷ es) = run l (then_step l e o) es
