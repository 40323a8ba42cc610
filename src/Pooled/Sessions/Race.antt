-- ===== src/Pooled/Sessions/Race.antt =====
-- Runs in which a peer is cleaned up hastily.
use pire2pire.Base.{
  ℕ, ◌≡◌, ◌≢◌, refl, true, false, none, some, List, [], ◌∷◌, Bytes, codes, ◌==◌, starts_with, arith,
  eqb_refl, ap, ◌∙◌,
}
use pire2pire.Pooled.Dispatch.{PoolName, fast, slow}
use pire2pire.Pooled.Sessions.Counts.{read_next-freed}
use pire2pire.Pooled.Sessions.Accounts.{new_request-peer}
use pire2pire.ThreadPool.{pool_queue, get_job, pool_flush_by_arg}
use pire2pire.Pooled.Sessions.{
  client, daemon, Setting, State, Request, Phase, checked, reading, leaving, cleaning, next, fault,
  Event, reads, adds, takes, begins, locks, cleans, limit, new_request, step, start, run,
  read_event, read_line, add_event, add_request, queue_request, is_fresh, has_addr, find, first_of,
  drop_request, clean_event, clean_peer, clean_client, clean_daemon, lock_event, take_job,
  begin_request, has, at_pool, at_peer,
}

run-step :
    (l : Setting) (s t : State) (e : Event) (es : List Event)
    → step l s e ≡ next t
    → run l (next s) (e ∷ es) ≡ run l (next t) es
unfolding run
run-step l s t e es h = ap (λ o. run l o es) h

run-last : (l : Setting) (s : State) (e : Event) → run l (next s) (e ∷ []) ≡ step l s e
unfolding run
run-last l s e = refl

self : {A : Type 0} (f : ℕ → A) (c : ℕ) (v : A) → at_peer f c v c ≡ v
self f c v = rw (eqb_refl c) refl

abbrev in_phase : State → ℕ → Phase → State
in_phase s c ph = record s { phases = at_peer s.phases c ph }

reads-line :
    (l : Setting) (s : State) (c : ℕ) (m : Bytes)
    → s.phases c ≡ reading
    → starts_with m (codes "quit") ≡ false
    → (s.nb_requests c == limit l c) ≡ false
    → step l s (reads c (some m)) ≡ next (in_phase s c (checked m))
unfolding step read_event read_line
reads-line l s c m e q n = rw (e, read_event, q, n) refl

reads-none :
    (l : Setting) (s : State) (c : ℕ)
    → s.phases c ≡ reading
    → step l s (reads c none) ≡ next (in_phase s c leaving)
unfolding step read_event read_line
reads-none l s c e = rw (e, read_event) refl

locks-leaving :
    (l : Setting) (s : State) (c : ℕ)
    → s.phases c ≡ leaving
    → step l s (locks c) ≡ next (in_phase s c cleaning)
unfolding step lock_event
locks-leaving l s c e = rw (e, lock_event) refl

-- The first request of all, with a job in the empty queue of its pool.
abbrev with_request : State → Request → ℕ → State
with_request s r j = record s {
  requests = r ∷ [];
  queues =
      at_pool s.queues r.pool
        (record { jobs = record { addr = j; func = 0; arg = r.addr } ∷ []; jobq_tail = some j });
}

adds-first :
    (l : Setting) (c : ℕ) (m : Bytes) (a j : ℕ)
    → step l (in_phase start c (checked m)) (adds c (some a) (some j))
      ≡ next
          (with_request (in_phase (in_phase start c (checked m)) c reading) (new_request l a m c) j)
unfolding step add_event add_request queue_request is_fresh has_addr pool_queue
adds-first l c m a j = rw (eqb_refl c, add_event) refl

first_of-new :
    (l : Setting) (a : ℕ) (m : Bytes) (c : ℕ)
    → first_of c (new_request l a m c ∷ []) ≡ some (new_request l a m c)
unfolding first_of
first_of-new l a m c = rw ((new_request-peer l a m c).0, eqb_refl c) refl

find-new :
    (l : Setting) (a : ℕ) (m : Bytes) (c : ℕ)
    → find
        (new_request l a m c).addr
        (drop_request (new_request l a m c).addr (new_request l a m c ∷ []))
      ≡ none
unfolding find
find-new l a m c = rw (eqb_refl (new_request l a m c).addr) refl

cleans_daemon :
    (l : Setting) (s : State) (c : ℕ) (r : Request)
    → l.kinds c ≡ daemon
    → s.phases c ≡ cleaning
    → first_of c s.requests ≡ some r
    → step l s (cleans c) ≡ fault
unfolding step clean_event clean_peer clean_daemon
cleans_daemon l s c r k e o =
    rw (e, clean_event, k, clean_peer, o, clean_daemon) (read_next-freed s r)

-- The defect: a daemon that sends one line and closes the connection, before a worker takes the
-- request, makes the other daemon read memory that it has freed.
pub clean_daemon-faults :
    (l : Setting) (c : ℕ) (m : Bytes) (a j : ℕ)
    → l.kinds c ≡ daemon
    → l.max_requests_per_daemon ≢ 0
    → starts_with m (codes "quit") ≡ false
    → run l
        (next start)
        (reads c (some m) ∷ adds c (some a) (some j) ∷ reads c none ∷ locks c ∷ cleans c ∷ [])
      ≡ fault
unfolding limit
clean_daemon-faults l c m a j k n q =
    let s1 = in_phase start c (checked m) in
    let r = new_request l a m c in
    let s2 = with_request (in_phase s1 c reading) r j in
    let s3 = in_phase s2 c leaving in
    let s4 = in_phase s3 c cleaning in
    run-step l start s1 _ _ (reads-line l start c m refl q (ground (arith, k, n)))
    ∙ run-step l s1 s2 _ _ (adds-first l c m a j)
    ∙ run-step l s2 s3 _ _ (reads-none l s2 c (self s1.phases c reading))
    ∙ run-step l s3 s4 _ _ (locks-leaving l s3 c (self s2.phases c leaving))
    ∙ run-last l s4 (cleans c)
    ∙ cleans_daemon l s4 c r k (self s3.phases c cleaning) (first_of-new l a m c)

here {ℓ} : {A : Type ℓ} (f : PoolName → A) (p : PoolName) (v : A) → at_pool f p v p ≡ v
here f fast v = refl
here f slow v = refl

abbrev with_taken : State → Request → State
with_taken s r = record s {
  queues = at_pool s.queues r.pool (record { jobs = []; jobq_tail = none });
  taken = at_pool s.taken r.pool (r.addr ∷ s.taken r.pool);
}

takes-first :
    (l : Setting) (s : State) (r : Request) (j : ℕ)
    → step l (with_request s r j) (takes r.pool) ≡ next (with_taken (with_request s r j) r)
unfolding step take_job get_job
takes-first l s r j =
    rw
      (
        here s.queues r.pool (record {
          jobs = record { addr = j; func = 0; arg = r.addr } ∷ [];
          jobq_tail = some j;
        }),
        take_job,
        get_job,
        eqb_refl j,
      )
      refl

abbrev without : State → Request → State
without s r = record s {
  requests = drop_request r.addr s.requests;
  queues = at_pool s.queues r.pool (pool_flush_by_arg (s.queues r.pool) r.addr);
}

cleans_client :
    (l : Setting) (s : State) (c : ℕ) (r : Request)
    → l.kinds c ≡ client
    → s.phases c ≡ cleaning
    → first_of c s.requests ≡ some r
    → r.assigned ≡ false
    → step l s (cleans c) ≡ next (without s r)
unfolding step clean_event clean_peer clean_client
cleans_client l s c r k e o n = rw (e, clean_event, k, clean_peer, o, clean_client, n) refl

begins-freed :
    (l : Setting) (s : State) (p : PoolName) (a : ℕ)
    → has a (s.taken p) ≡ true
    → find a s.requests ≡ none
    → step l s (begins p a) ≡ fault
unfolding step begin_request
begins-freed l s p a h e = rw (h, e, begin_request) refl

has-taken : (r : Request) → has r.addr (at_pool start.taken r.pool (r.addr ∷ []) r.pool) ≡ true
unfolding has
has-taken r = rw (here start.taken r.pool (r.addr ∷ []), has, eqb_refl r.addr) refl

-- The defect: a client that sends one line and closes the connection, after a worker took the request
-- and before the worker locks the client, has it freed under the worker, which then reads it.
pub clean_client-faults :
    (l : Setting) (c : ℕ) (m : Bytes) (a j : ℕ)
    → l.kinds c ≡ client
    → l.max_requests_per_client ≢ 0
    → starts_with m (codes "quit") ≡ false
    → run l (next start) (
        reads c (some m)
        ∷ adds c (some a) (some j)
        ∷ takes (new_request l a m c).pool
        ∷ reads c none
        ∷ locks c
        ∷ cleans c
        ∷ begins (new_request l a m c).pool (new_request l a m c).addr
        ∷ [])
      ≡ fault
unfolding limit
clean_client-faults l c m a j k n q =
    let s1 = in_phase start c (checked m) in
    let r = new_request l a m c in
    let s2 = with_request (in_phase s1 c reading) r j in
    let s3 = with_taken s2 r in
    let s4 = in_phase s3 c leaving in
    let s5 = in_phase s4 c cleaning in
    let s6 = without s5 r in
    run-step l start s1 _ _ (reads-line l start c m refl q (ground (arith, k, n)))
    ∙ run-step l s1 s2 _ _ (adds-first l c m a j)
    ∙ run-step l s2 s3 _ _ (takes-first l (in_phase s1 c reading) r j)
    ∙ run-step l s3 s4 _ _ (reads-none l s3 c (self s1.phases c reading))
    ∙ run-step l s4 s5 _ _ (locks-leaving l s4 c (self s3.phases c leaving))
    ∙ run-step l s5 s6 _ _ (
        cleans_client l s5 c r k (self s4.phases c cleaning) (first_of-new l a m c)
          (new_request-peer l a m c).1)
    ∙ run-last l s6 (begins r.pool r.addr)
    ∙ begins-freed l s6 r.pool r.addr (has-taken r) (find-new l a m c)
