-- ===== src/Pooled/Sessions/Gone.antt =====
-- `nb_requests` of a peer in every state, and what is left of a peer that is gone.
use pire2pire.Base.{
  ℕ, ◌+◌, ◌≤◌, ◌≡◌, ◌≢◌, refl, sym, subst, true, Option, none, some, List, Bytes, ◌==◌, arith,
  Bool-cases, Option-cases, inl, inr, ◌∙◌, eq_of_eqb,
}
use pire2pire.Pooled.Dispatch.{PoolName}
use pire2pire.Pooled.Sessions.{
  Kind, client, daemon, Setting, Request, Phase, reading, checked, leaving, cleaning, gone, State,
  blocked, Event, reads, adds, takes, begins, finishes, locks, cleans, add_request, find, first_of,
  drop_request, has, is_fresh, clean_client, clean_daemon, clean_peer, read_event, add_event,
  lock_event, clean_event, step, start, Reach, begun, later,
}
use pire2pire.Pooled.Sessions.Counts.{
  read_next-freed, jobs, count, alive, running, alive-find-none, alive_in-le,
}
use pire2pire.Pooled.Sessions.Places.{Placed}
use pire2pire.Pooled.Sessions.Safety.{Reach-Placed}
use pire2pire.ThreadPool.{JobQueue}
use pire2pire.Pooled.Sessions.Running.{
  running-drop, first_of-drop, first_of-peer, first_of-find, find-first_of,
}
use pire2pire.Pooled.Sessions.Accounts.{
  is_open, Accounted, Accounts, enters-Accounted, if-either, read_line-Accounted,
  add_request-Accounts, take_job-Accounts, begin_request-Accounts, finish_request-Accounts,
}

-- While a peer is cleaned up, its requests go.
clean-Accounted :
    (s : State) (c : ℕ) (r : Request) (f : PoolName → JobQueue)
    → Placed s
    → Accounted s
    → s.phases c ≡ cleaning
    → first_of c s.requests ≡ some r
    → Accounted (record s { requests = drop_request r.addr s.requests; queues = f })
clean-Accounted s c r f v i k e = record {
  counted = λ d o. elim (Bool-cases (r.peer == d)) [
    | inl q ↦
        absurd
          (ground (arith, rw (sym (eq_of_eqb r.peer d q) ∙ first_of-peer c s.requests r e, k) at o))
    | inr q ↦ ground (
      arith,
      i.counted d o,
      q,
      running-drop d r.addr s.requests r (first_of-find c s.requests r e (v.once r.addr))
          (v.once r.addr),
    )
  ];
  left = λ d g. first_of-drop d r.addr s.requests (i.left d g);
}

clean_client-Accounts :
    (s : State) (c : ℕ)
    → Placed s
    → Accounted s
    → s.phases c ≡ cleaning
    → Accounts (clean_client s c (first_of c s.requests))
unfolding clean_client
clean_client-Accounts s c v i k = elim (Option-cases (first_of c s.requests)) [
  | inl e ↦
      rw (e, clean_client)
        (enters-Accounted s c gone s.sent i (λ h. absurd (ground arith)) (λ h. e))
  | inr (r, e) ↦ elim (Bool-cases r.assigned) [
    | inl u ↦ rw (e, clean_client, u) (clean-Accounted s c r s.queues v i k e)
    | inr u ↦ rw (e, clean_client, u) (clean-Accounted s c r _ v i k e)
  ]
]

clean_daemon-Accounts :
    (s : State) (c : ℕ) → Accounted s → Accounts (clean_daemon s c (first_of c s.requests))
unfolding clean_daemon
clean_daemon-Accounts s c i = elim (Option-cases (first_of c s.requests)) [
  | inl e ↦
      rw (e, clean_daemon)
        (enters-Accounted s c gone s.sent i (λ h. absurd (ground arith)) (λ h. e))
  | inr (r, e) ↦ rw (e, clean_daemon, read_next-freed s r) tt
]

clean_peer-Accounts :
    (l : Setting) (s : State) (c : ℕ)
    → Placed s
    → Accounted s
    → s.phases c ≡ cleaning
    → Accounts (clean_peer l s c)
unfolding clean_peer
clean_peer-Accounts l s c v i k = of_kind (l.kinds c) refl
  where
    of_kind : (x : Kind) → l.kinds c ≡ x → Accounts (clean_peer l s c)
    of_kind client e = rw (e, clean_peer) (clean_client-Accounts s c v i k)
    of_kind daemon e = rw (e, clean_peer) (clean_daemon-Accounts s c i)

-- What the phase of a peer allows.
phase-Accounts :
    (l : Setting) (s : State) (c : ℕ) (m : Option Bytes) (a j : Option ℕ) (ph : Phase)
    → Placed s
    → Accounted s
    → s.phases c ≡ ph
    → Accounts (read_event l s c m ph)
      × Accounts (add_event l s c a j ph)
      × Accounts (lock_event s c ph)
      × Accounts (clean_event l s c ph)
unfolding read_event add_event lock_event clean_event
phase-Accounts l s c m a j reading v i e =
    (read_line-Accounted l s c m i (ground (arith, e)), tt, tt, tt)
phase-Accounts l s c m a j leaving v i e = (
  tt,
  tt,
  enters-Accounted s c cleaning s.sent i (λ h. ground (arith, e)) (λ h. absurd (ground (arith, h))),
  tt,
)
phase-Accounts l s c m a j cleaning v i e = (tt, tt, tt, clean_peer-Accounts l s c v i e)
phase-Accounts l s c m a j gone v i e = (tt, tt, tt, tt)
phase-Accounts l s c m a j (checked w) v i e = (
  tt,
  if-either Accounts (is_fresh s a j) (add_request l s c w a j) blocked
      (add_request-Accounts l s c w a j i (ground (arith, e))) tt,
  tt,
  tt,
)

step-Accounts :
    (l : Setting) (s : State) (e : Event) → Placed s → Accounted s → Accounts (step l s e)
unfolding step
step-Accounts l s (reads c m) v i = (phase-Accounts l s c m none none (s.phases c) v i refl).0
step-Accounts l s (adds c a j) v i = (phase-Accounts l s c none a j (s.phases c) v i refl).1
step-Accounts l s (takes p) v i = take_job-Accounts s p i
step-Accounts l s (begins p a) v i = elim (Bool-cases (has a (s.taken p))) [
  | inl e ↦ rw e (begin_request-Accounts s p a v i e)
  | inr e ↦ rw e tt
]
step-Accounts l s (finishes a) v i = finish_request-Accounts s a v i
step-Accounts l s (locks c) v i = (phase-Accounts l s c none none none (s.phases c) v i refl).2
step-Accounts l s (cleans c) v i = (phase-Accounts l s c none none none (s.phases c) v i refl).3

start-Accounted : Accounted start
unfolding running first_of
start-Accounted = record { counted = λ c h. refl; left = λ c h. refl }

Reach-Accounted : (l : Setting) (s : State) → Reach l s → Accounted s
Reach-Accounted l s begun = start-Accounted
Reach-Accounted l u (later {s} e t r h st) =
    subst Accounts st (step-Accounts l s e (Reach-Placed l s r) (Reach-Accounted l s r))

-- In every state of a run in which no request is freed while a worker is about to begin it, and no
-- daemon with requests is cleaned up: `nb_requests` of a peer that is not being cleaned up is the number
-- of its requests that a worker runs. Those that wait in a queue are not counted.
pub nb_requests-running :
    (l : Setting) (s : State) (c : ℕ)
    → Reach l s
    → is_open (s.phases c) ≡ true
    → s.nb_requests c ≡ running c s.requests
nb_requests-running l s c r o = (Reach-Accounted l s r).counted c o

find-some : (a : ℕ) (rs : List Request) → 1 ≤ alive a rs → (r : Request) × (find a rs ≡ some r)
find-some a rs h = elim (Option-cases (find a rs)) [
  | inl e ↦ absurd (omega (arith, alive-find-none a rs e, h))
  | inr x ↦ x
]

-- In every state of a run in which no request is freed while a worker is about to begin it, and no
-- daemon with requests is cleaned up, nothing is left of a peer that is gone: each job in a queue, and each
-- one that a worker took, is for a request that is not freed and belongs to another peer.
pub gone-other_peer :
    (l : Setting) (s : State) (c : ℕ) (p : PoolName) (a : ℕ)
    → Reach l s
    → s.phases c ≡ gone
    → 1 ≤ jobs a (s.queues p).jobs + count a (s.taken p)
    → (r : Request) × (find a s.requests ≡ some r) × (r.peer ≢ c)
gone-other_peer l s c p a reach g h =
    let v = Reach-Placed l s reach in
    let (r, e) =
      find-some a s.requests (omega (arith, h, v.place p a, alive_in-le p a s.requests)) in
    (r, e, λ q. find-first_of a c s.requests r e q ((Reach-Accounted l s reach).left c g))
