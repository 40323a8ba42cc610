-- ===== src/Pooled/Sessions/Safety.antt =====
-- No step of a careful run touches memory that is freed, and nothing of a peer outlives it.
use pire2pire.Base.{
  ℕ, ◌+◌, ◌≤◌, ◌≡◌, ◌≢◌, refl, subst, true, false, Option, [], Bytes, arith, Bool-cases,
  Option-cases, inl, inr,
}
use pire2pire.Pooled.Dispatch.{PoolName}
use pire2pire.Pooled.Sessions.{
  Kind, client, daemon, Setting, Request, Phase, reading, checked, leaving, cleaning, gone, State,
  fault, Event, reads, adds, takes, begins, finishes, locks, cleans, at_pool, first_of, has,
  is_fresh, clean_client, clean_daemon, clean_peer, read_event, add_event, lock_event, clean_event,
  step, start, is_hasty, is_careful, Reach, begun, later,
}
use pire2pire.Pooled.Sessions.Counts.{
  jobs, count, alive, alive_in, busy, jobs-keep, ends_in_run-once, count-not_has, first_of-alive_in,
  first_of-busy, alive_in-other, alive_in-le,
}
use pire2pire.Pooled.Sessions.Places.{
  Placed, Keeps, AllValid, at_pool-AllValid, at_pool-elim, at_pool-same, Placed-same,
  read_line-Placed, add_request-Keeps, take_job-Keeps,
}
use pire2pire.ThreadPool.{JobQueue, pool_flush_by_arg}
use pire2pire.ThreadPool.Flush.{flush-keep, flush-IsValid}
use pire2pire.Pooled.Sessions.Workers.{
  begin_request-Keeps, dropped, drop-Placed, busy-only, finish_request-Keeps,
}

abbrev flushed : State → Request → PoolName → JobQueue
flushed s r = at_pool s.queues r.pool (pool_flush_by_arg (s.queues r.pool) r.addr)

module _ (s : State) (r : Request) (i : Placed s) (here : 1 ≤ alive_in r.pool r.addr s.requests)
    (free : count r.addr (s.taken r.pool) ≡ 0) where
  flush-valid : AllValid (flushed s r)
  flush-valid = at_pool-AllValid s.queues r.pool _ i.valid (
      flush-IsValid (s.queues r.pool) r.addr (i.valid r.pool) (
        ends_in_run-once r.addr (s.queues r.pool).jobs (
          omega
            (arith, i.place r.pool r.addr, i.once r.addr, alive_in-le r.pool r.addr s.requests))))

  flush-fewer : (x : PoolName) (a : ℕ) → jobs a (flushed s r x).jobs ≤ jobs a (s.queues x).jobs
  flush-fewer x a =
      at_pool-elim (λ p q t. jobs a q.jobs ≤ jobs a (s.queues p).jobs) s.queues s.taken r.pool _ []
        (rw (flush-keep (s.queues r.pool) r.addr, jobs-keep a r.addr (s.queues r.pool).jobs)
          (ground arith))
        (λ p h. omega arith) x

  flush-none : (x : PoolName) → jobs r.addr (flushed s r x).jobs + count r.addr (s.taken x) ≡ 0
  flush-none x =
      subst (λ t. jobs r.addr (flushed s r x).jobs + count r.addr t ≡ 0)
        (at_pool-same s.taken r.pool x)
        (at_pool-elim (λ p q t. jobs r.addr q.jobs + count r.addr t ≡ 0) s.queues s.taken r.pool _
          (s.taken r.pool)
          (rw (flush-keep (s.queues r.pool) r.addr, jobs-keep r.addr r.addr (s.queues r.pool).jobs)
            (ground (arith, free)))
          (λ p h. omega (
            arith,
            here,
            i.place p r.addr,
            i.once r.addr,
            alive_in-other p r.pool r.addr s.requests h,
          ))
          x)

clean_client-Keeps :
    (l : Setting) (s : State) (c : ℕ)
    → Placed s
    → is_hasty l s (first_of c s.requests) client ≡ false
    → Keeps (clean_client s c (first_of c s.requests))
unfolding clean_client is_hasty
clean_client-Keeps l s c i h = elim (Option-cases (first_of c s.requests)) [
  | inl e ↦ rw (e, clean_client) (Placed-same s _ i refl refl refl)
  | inr (r, e) ↦ elim (Bool-cases r.assigned) [
    | inl u ↦
        rw (e, clean_client, u)
          (Placed-same (dropped s r.addr s.queues) _
            (drop-Placed s r.addr s.queues i i.valid (λ x b. omega arith)
              (busy-only s r.pool r.addr i (first_of-busy c s.requests r e u)))
            refl refl refl)
    | inr u ↦
        let here = first_of-alive_in c s.requests r e in
        let free = count-not_has r.addr (s.taken r.pool) (ground (arith, h, e, u)) in
        rw (e, clean_client, u)
          (drop-Placed s r.addr (flushed s r) i (flush-valid s r i here free)
            (flush-fewer s r i here free) (flush-none s r i here free))
  ]
]

clean_peer-Keeps :
    (l : Setting) (s : State) (c : ℕ)
    → Placed s
    → is_careful l s (cleans c) ≡ true
    → Keeps (clean_peer l s c)
unfolding clean_peer clean_daemon is_careful is_hasty
clean_peer-Keeps l s c i h = of_kind (l.kinds c) refl
  where
    of_kind : (k : Kind) → l.kinds c ≡ k → Keeps (clean_peer l s c)
    of_kind client e = rw (e, clean_peer) (clean_client-Keeps l s c i (ground (arith, h, e)))
    of_kind daemon e = elim (Option-cases (first_of c s.requests)) [
      | inl o ↦ rw (e, clean_peer, o, clean_daemon) (Placed-same s _ i refl refl refl)
      | inr (r, o) ↦ absurd (ground (arith, h, e, o))
    ]

clean_event-Keeps :
    (l : Setting) (s : State) (c : ℕ) (ph : Phase)
    → Placed s
    → is_careful l s (cleans c) ≡ true
    → Keeps (clean_event l s c ph)
unfolding clean_event
clean_event-Keeps l s c cleaning i h = clean_peer-Keeps l s c i h
clean_event-Keeps l s c reading i h = tt
clean_event-Keeps l s c leaving i h = tt
clean_event-Keeps l s c gone i h = tt
clean_event-Keeps l s c (checked m) i h = tt

read_event-Keeps :
    (l : Setting) (s : State) (c : ℕ) (m : Option Bytes) (ph : Phase)
    → Placed s
    → Keeps (read_event l s c m ph)
unfolding read_event
read_event-Keeps l s c m reading i = read_line-Placed l s c m i
read_event-Keeps l s c m leaving i = tt
read_event-Keeps l s c m cleaning i = tt
read_event-Keeps l s c m gone i = tt
read_event-Keeps l s c m (checked w) i = tt

add_event-Keeps :
    (l : Setting) (s : State) (c : ℕ) (a j : Option ℕ) (ph : Phase)
    → Placed s
    → Keeps (add_event l s c a j ph)
unfolding add_event
add_event-Keeps l s c a j (checked m) i = elim (Bool-cases (is_fresh s a j)) [
  | inl e ↦ rw e (add_request-Keeps l s c m a j i e)
  | inr e ↦ rw e tt
]
add_event-Keeps l s c a j reading i = tt
add_event-Keeps l s c a j leaving i = tt
add_event-Keeps l s c a j cleaning i = tt
add_event-Keeps l s c a j gone i = tt

lock_event-Keeps : (s : State) (c : ℕ) (ph : Phase) → Placed s → Keeps (lock_event s c ph)
unfolding lock_event
lock_event-Keeps s c leaving i = Placed-same s _ i refl refl refl
lock_event-Keeps s c reading i = tt
lock_event-Keeps s c cleaning i = tt
lock_event-Keeps s c gone i = tt
lock_event-Keeps s c (checked m) i = tt

step-Keeps :
    (l : Setting) (s : State) (e : Event) → Placed s → is_careful l s e ≡ true → Keeps (step l s e)
unfolding step
step-Keeps l s (reads c m) i h = read_event-Keeps l s c m (s.phases c) i
step-Keeps l s (adds c a j) i h = add_event-Keeps l s c a j (s.phases c) i
step-Keeps l s (takes p) i h = take_job-Keeps s p i
step-Keeps l s (begins p a) i h = elim (Bool-cases (has a (s.taken p))) [
  | inl e ↦ rw e (begin_request-Keeps s p a i e)
  | inr e ↦ rw e tt
]
step-Keeps l s (finishes a) i h = finish_request-Keeps s a i
step-Keeps l s (locks c) i h = lock_event-Keeps s c (s.phases c) i
step-Keeps l s (cleans c) i h = clean_event-Keeps l s c (s.phases c) i h

start-Placed : Placed start
unfolding alive alive_in busy jobs count
start-Placed = record {
  valid = λ p. record { distinct = tt; tail = tt };
  once = λ a. omega arith;
  place = λ p a. omega arith;
}

pub Reach-Placed : (l : Setting) (s : State) → Reach l s → Placed s
Reach-Placed l s begun = start-Placed
Reach-Placed l u (later {s} e t r h st) = subst Keeps st (step-Keeps l s e (Reach-Placed l s r) h)

-- The pools never fault in a run, whatever the interleaving of peers and workers, in which no request
-- is freed while a worker is about to begin it and no daemon with requests is cleaned up: no job is
-- queued behind a freed one, and no worker begins a request that is freed.
pub step-ne-fault :
    (l : Setting) (s : State) (e : Event) → Reach l s → is_careful l s e ≡ true → step l s e ≢ fault
step-ne-fault l s e r h f = subst Keeps f (step-Keeps l s e (Reach-Placed l s r) h)
