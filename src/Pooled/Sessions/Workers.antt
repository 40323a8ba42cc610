-- ===== src/Pooled/Sessions/Workers.antt =====
-- A worker begins a request and finishes it: nothing that is freed is touched, and each request keeps its one place.
use pire2pire.Base.{
  ℕ, ◌+◌, ◌≤◌, ◌≡◌, refl, subst, true, false, arith, Bool-cases, Option-cases, inl, inr,
}
use pire2pire.Pooled.Dispatch.{PoolName}
use pire2pire.Pooled.Sessions.{
  State, same_pool, at_pool, find, drop_request, assign, has, remove_one, begin_request,
  finish_request, locked,
}
use pire2pire.Pooled.Sessions.Counts.{
  jobs, count, busy, count-remove_one, count-has, alive-find-none, alive-drop, alive_in-drop,
  busy-drop, alive-assign, alive_in-assign, busy-assign, find-busy, alive_in-other, alive_in-le,
}
use pire2pire.Pooled.Sessions.Places.{
  Placed, Keeps, AllValid, Place, at_pool-elim, at_pool-same, Placed-same, pool-cases,
}
use pire2pire.ThreadPool.{JobQueue}

-- A request that a worker took is not freed.
pub begin_request-Keeps :
    (s : State) (p : PoolName) (a : ℕ)
    → Placed s
    → has a (s.taken p) ≡ true
    → Keeps (begin_request s p a (find a s.requests))
unfolding begin_request
begin_request-Keeps s p a i h = elim (Option-cases (find a s.requests)) [
  | inl e ↦ absurd (
      omega (
        arith,
        alive-find-none a s.requests e,
        count-has a (s.taken p) h,
        i.place p a,
        alive_in-le p a s.requests,
      ))
  | inr (r, e) ↦ elim (Bool-cases (locked (s.phases r.peer))) [
    | inl k ↦ rw (e, begin_request, k) tt
    | inr k ↦
        rw (e, begin_request, k)
          (record {
            valid = i.valid;
            once = λ b. rw (alive-assign b a s.requests) (i.once b);
            place = λ x b.
                subst
                  (λ q.
                    Place b (assign a s.requests) x q
                      (at_pool s.taken p (remove_one a (s.taken p)) x))
                  (at_pool-same s.queues p x)
                  (at_pool-elim (Place b (assign a s.requests)) s.queues s.taken p (s.queues p)
                    (remove_one a (s.taken p)) (here b) (there b) x);
          })
  ]
]
  where
    here : (b : ℕ) → Place b (assign a s.requests) p (s.queues p) (remove_one a (s.taken p))
    here b =
        rw (alive_in-assign p b a s.requests, busy-assign p b a s.requests)
          (ground (
            arith,
            count-remove_one b a (s.taken p) h,
            count-has a (s.taken p) h,
            i.place p b,
            i.place p a,
            i.once a,
            alive_in-le p a s.requests,
          ))

    there :
        (b : ℕ) (x : PoolName)
        → same_pool x p ≡ false
        → Place b (assign a s.requests) x (s.queues x) (s.taken x)
    there b x n =
        rw (alive_in-assign x b a s.requests, busy-assign x b a s.requests)
          (ground (
            arith,
            count-has a (s.taken p) h,
            i.place x b,
            i.place p a,
            i.once a,
            alive_in-other x p a s.requests n,
          ))

abbrev pub dropped : State → ℕ → (PoolName → JobQueue) → State
dropped s b f = record s { requests = drop_request b s.requests; queues = f }

-- A request is dropped that has no place in the queues or among those taken.
pub drop-Placed :
    (s : State) (b : ℕ) (f : PoolName → JobQueue)
    → Placed s
    → AllValid f
    → ((x : PoolName) (a : ℕ) → jobs a (f x).jobs ≤ jobs a (s.queues x).jobs)
    → ((x : PoolName) → jobs b (f x).jobs + count b (s.taken x) ≡ 0)
    → Placed (dropped s b f)
drop-Placed s b f i v le none_left = record {
  valid = v;
  once = λ a. rw (alive-drop a b s.requests) (ground (arith, i.once a));
  place = λ x a.
      rw (alive_in-drop x a b s.requests, busy-drop x a b s.requests)
        (ground (arith, i.place x a, le x a, none_left x));
}

-- What a worker runs has no other place.
pub busy-only :
    (s : State) (y : PoolName) (a : ℕ)
    → Placed s
    → 1 ≤ busy y a s.requests
    → (x : PoolName) → jobs a (s.queues x).jobs + count a (s.taken x) ≡ 0
busy-only s y a i h x = elim (pool-cases x y) [
  | inl k ↦ rw k (omega (arith, h, i.place y a, i.once a, alive_in-le y a s.requests))
  | inr k ↦ omega (arith, h, i.place y a, i.place x a, i.once a, alive_in-other x y a s.requests k)
]

pub finish_request-Keeps :
    (s : State) (a : ℕ) → Placed s → Keeps (finish_request s a (find a s.requests))
unfolding finish_request
finish_request-Keeps s a i = elim (Option-cases (find a s.requests)) [
  | inl e ↦ rw (e, finish_request) tt
  | inr (r, e) ↦ elim (Bool-cases (locked (s.phases r.peer))) [
    | inl k ↦ rw (e, finish_request, k) tt
    | inr k ↦ elim (Bool-cases r.assigned) [
      | inr u ↦ rw (e, finish_request, k, u) tt
      | inl u ↦
          rw (e, finish_request, k, u)
            (Placed-same (dropped s a s.queues) _
              (drop-Placed s a s.queues i i.valid (λ x b. omega arith)
                (busy-only s r.pool a i (find-busy a s.requests r e u)))
              refl refl refl)
    ]
  ]
]
