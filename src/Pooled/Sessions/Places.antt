-- ===== src/Pooled/Sessions/Places.antt =====
-- Each request has one place at most: in the queue of its pool, with a worker that is about to begin
-- it, or with a worker that runs it.
use pire2pire.Base.{
  ℕ, ◌+◌, ◌≤◌, ◌≡◌, refl, subst, true, false, ◌||◌, ◌⊎◌, Option, none, some, List, ◌∷◌, Bytes,
  arith, inl, inr,
}
use pire2pire.Pooled.Dispatch.{PoolName, fast, slow}
use pire2pire.Pooled.Sessions.{
  Setting, Request, State, Outcome, next, blocked, fault, same_pool, at_pool, read_line,
  new_request, queue_request, add_request, is_fresh, take_job,
}
use pire2pire.Pooled.Sessions.Counts.{jobs, count, alive, alive_in, busy, jobs-snoc, alive-has_addr}
use pire2pire.ThreadPool.{Job, JobQueue}
use pire2pire.ThreadPool.Queue.{IsValid, at_addr, queue-snoc, get_job-Takes}

pub record Placed (s : State) : Type 0 where
  pub valid : (p : PoolName) → IsValid (s.queues p)
  pub once : (a : ℕ) → alive a s.requests ≤ 1
  pub place :
      (p : PoolName) (a : ℕ)
      → jobs a (s.queues p).jobs + count a (s.taken p) + busy p a s.requests
        ≤ alive_in p a s.requests

abbrev pub Keeps : Outcome → Type 0
Keeps (next t) = Placed t
Keeps blocked = Unit
Keeps fault = ⊥

abbrev pub AllValid : (PoolName → JobQueue) → Type 0
AllValid f = (p : PoolName) → IsValid (f p)

pub at_pool-AllValid :
    (f : PoolName → JobQueue) (p : PoolName) (q : JobQueue)
    → AllValid f
    → IsValid q
    → AllValid (at_pool f p q)
at_pool-AllValid f fast q v w fast = w
at_pool-AllValid f fast q v w slow = v slow
at_pool-AllValid f slow q v w fast = v fast
at_pool-AllValid f slow q v w slow = w

-- One pool gets a new queue and new requests that are taken.
pub at_pool-elim :
    (P : PoolName → JobQueue → List ℕ → Type 0) (f : PoolName → JobQueue) (g : PoolName → List ℕ)
    (x : PoolName) (q : JobQueue) (t : List ℕ)
    → P x q t
    → ((p : PoolName) → same_pool p x ≡ false → P p (f p) (g p))
    → (p : PoolName) → P p (at_pool f x q p) (at_pool g x t p)
at_pool-elim P f g fast q t h k fast = h
at_pool-elim P f g fast q t h k slow = k slow refl
at_pool-elim P f g slow q t h k fast = k fast refl
at_pool-elim P f g slow q t h k slow = h

-- The same taken requests.
pub at_pool-same {ℓ} : {A : Type ℓ} (f : PoolName → A) (x p : PoolName) → at_pool f x (f x) p ≡ f p
at_pool-same f fast fast = refl
at_pool-same f fast slow = refl
at_pool-same f slow fast = refl
at_pool-same f slow slow = refl

pub pool-cases : (x p : PoolName) → (x ≡ p) ⊎ (same_pool x p ≡ false)
pool-cases fast fast = inl refl
pool-cases fast slow = inr refl
pool-cases slow fast = inr refl
pool-cases slow slow = inl refl

same_pool_refl : (p : PoolName) → same_pool p p ≡ true
same_pool_refl fast = refl
same_pool_refl slow = refl

-- Only the requests, the queues and what is taken count.
pub Placed-same :
    (s t : State)
    → Placed s
    → t.requests ≡ s.requests
    → t.queues ≡ s.queues
    → t.taken ≡ s.taken
    → Placed t
Placed-same s t i a b c = record {
  valid = λ p. rw b (i.valid p);
  once = λ x. rw a (i.once x);
  place = λ p x. rw (a, b, c) (i.place p x);
}

pub read_line-Placed :
    (l : Setting) (s : State) (c : ℕ) (m : Option Bytes) → Placed s → Placed (read_line l s c m)
unfolding read_line
read_line-Placed l s c m i =
    Placed-same s (read_line l s c m) i (ground arith) (ground arith) (ground arith)

abbrev pushed : State → Request → State
pushed s r = record s { requests = r ∷ s.requests }

-- A request that is new and in no queue.
push-Placed :
    (s : State) (r : Request)
    → Placed s
    → alive r.addr s.requests ≡ 0
    → r.assigned ≡ false
    → Placed (pushed s r)
unfolding alive alive_in busy
push-Placed s r i n e = record {
  valid = i.valid;
  once = λ a. ground (arith, i.once a, n);
  place = λ p a. ground (arith, i.place p a);
}

abbrev pub Place : ℕ → List Request → PoolName → JobQueue → List ℕ → Type 0
Place a rs p q t = jobs a q.jobs + count a t + busy p a rs ≤ alive_in p a rs

queue-Placed :
    (s : State) (r : Request) (j : ℕ)
    → Placed s
    → alive r.addr s.requests ≡ 0
    → r.assigned ≡ false
    → at_addr j (s.queues r.pool).jobs ≡ false
    → Keeps (queue_request (pushed s r) r (some j))
unfolding queue_request alive_in busy jobs
queue-Placed s r j i n e f =
    let job : Job = record { addr = j; func = 0; arg = r.addr } in
    let (q, o, js, v) = queue-snoc (s.queues r.pool) job (i.valid r.pool) f in
    let k = push-Placed s r i n e in
    rw (o, queue_request)
      (record {
        valid = at_pool-AllValid s.queues r.pool q i.valid v;
        once = k.once;
        place = λ p a.
            subst (λ t. Place a (r ∷ s.requests) p (at_pool s.queues r.pool q p) t)
              (at_pool-same s.taken r.pool p)
              (at_pool-elim (Place a (r ∷ s.requests)) s.queues s.taken r.pool q (s.taken r.pool)
                (rw js (
                  ground (
                    arith,
                    jobs-snoc a (s.queues r.pool).jobs job,
                    i.place r.pool a,
                    e,
                    same_pool_refl r.pool,
                  )))
                (λ x h. k.place x a) p);
      })

fresh_job :
    (s : State) (p : PoolName) (j : ℕ)
    → (at_addr j (s.queues fast).jobs || at_addr j (s.queues slow).jobs) ≡ false
    → at_addr j (s.queues p).jobs ≡ false
fresh_job s fast j h = ground arith
fresh_job s slow j h = ground arith

new_request-addr :
    (l : Setting) (a : ℕ) (m : Bytes) (c : ℕ)
    → ((new_request l a m c).addr ≡ a) × ((new_request l a m c).assigned ≡ false)
unfolding new_request
new_request-addr l a m c = (ground arith, ground arith)

pub add_request-Keeps :
    (l : Setting) (s : State) (c : ℕ) (m : Bytes) (a j : Option ℕ)
    → Placed s
    → is_fresh s a j ≡ true
    → Keeps (add_request l s c m a j)
unfolding add_request is_fresh
add_request-Keeps l s c m none j i f = Placed-same s _ i refl refl refl
add_request-Keeps l s c m (some a) none i f =
    let (e, u) = new_request-addr l a m c in
    Placed-same (pushed s (new_request l a m c)) _
      (push-Placed s (new_request l a m c) i
        (rw e (alive-has_addr a s.requests (ground (arith, f)))) u)
      refl refl refl
add_request-Keeps l s c m (some a) (some j) i f =
    let (e, u) = new_request-addr l a m c in
    queue-Placed (record s { phases = _; sent = s.sent }) (new_request l a m c) j
      (Placed-same s _ i refl refl refl) (rw e (alive-has_addr a s.requests (ground (arith, f)))) u
      (fresh_job s (new_request l a m c).pool j (ground (arith, f)))

pub take_job-Keeps : (s : State) (p : PoolName) → Placed s → Keeps (take_job s p)
unfolding take_job jobs count
take_job-Keeps s p i = elim (get_job-Takes (s.queues p) (i.valid p)) [
  | inl (e, o) ↦ rw (o, take_job) tt
  | inr (j, q, o, e, v) ↦
      rw (o, take_job)
        (record {
          valid = at_pool-AllValid s.queues p q i.valid v;
          once = i.once;
          place = λ x a.
              at_pool-elim (Place a s.requests) s.queues s.taken p q (j.arg ∷ s.taken p)
                (let k = rw e at (i.place p a) in ground (arith, k)) (λ y h. i.place y a) x;
        })
]
