-- ===== src/ThreadPool/Workers/Fifo.antt =====
-- The queue that the workers share, as a list: what an abstract queue promises.

use pire2pire.Base.{
  ℕ, ◌≡◌, refl, sym, subst, inl, inr, ◌⊎◌, arith, Bool-cases, Option, none, some, List, [], ◌∷◌,
  ◌++◌, keep,
}
use pire2pire.ThreadPool.{Job, JobQueue, get_job, pool_queue}
use pire2pire.ThreadPool.Queue.{queue_onto-snoc}
use pire2pire.ThreadPool.Flush.{other_arg}
use pire2pire.ThreadPool.Workers.{
  Pool, Event, queued, taken, flushed, released, Turn, worker_cleanup, enter_pool, take_job,
  worker_turn, System, Step, enter, wake, finish, cancel, restart, queue, flush, destroy, release,
  Reach, created, later,
}
use pire2pire.ThreadPool.Workers.Invariant.{worker_turn-left, worker_turn-take_job}
use pire2pire.ThreadPool.Workers.Tail.{
  Dangles, Fits, TailFits, queue-Fits, flush-Fits, get_job-Fits,
}

-- What an event does to the list: a job comes in at the end, the first job leaves, the jobs with
-- an argument go, or all go.
pub data FifoStep : List Job → Event → List Job → Type 0 where
  put : (js : List Job) (j : Job) → FifoStep js (queued j) (js ++ j ∷ [])
  take : (js : List Job) (j : Job) → FifoStep (j ∷ js) (taken j) js
  drop : (js : List Job) (arg : ℕ) → FifoStep js (flushed arg) (keep (other_arg arg) js)
  clear : (js : List Job) → FifoStep js released []

pub data Replay : List Job → List Event → List Job → Type 0 where
  stop : (js : List Job) → Replay js [] js
  step :
      {js ks ls : List Job} {e : Event} {es : List Event}
      → FifoStep js e ks
      → Replay ks es ls
      → Replay js (e ∷ es) ls

Replay-append :
    {js ks ls : List Job} {es fs : List Event}
    → Replay js es ks
    → Replay ks fs ls
    → Replay js (es ++ fs) ls
Replay-append (stop js) q = q
Replay-append (step s p) q = step s (Replay-append p q)

abbrev Replays : Pool → Turn → Type 0
Replays p t = Replay p.queue.jobs t.events t.pool.queue.jobs × Fits t.pool.queue

take_job-Replays :
    (p : Pool) (o : Option (Job × JobQueue))
    → Fits p.queue
    → get_job p.queue ≡ o
    → Replays p (take_job p o)
unfolding take_job
take_job-Replays p none f e = (stop p.queue.jobs, f)
take_job-Replays p (some (j, q)) f e =
    let (jobs, f') = get_job-Fits p.queue q j f e in
    (
      subst (λ js. Replay js (taken j ∷ []) q.jobs) (sym jobs) (step (take q.jobs j) (stop q.jobs)),
      f',
    )

worker_turn-Replays : (p : Pool) → Fits p.queue → Replays p (worker_turn p)
unfolding worker_cleanup
worker_turn-Replays p f = elim (Bool-cases p.destroy) [
  | inl e ↦ subst (Replays p) (sym (worker_turn-left p e)) (stop p.queue.jobs, f)
  | inr e ↦
      subst (Replays p) (sym (worker_turn-take_job p e))
        (take_job-Replays p (get_job p.queue) f refl)
]

emptied : (tail : Option ℕ) → TailFits [] tail
emptied none = inl tt
emptied (some a) = inl tt

Step-Replay :
    {n : ℕ} {s t : System} {es : List Event}
    → Fits s.pool.queue
    → Step n s es t
    → Replay s.pool.queue.jobs es t.pool.queue.jobs × Fits t.pool.queue
Step-Replay {s} f (enter i h e) = unfold enter_pool in (worker_turn-Replays (enter_pool s.pool) f)
Step-Replay {s} f (wake i h e) = worker_turn-Replays s.pool f
Step-Replay {s} f (finish i j h e) = worker_turn-Replays s.pool f
Step-Replay {s} f (cancel i h e) = unfold worker_cleanup in (stop s.pool.queue.jobs, f)
Step-Replay {s} f (restart i h e) = (stop s.pool.queue.jobs, f)
Step-Replay {s} f (queue job q n e) =
    let (jobs, f') = queue-Fits s.pool.queue q job f n e in
    (
      subst (λ js. Replay s.pool.queue.jobs (queued job ∷ []) js) (sym jobs)
          (step (put s.pool.queue.jobs job) (stop _)),
      f',
    )
Step-Replay {s} f (flush arg) =
    let (jobs, f') = flush-Fits s.pool.queue arg f in
    (
      subst (λ js. Replay s.pool.queue.jobs (flushed arg ∷ []) js) (sym jobs)
          (step (drop s.pool.queue.jobs arg) (stop _)),
      f',
    )
Step-Replay {s} f destroy = (stop s.pool.queue.jobs, f)
Step-Replay {s} f (release d z) = (
  step (clear s.pool.queue.jobs) (stop []),
  record { distinct = tt; tail = emptied s.pool.queue.jobq_tail },
)

pool_queue-Fits :
    (q : JobQueue) (job : Job)
    → Fits q
    → (pool_queue q job ≡ some (record { jobs = q.jobs ++ job ∷ []; jobq_tail = some job.addr }))
      ⊎ Dangles q.jobs q.jobq_tail
unfolding pool_queue
pool_queue-Fits q job f = elim f.tail [
  | inl l ↦ inl (ground (arith, queue_onto-snoc q.jobs q.jobq_tail job f.distinct l))
  | inr d ↦ inr d
]

Reach-Fits :
    {n : ℕ} {es : List Event} {s : System}
    → Reach n es s
    → Replay [] es s.pool.queue.jobs × Fits s.pool.queue
Reach-Fits created = (stop [], record { distinct = tt; tail = inl tt })
Reach-Fits (later r st) =
    let (p, f) = Reach-Fits r in let (p', f') = Step-Replay f st in (Replay-append p p', f')

-- In every run of a pool, as far as the first `pool_queue` that writes to a freed job, whatever the
-- interleaving of its threads, the cancellations, flushes and the destruction included: the jobs in the
-- queue are those of an abstract queue to which the same happened. What a worker takes is the oldest
-- job, and a job leaves the queue only by a worker, a flush or the end of `pool_destroy`. And a next
-- `pool_queue` puts its job behind the others, unless the tail is an address at which the queue has no
-- job.
pub pool_refines :
    (n : ℕ) (es : List Event) (s : System) (job : Job)
    → Reach n es s
    → Replay [] es s.pool.queue.jobs
      × ((pool_queue s.pool.queue job
            ≡ some (record { jobs = s.pool.queue.jobs ++ job ∷ []; jobq_tail = some job.addr }))
          ⊎ Dangles s.pool.queue.jobs s.pool.queue.jobq_tail)
pool_refines n es s job r = let (p, f) = Reach-Fits r in (p, pool_queue-Fits s.pool.queue job f)
