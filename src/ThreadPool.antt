-- ===== src/ThreadPool.antt =====
-- branches/block_by_block/daemon/thread_pool.c: the job queue of the pool. A job is allocated at an
-- address; the queue is the chain of `next` pointers from `jobq_head`, and `jobq_tail` is an address
-- that may outlive its job. `arg` is an address too.
pub mod Queue
pub mod Flush
pub mod Workers
mod Examples
use pire2pire.Base.{
  ℕ, zero, suc, ◌+◌, ◌-◌, Bool, true, false, Option, none, some, List, [], ◌∷◌, ◌++◌, ◌==◌,
  if◌then◌else◌,
}

pub record Job : Type 0 where
  pub addr : ℕ
  pub func : ℕ
  pub arg : ℕ

pub record JobQueue : Type 0 where
  pub jobs : List Job
  pub jobq_tail : Option ℕ

-- `jobq_tail->next = job`, where `job->next` is NULL. The job behind which it goes is the one at the
-- address; no job there is a write to memory that is not a job's: `none`.
pub link_after : ℕ → Job → List Job → Option (List Job)
link_after tail job [] = none
link_after tail job (j ∷ js) =
    if j.addr == tail
    then some (j ∷ job ∷ [])
    else elim (link_after tail job js) [ none ↦ none | some js' ↦ some (j ∷ js') ]

link_at_tail : Option ℕ → Job → List Job → Option (List Job)
link_at_tail none job jobs = none
link_at_tail (some tail) job jobs = link_after tail job jobs

pub queue_onto : List Job → Option ℕ → Job → Option (List Job)
unfolding link_at_tail
queue_onto [] tail job = some (job ∷ [])
queue_onto (j ∷ js) tail job = link_at_tail tail job (j ∷ js)

-- `pool_queue`, under the mutex; `none` is a fault.
unfoldable pub pool_queue : JobQueue → Job → Option JobQueue
unfolding queue_onto
pool_queue q job = elim (queue_onto q.jobs q.jobq_tail job) [
  | none ↦ none
  | some jobs ↦ some (record { jobs = jobs; jobq_tail = some job.addr })
]

unfoldable pub forget_tail : ℕ → Option ℕ → Option ℕ
forget_tail addr none = none
forget_tail addr (some tail) = if addr == tail then none else some tail

unfoldable pub take_from : List Job → Option ℕ → Option (Job × JobQueue)
unfolding forget_tail
take_from [] tail = none
take_from (j ∷ js) tail = some (j, record { jobs = js; jobq_tail = forget_tail j.addr tail })

-- How a worker gets the first job.
unfoldable pub get_job : JobQueue → Option (Job × JobQueue)
unfolding take_from
get_job q = take_from q.jobs q.jobq_tail

-- `if (*pjob) pool->jobq_tail = *pjob;`
advance : List Job → Option ℕ → Option ℕ
advance [] tail = tail
advance (j ∷ js) tail = some j.addr

pub flush_loop : ℕ → List Job → Option ℕ → List Job × Option ℕ
unfolding advance
flush_loop arg [] tail = ([], tail)
flush_loop arg (j ∷ js) tail =
    let (rest, tail') = flush_loop arg js (if j.arg == arg then advance js tail else some j.addr) in
    if j.arg == arg then (rest, tail') else (j ∷ rest, tail')

unfoldable pub pool_flush_by_arg : JobQueue → ℕ → JobQueue
unfolding flush_loop
pool_flush_by_arg q arg =
    let (jobs, tail) = flush_loop arg q.jobs q.jobq_tail in record { jobs = jobs; jobq_tail = tail }
