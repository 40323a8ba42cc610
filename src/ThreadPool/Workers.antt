-- ===== src/ThreadPool/Workers.antt =====
-- branches/block_by_block/daemon/thread_pool.c: the workers of a pool, of which each runs what it does
-- between two releases of the mutex as one step, in any order: `worker_thread` with its two clean-up
-- handlers, and `pool_create`, `pool_queue`, `pool_flush_by_arg`, `pool_kill` and `pool_destroy`.
pub mod Invariant
pub mod Fifo
pub mod Tail
mod Examples
use pire2pire.Base.{
  ℕ, ◌+◌, ◌-◌, ◌<◌, ◌≡◌, Bool, true, false, Option, none, some, List, [], ◌∷◌, ◌++◌, ◌==◌,
  if◌then◌else◌,
}
use pire2pire.ThreadPool.{Job, JobQueue, pool_queue, get_job, pool_flush_by_arg}
use pire2pire.ThreadPool.Queue.{at_addr}

-- `starting`: created, and not yet at its first lock. `waiting`: in `pthread_cond_wait`.
-- `running`: in the function of its job, without the mutex.
pub data Phase : Type 0 where
  starting waiting ended : Phase
  running : Job → Phase

pub record Pool : Type 0 where
  pub queue : JobQueue
  pub destroy : Bool
  pub nb_alive_threads : ℕ

-- What happens to the queue.
pub data Event : Type 0 where
  queued : Job → Event
  taken : Job → Event
  flushed : (arg : ℕ) → Event
  released : Event

pub record Turn : Type 0 where
  pub pool : Pool
  pub phase : Phase
  pub events : List Event

pub worker_cleanup : Pool → Pool
worker_cleanup p = record p { nb_alive_threads = p.nb_alive_threads - 1 }

-- `++pool->nb_alive_threads`
pub enter_pool : Pool → Pool
enter_pool p = record p { nb_alive_threads = p.nb_alive_threads + 1 }

pub take_job : Pool → Option (Job × JobQueue) → Turn
take_job p none = record { pool = p; phase = waiting; events = [] }
take_job p (some (j, q)) = record {
  pool = record p { queue = q };
  phase = running j;
  events = taken j ∷ [];
}

-- From the top of the loop, with the mutex, to its release.
pub worker_turn : Pool → Turn
unfolding worker_cleanup take_job
worker_turn p =
    if p.destroy
    then record { pool = worker_cleanup p; phase = ended; events = [] }
    else take_job p (get_job p.queue)

pub record System : Type 0 where
  pub pool : Pool
  pub phases : ℕ → Phase

abbrev pub update : (ℕ → Phase) → ℕ → Phase → ℕ → Phase
update ph i p k = if k == i then p else ph k

abbrev pub is_alive : Phase → Bool
is_alive starting = false
is_alive waiting = true
is_alive ended = false
is_alive (running j) = true

abbrev pub after : System → ℕ → Turn → System
after s i t = record { pool = t.pool; phases = update s.phases i t.phase }

-- `pool_create`; its threads are starting.
abbrev pub pool_create : System
pool_create = record {
  pool = record {
    queue = record { jobs = []; jobq_tail = none };
    destroy = false;
    nb_alive_threads = 0;
  };
  phases = λ i. starting;
}

-- `wake` stands for a broadcast and for a spurious return. `cancel` is what a cancelled thread does in
-- `pthread_cond_wait` or in its job, and `restart` the `pthread_create` of `pool_kill`. `malloc` gives
-- `queue` an address that no job of the queue has; a `pool_queue` that writes to a freed job has no step,
-- so that a run goes as far as the first of them. `release` is the end of `pool_destroy`, which waits for
-- the count to be 0 and frees the jobs that are left.
pub data Step (n : ℕ) (s : System) : List Event → System → Type 0 where
  enter :
      (i : ℕ)
      → i < n
      → s.phases i ≡ starting
      → Step n s
          (worker_turn (enter_pool s.pool)).events
          (after s i (worker_turn (enter_pool s.pool)))
  wake :
      (i : ℕ)
      → i < n
      → s.phases i ≡ waiting
      → Step n s (worker_turn s.pool).events (after s i (worker_turn s.pool))
  finish :
      (i : ℕ) (j : Job)
      → i < n
      → s.phases i ≡ running j
      → Step n s (worker_turn s.pool).events (after s i (worker_turn s.pool))
  cancel :
      (i : ℕ)
      → i < n
      → is_alive (s.phases i) ≡ true
      → Step n s []
          (after s i (record { pool = worker_cleanup s.pool; phase = ended; events = [] }))
  restart :
      (i : ℕ)
      → i < n
      → s.phases i ≡ ended
      → Step n s [] (after s i (record { pool = s.pool; phase = starting; events = [] }))
  queue :
      (job : Job) (q : JobQueue)
      → at_addr job.addr s.pool.queue.jobs ≡ false
      → pool_queue s.pool.queue job ≡ some q
      → Step n s (queued job ∷ []) (record s { pool = record s.pool { queue = q } })
  flush :
      (arg : ℕ)
      → Step n s
          (flushed arg ∷ [])
          (record s { pool = record s.pool { queue = pool_flush_by_arg s.pool.queue arg } })
  destroy : Step n s [] (record s { pool = record s.pool { destroy = true } })
  release :
      s.pool.destroy ≡ true
      → s.pool.nb_alive_threads ≡ 0
      → Step n s
          (released ∷ [])
          (record s { pool = record s.pool { queue = record s.pool.queue { jobs = [] } } })

-- The states of a pool of `n` threads, with what happened to the queue.
pub data Reach (n : ℕ) : List Event → System → Type 0 where
  created : Reach n [] pool_create
  later : {es fs : List Event} {s t : System} → Reach n es s → Step n s fs t → Reach n (es ++ fs) t
