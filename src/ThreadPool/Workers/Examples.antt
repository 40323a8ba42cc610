-- ===== src/ThreadPool/Workers/Examples.antt =====
-- A pool of one thread.
use pire2pire.Base.{◌⊎◌, ◌≡◌, refl, true, false, none, some, List, [], ◌∷◌, arith}
use pire2pire.ThreadPool.{Job, pool_queue, queue_onto, get_job, take_from, forget_tail}
use pire2pire.ThreadPool.Workers.{
  starting, running, ended, Event, queued, taken, worker_turn, take_job, enter_pool, System,
  is_alive, pool_create, update, enter, queue, destroy, Reach, created, later,
}
use pire2pire.ThreadPool.Workers.Tail.{Dangles}
use pire2pire.ThreadPool.Workers.Fifo.{Replay, pool_refines}
use pire2pire.ThreadPool.Workers.Invariant.{alive, nb_alive_threads-alive, pool_destroy-quiet}

abbrev work : Job
work = record { addr = 8; func = 1; arg = 2 }

abbrev one_queued : System
one_queued = record {
  pool = record {
    queue = record { jobs = work ∷ []; jobq_tail = some 8 };
    destroy = false;
    nb_alive_threads = 0;
  };
  phases = λ i. starting;
}

abbrev at_work : System
at_work = record {
  pool = record {
    queue = record { jobs = []; jobq_tail = none };
    destroy = false;
    nb_alive_threads = 1;
  };
  phases = update (λ i. starting) 0 (running work);
}

abbrev what_happened : List Event
what_happened = queued work ∷ taken work ∷ []

at_work-Reach : Reach 1 what_happened at_work
unfolding worker_turn enter_pool take_job get_job take_from forget_tail pool_queue queue_onto
at_work-Reach =
    later (later created (queue work (record { jobs = work ∷ []; jobq_tail = some 8 }) refl refl))
      (enter 0 (omega arith) refl)

pool_refines_example :
    Replay [] what_happened []
    × ((pool_queue at_work.pool.queue work ≡ some (record { jobs = work ∷ []; jobq_tail = some 8 }))
        ⊎ Dangles [] none)
pool_refines_example = pool_refines 1 what_happened at_work work at_work-Reach

nb_alive_threads-alive_example : 1 ≡ alive 1 at_work.phases
nb_alive_threads-alive_example = nb_alive_threads-alive 1 what_happened at_work at_work-Reach

abbrev stopping : System
stopping = record pool_create { pool = record pool_create.pool { destroy = true } }

pool_destroy-quiet_example :
    (is_alive (stopping.phases 0) ≡ false)
    × (worker_turn (enter_pool stopping.pool)
        ≡ record { pool = stopping.pool; phase = ended; events = [] })
pool_destroy-quiet_example =
    pool_destroy-quiet 1 [] stopping 0 (later created destroy) refl refl (omega arith)
