-- ===== src/ThreadPool/Examples.antt =====
-- The queue of jobs with two jobs in it.
use pire2pire.Base.{◌≡◌, ◌≢◌, refl, none, some, [], ◌∷◌, keep, arith}
use pire2pire.ThreadPool.{Job, JobQueue, pool_queue, pool_flush_by_arg}
use pire2pire.ThreadPool.Queue.{IsValid}
use pire2pire.ThreadPool.Flush.{other_arg, ends_in_run, flush-queue-faults}

abbrev first_job : Job
first_job = record { addr = 1; func = 10; arg = 7 }

abbrev second_job : Job
second_job = record { addr = 2; func = 10; arg = 8 }

abbrev third_job : Job
third_job = record { addr = 3; func = 10; arg = 8 }

abbrev three_jobs : JobQueue
three_jobs = record { jobs = first_job ∷ second_job ∷ third_job ∷ []; jobq_tail = some 3 }

three_jobs-IsValid : IsValid three_jobs
three_jobs-IsValid = record { distinct = (refl, (refl, (refl, tt))); tail = refl }

flush-queue-faults_example : pool_queue (pool_flush_by_arg three_jobs 8) first_job ≡ none
unfolding ends_in_run
flush-queue-faults_example = flush-queue-faults three_jobs 8 first_job three_jobs-IsValid refl stays
  where
    stays : keep (other_arg 8) three_jobs.jobs ≢ []
    stays e = ground arith
