-- ===== src/ThreadPool/Workers/Tail.antt =====
-- What every operation keeps of the queue, the flush included: the tail is the last job, or the address
-- of none.
use pire2pire.Base.{
  ℕ, ◌≡◌, refl, sym, subst, ap, false, ◌⊎◌, inl, inr, Bool-cases, Option, none, some, List, [], ◌∷◌,
  ◌++◌, arith, keep,
}
use pire2pire.ThreadPool.{
  Job, JobQueue, queue_onto, pool_queue, take_from, forget_tail, get_job, pool_flush_by_arg,
}
use pire2pire.ThreadPool.Queue.{
  at_addr, Distinct, TailIsLast, last_addr, at_addr-last, queue_onto-snoc, Distinct-snoc,
  TailIsLast-snoc,
}
use pire2pire.ThreadPool.Flush.{
  other_arg, ends_in_run, final_tail, flush_loop-keep, flush_loop-final_tail, loop-TailIsLast,
  final_tail-run, last-flushed, queue_onto-absent, Distinct-keep,
}

abbrev pub Dangles : List Job → Option ℕ → Type 0
Dangles js tail = (a : ℕ) × (tail ≡ some a) × (at_addr a js ≡ false)

abbrev pub TailFits : List Job → Option ℕ → Type 0
TailFits js tail = TailIsLast js tail ⊎ Dangles js tail

pub record Fits (q : JobQueue) : Type 0 where
  pub distinct : Distinct q.jobs
  pub tail : TailFits q.jobs q.jobq_tail

-- A job that is put into the queue is the last one.
queue_onto-fits :
    (js js' : List Job) (tail : Option ℕ) (job : Job)
    → Distinct js
    → TailFits js tail
    → queue_onto js tail job ≡ some js'
    → js' ≡ js ++ job ∷ []
unfolding queue_onto
queue_onto-fits [] js' tail job d t e = ground (arith, e)
queue_onto-fits (j ∷ js) js' tail job d t e = elim t [
  | inl l ↦ ground (arith, e, queue_onto-snoc (j ∷ js) tail job d l)
  | inr (a, s, n) ↦
      absurd (ground (arith, e, s, queue_onto-absent a job (j ∷ js) (λ p. ground (arith, p)) n))
]

pool_queue-some :
    (q q' : JobQueue) (job : Job)
    → pool_queue q job ≡ some q'
    → (queue_onto q.jobs q.jobq_tail job ≡ some q'.jobs) × (q'.jobq_tail ≡ some job.addr)
unfolding pool_queue
pool_queue-some q q' job e = (ground (arith, e), ground (arith, e))

pub queue-Fits :
    (q q' : JobQueue) (job : Job)
    → Fits q
    → at_addr job.addr q.jobs ≡ false
    → pool_queue q job ≡ some q'
    → (q'.jobs ≡ q.jobs ++ job ∷ []) × Fits q'
queue-Fits q q' job f n e =
    let (o, t) = pool_queue-some q q' job e in
    let jobs = queue_onto-fits q.jobs q'.jobs q.jobq_tail job f.distinct f.tail o in
    (
      jobs,
      record {
        distinct = subst Distinct (sym jobs) (Distinct-snoc q.jobs job f.distinct n);
        tail = inl (rw (jobs, t) (TailIsLast-snoc q.jobs job));
      },
    )

flush_tail :
    (arg : ℕ) (js : List Job) (tail : Option ℕ)
    → Distinct js
    → TailFits (keep (other_arg arg) js) (final_tail arg js tail)
unfolding ends_in_run
flush_tail arg [] tail d = inl (loop-TailIsLast arg [] tail refl)
flush_tail arg (j ∷ []) tail d = inl (loop-TailIsLast arg (j ∷ []) tail refl)
flush_tail arg (j ∷ k ∷ js) tail d = elim (Bool-cases (ends_in_run arg (j ∷ k ∷ js))) [
  | inl e ↦ inr (last_addr k.addr js, final_tail-run arg j k js tail e, last-flushed arg j k js e d)
  | inr e ↦ inl (loop-TailIsLast arg (j ∷ k ∷ js) tail e)
]

pub flush-Fits :
    (q : JobQueue) (arg : ℕ)
    → Fits q
    → ((pool_flush_by_arg q arg).jobs ≡ keep (other_arg arg) q.jobs)
      × Fits (pool_flush_by_arg q arg)
unfolding pool_flush_by_arg
flush-Fits q arg f = (
  flush_loop-keep arg q.jobs q.jobq_tail,
  record {
    distinct = rw (flush_loop-keep arg q.jobs q.jobq_tail) (Distinct-keep arg q.jobs f.distinct);
    tail =
        rw (flush_loop-keep arg q.jobs q.jobq_tail, flush_loop-final_tail arg q.jobs q.jobq_tail)
          (flush_tail arg q.jobs q.jobq_tail f.distinct);
  },
)

tail_after :
    (j : Job) (js : List Job) (tail : Option ℕ)
    → Distinct (j ∷ js)
    → TailFits (j ∷ js) tail
    → TailFits js (forget_tail j.addr tail)
unfolding forget_tail
tail_after j [] tail d t = inl tt
tail_after j (k ∷ js) tail d t = elim t [
  | inl l ↦ inl (rw l (ground (arith, at_addr-last k js, d.0)))
  | inr (a, s, n) ↦ inr (a, rw s (ground (arith, n)), ground (arith, n))
]

take_from-Fits :
    (js : List Job) (tail : Option ℕ) (j : Job) (q : JobQueue)
    → Distinct js
    → TailFits js tail
    → take_from js tail ≡ some (j, q)
    → (js ≡ j ∷ q.jobs) × Fits q
unfolding take_from
take_from-Fits [] tail j q d t e = absurd (ground (arith, e))
take_from-Fits (k ∷ js) tail j q d t e =
    subst (λ x. (k ∷ js ≡ x.0 ∷ x.1.jobs) × Fits x.1) taken
      (refl, record { distinct = d.1; tail = tail_after k js tail d t })
  where
    front : Job × JobQueue
    front = (k, record { jobs = js; jobq_tail = forget_tail k.addr tail })

    taken : front ≡ (j, q)
    taken = ap (λ o. elim o [ none ↦ front | some x ↦ x ]) e

pub get_job-Fits :
    (q q' : JobQueue) (j : Job)
    → Fits q
    → get_job q ≡ some (j, q')
    → (q.jobs ≡ j ∷ q'.jobs) × Fits q'
unfolding get_job
get_job-Fits q q' j f e = take_from-Fits q.jobs q.jobq_tail j q' f.distinct f.tail e
