-- ===== src/ThreadPool/Flush.antt =====
-- `pool_flush_by_arg`: which jobs stay, and what becomes of the tail.
use pire2pire.Base.{
  ℕ, ◌≡◌, ◌≢◌, refl, Bool, true, false, ◌&&◌, inl, inr, Option, none, some, List, [], ◌∷◌, ◌==◌,
  if◌then◌else◌, arith, keep, Bool-cases,
}
use pire2pire.ThreadPool.{
  Job, JobQueue, link_after, link_at_tail, queue_onto, pool_queue, flush_loop, advance,
  pool_flush_by_arg,
}
use pire2pire.ThreadPool.Queue.{IsValid, TailIsLast, Distinct, at_addr, last_addr, at_addr-last}

abbrev pub has_arg : ℕ → Job → Bool
has_arg arg j = j.arg == arg

abbrev pub other_arg : ℕ → Job → Bool
other_arg arg j = if j.arg == arg then false else true

-- Whether the last two jobs both have the argument.
unfoldable pub ends_in_run : ℕ → List Job → Bool
ends_in_run arg [] = false
ends_in_run arg (j ∷ []) = false
ends_in_run arg (j ∷ k ∷ []) = has_arg arg j && has_arg arg k
ends_in_run arg (j ∷ k ∷ l ∷ js) = ends_in_run arg (k ∷ l ∷ js)

pub flush_loop-keep :
    (arg : ℕ) (js : List Job) (tail : Option ℕ)
    → (flush_loop arg js tail).0 ≡ keep (other_arg arg) js
unfolding flush_loop
flush_loop-keep arg [] tail = refl
flush_loop-keep arg (j ∷ js) tail =
    ground (arith, flush_loop-keep arg js (if j.arg == arg then advance js tail else some j.addr))

-- The jobs with the argument go, the others stay in order.
pub flush-keep :
    (q : JobQueue) (arg : ℕ) → (pool_flush_by_arg q arg).jobs ≡ keep (other_arg arg) q.jobs
unfolding pool_flush_by_arg
flush-keep q arg = flush_loop-keep arg q.jobs q.jobq_tail

at_addr-keep :
    (a arg : ℕ) (js : List Job) → at_addr a js ≡ false → at_addr a (keep (other_arg arg) js) ≡ false
at_addr-keep a arg [] h = refl
at_addr-keep a arg (j ∷ js) h = ground (arith, at_addr-keep a arg js)

pub Distinct-keep : (arg : ℕ) (js : List Job) → Distinct js → Distinct (keep (other_arg arg) js)
Distinct-keep arg [] d = tt
Distinct-keep arg (j ∷ js) d = elim (Bool-cases (j.arg == arg)) [
  | inl e ↦ rw e (Distinct-keep arg js d.1)
  | inr e ↦ rw e (at_addr-keep j.addr arg js d.0, Distinct-keep arg js d.1)
]

-- The second value of the loop.
pub final_tail : ℕ → List Job → Option ℕ → Option ℕ
final_tail arg [] tail = tail
final_tail arg (j ∷ js) tail =
    final_tail arg js (if j.arg == arg then advance js tail else some j.addr)

pub flush_loop-final_tail :
    (arg : ℕ) (js : List Job) (tail : Option ℕ)
    → (flush_loop arg js tail).1 ≡ final_tail arg js tail
unfolding flush_loop final_tail
flush_loop-final_tail arg [] tail = refl
flush_loop-final_tail arg (j ∷ js) tail =
    ground
      (arith, flush_loop-final_tail arg js (if j.arg == arg then advance js tail else some j.addr))

TailIsLast-cons :
    (j : Job) (xs : List Job) (tail : Option ℕ)
    → TailIsLast xs tail
    → (xs ≡ [] → tail ≡ some j.addr)
    → TailIsLast (j ∷ xs) tail
TailIsLast-cons j [] tail t h = h refl
TailIsLast-cons j (x ∷ xs) tail t h = t

ends_in_run-tail :
    (arg : ℕ) (j k : Job) (js : List Job)
    → ends_in_run arg (j ∷ k ∷ js) ≡ false
    → ends_in_run arg (k ∷ js) ≡ false
unfolding ends_in_run
ends_in_run-tail arg j k [] h = refl
ends_in_run-tail arg j k (l ∷ js) h = h

-- If no job stays and the last two are not a run, there was one job.
single-of_empty :
    (arg : ℕ) (k : Job) (js : List Job)
    → ends_in_run arg (k ∷ js) ≡ false
    → keep (other_arg arg) (k ∷ js) ≡ []
    → (js ≡ []) × ((k.arg == arg) ≡ true)
unfolding ends_in_run
single-of_empty arg k [] h e = (refl, ground arith)
single-of_empty arg k (l ∷ []) h e = absurd (ground arith)
single-of_empty arg k (l ∷ m ∷ js) h e =
    absurd (ground (arith, single-of_empty arg l (m ∷ js) h (ground arith)))

final_tail-one :
    (arg a : ℕ) (k : Job) (js : List Job)
    → js ≡ []
    → (k.arg == arg) ≡ true
    → final_tail arg (k ∷ js) (some a) ≡ some a
unfolding final_tail advance
final_tail-one arg a k js e m = rw (e, m)

-- The new tail, where the last two jobs are not a run.
final_tail-TailIsLast :
    (arg : ℕ) (j : Job) (js : List Job) (tail : Option ℕ)
    → ends_in_run arg (j ∷ js) ≡ false
    → TailIsLast (keep (other_arg arg) (j ∷ js)) (final_tail arg (j ∷ js) tail)
unfolding final_tail advance
final_tail-TailIsLast arg j [] tail h = elim (Bool-cases (j.arg == arg)) [
  | inl e ↦ rw e tt
  | inr e ↦ rw e refl
]
final_tail-TailIsLast arg j (k ∷ js) tail h =
    let h' = ends_in_run-tail arg j k js h in
    elim (Bool-cases (j.arg == arg)) [
      | inl e ↦ rw e (final_tail-TailIsLast arg k js (some k.addr) h')
      | inr e ↦ rw e (
          TailIsLast-cons j (keep (other_arg arg) (k ∷ js)) _
            (final_tail-TailIsLast arg k js (some j.addr) h')
            λ empty.
              let (one, m) = single-of_empty arg k js h' empty in
              final_tail-one arg j.addr k js one m)
    ]

pub loop-TailIsLast :
    (arg : ℕ) (js : List Job) (tail : Option ℕ)
    → ends_in_run arg js ≡ false
    → TailIsLast (keep (other_arg arg) js) (final_tail arg js tail)
loop-TailIsLast arg [] tail h = tt
loop-TailIsLast arg (j ∷ js) tail h = final_tail-TailIsLast arg j js tail h

-- Where the last two jobs of a valid queue do not both have the argument, the queue is valid after
-- the flush.
pub flush-IsValid :
    (q : JobQueue) (arg : ℕ)
    → IsValid q
    → ends_in_run arg q.jobs ≡ false
    → IsValid (pool_flush_by_arg q arg)
unfolding pool_flush_by_arg
flush-IsValid q arg v h = record {
  distinct = rw (flush_loop-keep arg q.jobs q.jobq_tail) (Distinct-keep arg q.jobs v.distinct);
  tail =
      rw (flush_loop-keep arg q.jobs q.jobq_tail, flush_loop-final_tail arg q.jobs q.jobq_tail)
        (loop-TailIsLast arg q.jobs q.jobq_tail h);
}

-- Where they do, the tail is left at the last job, which is freed.
pub final_tail-run :
    (arg : ℕ) (j k : Job) (js : List Job) (tail : Option ℕ)
    → ends_in_run arg (j ∷ k ∷ js) ≡ true
    → final_tail arg (j ∷ k ∷ js) tail ≡ some (last_addr k.addr js)
unfolding final_tail advance ends_in_run
final_tail-run arg j k [] tail h = ground arith
final_tail-run arg j k (l ∷ js) tail h =
    final_tail-run arg k l js (if j.arg == arg then some k.addr else some j.addr) h

pub last-flushed :
    (arg : ℕ) (j k : Job) (js : List Job)
    → ends_in_run arg (j ∷ k ∷ js) ≡ true
    → Distinct (j ∷ k ∷ js)
    → at_addr (last_addr k.addr js) (keep (other_arg arg) (j ∷ k ∷ js)) ≡ false
unfolding ends_in_run
last-flushed arg j k [] h d = ground arith
last-flushed arg j k (l ∷ js) h d = ground (arith, last-flushed arg k l js h d.1, at_addr-last l js)

link_after-absent :
    (a : ℕ) (job : Job) (js : List Job) → at_addr a js ≡ false → link_after a job js ≡ none
unfolding link_after
link_after-absent a job [] h = refl
link_after-absent a job (j ∷ js) h = ground (arith, link_after-absent a job js)

pub queue_onto-absent :
    (a : ℕ) (job : Job) (js : List Job)
    → js ≢ []
    → at_addr a js ≡ false
    → queue_onto js (some a) job ≡ none
unfolding queue_onto link_at_tail
queue_onto-absent a job [] ne h = absurd (ne refl)
queue_onto-absent a job (j ∷ js) ne h = link_after-absent a job (j ∷ js) h

flush_loop-faults :
    (arg : ℕ) (js : List Job) (tail : Option ℕ) (job : Job)
    → Distinct js
    → ends_in_run arg js ≡ true
    → keep (other_arg arg) js ≢ []
    → queue_onto (keep (other_arg arg) js) (final_tail arg js tail) job ≡ none
flush_loop-faults arg [] tail job d h ne = absurd (ne refl)
flush_loop-faults arg (j ∷ []) tail job d h ne = absurd (unfold ends_in_run in (ground arith))
flush_loop-faults arg (j ∷ k ∷ js) tail job d h ne =
    rw (final_tail-run arg j k js tail h)
      (queue_onto-absent _ job (keep (other_arg arg) (j ∷ k ∷ js)) ne (last-flushed arg j k js h d))

-- The defect: where the last two jobs of a valid queue both have the argument and some job stays,
-- the tail still points to the last job, which the flush has freed, and the next `pool_queue`
-- writes to it.
pub flush-queue-faults :
    (q : JobQueue) (arg : ℕ) (job : Job)
    → IsValid q
    → ends_in_run arg q.jobs ≡ true
    → keep (other_arg arg) q.jobs ≢ []
    → pool_queue (pool_flush_by_arg q arg) job ≡ none
unfolding pool_queue pool_flush_by_arg
flush-queue-faults q arg job v h ne = rw (
  flush_loop-keep arg q.jobs q.jobq_tail,
  flush_loop-final_tail arg q.jobs q.jobq_tail,
  flush_loop-faults arg q.jobs q.jobq_tail job v.distinct h ne,
  pool_queue,
)
