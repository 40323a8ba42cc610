-- ===== src/ThreadPool/Queue.antt =====
-- The queue as a list: jobs come in at the end and leave at the front.

use pire2pire.Base.{
  ℕ, ◌≡◌, refl, sym, ap, Bool, true, false, ◌||◌, ◌⊎◌, inl, inr, Option, none, some, List, [], ◌∷◌,
  ◌++◌, ◌==◌, arith, eqb_refl,
}
use pire2pire.ThreadPool.{
  Job, JobQueue, link_after, link_at_tail, queue_onto, pool_queue, take_from, forget_tail, get_job,
}

-- Whether some job stands at the address.
abbrev pub at_addr : ℕ → List Job → Bool
at_addr a [] = false
at_addr a (j ∷ js) = (j.addr == a) || at_addr a js

-- No two jobs stand at one address.
abbrev pub Distinct : List Job → Type 0
Distinct [] = Unit
Distinct (j ∷ js) = (at_addr j.addr js ≡ false) × Distinct js

abbrev pub last_addr : ℕ → List Job → ℕ
last_addr a [] = a
last_addr a (j ∷ js) = last_addr j.addr js

-- The tail is the address of the last job.
abbrev pub TailIsLast : List Job → Option ℕ → Type 0
TailIsLast [] tail = Unit
TailIsLast (j ∷ js) tail = tail ≡ some (last_addr j.addr js)

pub record IsValid (q : JobQueue) : Type 0 where
  pub distinct : Distinct q.jobs
  pub tail : TailIsLast q.jobs q.jobq_tail

pub at_addr-last : (j : Job) (js : List Job) → at_addr (last_addr j.addr js) (j ∷ js) ≡ true
at_addr-last j [] = ground (arith, eqb_refl j.addr)
at_addr-last j (k ∷ js) = ground (arith, at_addr-last k js)

link_after-last :
    (j job : Job) (js : List Job)
    → Distinct (j ∷ js)
    → link_after (last_addr j.addr js) job (j ∷ js) ≡ some ((j ∷ js) ++ job ∷ [])
unfolding link_after
link_after-last j job [] d = ground (arith, eqb_refl j.addr)
link_after-last j job (k ∷ js) d = ground (arith, link_after-last k job js d.1, at_addr-last k js)

at_addr-append : (a : ℕ) (js ks : List Job) → at_addr a (js ++ ks) ≡ (at_addr a js || at_addr a ks)
at_addr-append a [] ks = refl
at_addr-append a (j ∷ js) ks = ground (arith, at_addr-append a js ks)

pub Distinct-snoc :
    (js : List Job) (job : Job)
    → Distinct js
    → at_addr job.addr js ≡ false
    → Distinct (js ++ job ∷ [])
Distinct-snoc [] job d n = (refl, tt)
Distinct-snoc (j ∷ js) job d n =
    (ground (arith, at_addr-append j.addr js (job ∷ [])), Distinct-snoc js job d.1 (ground arith))

last_addr-snoc : (a : ℕ) (js : List Job) (job : Job) → last_addr a (js ++ job ∷ []) ≡ job.addr
last_addr-snoc a [] job = refl
last_addr-snoc a (j ∷ js) job = last_addr-snoc j.addr js job

pub TailIsLast-snoc : (js : List Job) (job : Job) → TailIsLast (js ++ job ∷ []) (some job.addr)
TailIsLast-snoc [] job = refl
TailIsLast-snoc (j ∷ js) job = ap some (sym (last_addr-snoc j.addr js job))

pub queue_onto-snoc :
    (js : List Job) (tail : Option ℕ) (job : Job)
    → Distinct js
    → TailIsLast js tail
    → queue_onto js tail job ≡ some (js ++ job ∷ [])
unfolding queue_onto link_at_tail
queue_onto-snoc [] tail job d t = refl
queue_onto-snoc (j ∷ js) tail job d t = rw t (link_after-last j job js d)

-- A job at a fresh address is put behind all others of a valid queue; the queue stays valid.
pub queue-snoc :
    (q : JobQueue) (job : Job)
    → IsValid q
    → at_addr job.addr q.jobs ≡ false
    → (q' : JobQueue) × (pool_queue q job ≡ some q') × (q'.jobs ≡ q.jobs ++ job ∷ []) × IsValid q'
unfolding pool_queue
queue-snoc q job v fresh = (
  record { jobs = q.jobs ++ job ∷ []; jobq_tail = some job.addr },
  rw (pool_queue, queue_onto-snoc q.jobs q.jobq_tail job v.distinct v.tail),
  refl,
  record {
    distinct = Distinct-snoc q.jobs job v.distinct fresh;
    tail = TailIsLast-snoc q.jobs job;
  },
)

-- The outcome of a worker's turn: no job, or the first one.
abbrev pub Takes : List Job → Option (Job × JobQueue) → Type 0
Takes js r =
    ((js ≡ []) × (r ≡ none))
    ⊎ ((j : Job) × (q' : JobQueue) × (r ≡ some (j, q')) × (js ≡ j ∷ q'.jobs) × IsValid q')

pub take_from-Takes :
    (js : List Job) (tail : Option ℕ)
    → Distinct js
    → TailIsLast js tail
    → Takes js (take_from js tail)
unfolding take_from forget_tail
take_from-Takes [] tail d t = inl (refl, refl)
take_from-Takes (j ∷ []) tail d t = inr (
  j,
  record { jobs = []; jobq_tail = forget_tail j.addr tail },
  refl,
  refl,
  record { distinct = tt; tail = tt },
)
take_from-Takes (j ∷ k ∷ js) tail d t = inr (
  j,
  record { jobs = k ∷ js; jobq_tail = forget_tail j.addr tail },
  refl,
  refl,
  record { distinct = d.1; tail = rw (t) (ground (arith, at_addr-last k js)) },
)

-- From a valid queue a worker gets the oldest job and leaves a valid queue with the others, or
-- gets none if the queue is empty.
pub get_job-Takes : (q : JobQueue) → IsValid q → Takes q.jobs (get_job q)
unfolding get_job
get_job-Takes q v = take_from-Takes q.jobs q.jobq_tail v.distinct v.tail
