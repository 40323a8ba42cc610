-- ===== src/ThreadPool/Workers/Invariant.antt =====
-- `nb_alive_threads` counts the workers that are between `worker_thread`'s first lock and its clean-up.
use pire2pire.Base.{
  ℕ, zero, suc, ◌+◌, ◌-◌, ◌≤◌, ◌<◌, ◌≡◌, refl, sym, subst, ◌∙◌, ap, true, false, inl, inr,
  Bool-cases, Option, none, some, List, [], ◌==◌, if◌then◌else◌, arith,
}
use pire2pire.ThreadPool.{Job, JobQueue, get_job}
use pire2pire.ThreadPool.Workers.{
  Phase, starting, ended, Pool, Event, Turn, worker_cleanup, enter_pool, take_job, worker_turn,
  System, update, is_alive, after, Step, Reach, created, later, enter, wake, finish, cancel,
  restart, queue, flush, destroy, release,
}

abbrev pub bit : Phase → ℕ
bit p = if is_alive p then 1 else 0

-- The workers below `n` that are alive.
pub alive : ℕ → (ℕ → Phase) → ℕ
alive zero ph = 0
alive (suc n) ph = alive n ph + bit (ph n)

alive-update_out :
    (n : ℕ) (ph : ℕ → Phase) (i : ℕ) (p : Phase) → n ≤ i → alive n (update ph i p) ≡ alive n ph
unfolding alive
alive-update_out zero ph i p h = refl
alive-update_out (suc n) ph i p h = ground (arith, alive-update_out n ph i p (omega arith))

alive-update :
    (n : ℕ) (ph : ℕ → Phase) (i : ℕ) (p : Phase)
    → i < n
    → alive n (update ph i p) + bit (ph i) ≡ alive n ph + bit p
unfolding alive
alive-update zero ph i p h = absurd (omega arith)
alive-update (suc n) ph i p h = elim (Bool-cases (n == i)) [
  | inl e ↦ ground (arith, e, alive-update_out n ph i p (ground arith))
  | inr e ↦ ground (arith, e, alive-update n ph i p (ground arith))
]

bit_le : (n : ℕ) (ph : ℕ → Phase) (i : ℕ) → i < n → bit (ph i) ≤ alive n ph
unfolding alive
bit_le zero ph i h = absurd (omega arith)
bit_le (suc n) ph i h = elim (Bool-cases (n == i)) [
  | inl e ↦ ground (arith, e)
  | inr e ↦ ground (arith, e, bit_le n ph i (ground arith))
]

abbrev pub Counts : ℕ → System → Type 0
Counts n s = s.pool.nb_alive_threads ≡ alive n s.phases

take_job-alive :
    (p : Pool) (o : Option (Job × JobQueue))
    → ((take_job p o).pool.nb_alive_threads ≡ p.nb_alive_threads) × (bit (take_job p o).phase ≡ 1)
unfolding take_job
take_job-alive p none = (refl, refl)
take_job-alive p (some (j, q)) = (refl, refl)

abbrev pub left : Pool → Turn
left p = record { pool = worker_cleanup p; phase = ended; events = [] }

pub worker_turn-left : (p : Pool) → p.destroy ≡ true → worker_turn p ≡ left p
unfolding worker_turn
worker_turn-left p e = ap (λ b. if b then left p else take_job p (get_job p.queue)) e

pub worker_turn-take_job :
    (p : Pool) → p.destroy ≡ false → worker_turn p ≡ take_job p (get_job p.queue)
unfolding worker_turn
worker_turn-take_job p e = ap (λ b. if b then left p else take_job p (get_job p.queue)) e

-- A worker that is counted before its turn is counted after it, or is gone.
abbrev Keeps : Pool → Turn → Type 0
Keeps p t = t.pool.nb_alive_threads + 1 ≡ p.nb_alive_threads + bit t.phase

worker_turn-alive : (p : Pool) → 0 < p.nb_alive_threads → Keeps p (worker_turn p)
unfolding worker_cleanup
worker_turn-alive p h = elim (Bool-cases p.destroy) [
  | inl e ↦ subst (Keeps p) (sym (worker_turn-left p e)) (omega arith)
  | inr e ↦
      subst (Keeps p) (sym (worker_turn-take_job p e))
        (let (a, b) = take_job-alive p (get_job p.queue) in omega (arith, a, b))
]

alive_turn :
    (n : ℕ) (s : System) (i : ℕ) (t : Turn)
    → i < n
    → t.pool.nb_alive_threads + bit (s.phases i) ≡ alive n s.phases + bit t.phase
    → Counts n (after s i t)
alive_turn n s i t h e = omega (arith, e, alive-update n s.phases i t.phase h)

alive_again :
    (n : ℕ) (s : System) (i : ℕ)
    → i < n
    → Counts n s
    → bit (s.phases i) ≡ 1
    → Counts n (after s i (worker_turn s.pool))
alive_again n s i h c e =
    let le = bit_le n s.phases i h in
    alive_turn n s i (worker_turn s.pool) h
      (omega (arith, c, e, worker_turn-alive s.pool (omega (arith, c, le, e))))

Step-Counts : {n : ℕ} {s t : System} {es : List Event} → Counts n s → Step n s es t → Counts n t
Step-Counts {n} {s} c (enter i h e) = alive_turn n s i (worker_turn (enter_pool s.pool)) h (
    unfold enter_pool in
    (omega (arith, c, worker_turn-alive (enter_pool s.pool) (omega arith), ap bit e)))
Step-Counts {n} {s} c (wake i h e) = alive_again n s i h c (ap bit e)
Step-Counts {n} {s} c (finish i j h e) = alive_again n s i h c (ap bit e)
Step-Counts {n} {s} c (cancel i h e) = alive_turn n s i (left s.pool) h (
    unfold worker_cleanup in
    (omega (arith, c, bit_le n s.phases i h, ap {B = ℕ} (λ b. if b then 1 else 0) e)))
Step-Counts {n} {s} c (restart i h e) =
    alive_turn n s i (record { pool = s.pool; phase = starting; events = [] }) h
      (omega (arith, c, ap bit e))
Step-Counts c (queue job q m e) = c
Step-Counts c (flush arg) = c
Step-Counts c destroy = c
Step-Counts c (release d z) = c

alive-starting : (n : ℕ) → alive n (λ i. starting) ≡ 0
unfolding alive
alive-starting zero = refl
alive-starting (suc n) = omega (arith, alive-starting n)

-- In every state of a pool, `nb_alive_threads` is the number of its threads that are waiting for a job
-- or running one.
pub nb_alive_threads-alive :
    (n : ℕ) (es : List Event) (s : System)
    → Reach n es s
    → s.pool.nb_alive_threads ≡ alive n s.phases
nb_alive_threads-alive n [] s created = sym (alive-starting n)
nb_alive_threads-alive n es s (later r st) = Step-Counts (nb_alive_threads-alive n _ _ r) st

not_alive : (p : Phase) → bit p ≤ 0 → is_alive p ≡ false
not_alive p h = ground arith

enter-left : (p : Pool) → left (enter_pool p) ≡ record { pool = p; phase = ended; events = [] }
unfolding enter_pool worker_cleanup
enter-left p =
    ap (λ k. record { pool = record p { nb_alive_threads = k }; phase = ended; events = [] })
      (same p.nb_alive_threads)
  where
    same : (k : ℕ) → k + 1 - 1 ≡ k
    same k = omega arith

-- When `pool_destroy` has set `destroy` and seen no thread alive, no thread waits for a job or runs
-- one; and a thread that starts only then leaves the pool at once, without a job and without
-- touching the queue, and the count is again 0.
pub pool_destroy-quiet :
    (n : ℕ) (es : List Event) (s : System) (i : ℕ)
    → Reach n es s
    → s.pool.destroy ≡ true
    → s.pool.nb_alive_threads ≡ 0
    → i < n
    → (is_alive (s.phases i) ≡ false)
      × (worker_turn (enter_pool s.pool) ≡ record { pool = s.pool; phase = ended; events = [] })
pool_destroy-quiet n es s i r d z h = (
  not_alive (s.phases i) (omega (arith, bit_le n s.phases i h, nb_alive_threads-alive n es s r, z)),
  worker_turn-left (enter_pool s.pool) (unfold enter_pool in d) ∙ enter-left s.pool,
)
