-- ===== src/Pooled/Sessions/Counts.antt =====
-- How often an address stands in a queue, among the requests taken, and in the list of requests.
use pire2pire.Base.{
  ℕ, ◌+◌, ◌≤◌, ◌≡◌, refl, Bool, true, false, ◌&&◌, none, some, List, [], ◌∷◌, ◌++◌, ◌==◌,
  if◌then◌else◌, keep, arith, Bool-cases, inl, inr,
}
use pire2pire.Pooled.Dispatch.{PoolName, fast, slow}
use pire2pire.Pooled.Sessions.{
  fault, read_next, stop_and_free, State, Request, same_pool, has_addr, find, first_of,
  drop_request, assign, has, remove_one,
}
use pire2pire.ThreadPool.{Job}
use pire2pire.ThreadPool.Flush.{other_arg, ends_in_run}

abbrev pub bit : Bool → ℕ
bit b = if b then 1 else 0

unfoldable pub jobs : ℕ → List Job → ℕ
jobs a [] = 0
jobs a (j ∷ js) = bit (j.arg == a) + jobs a js

unfoldable pub count : ℕ → List ℕ → ℕ
count a [] = 0
count a (x ∷ xs) = bit (x == a) + count a xs

unfoldable pub alive : ℕ → List Request → ℕ
alive a [] = 0
alive a (r ∷ rs) = bit (r.addr == a) + alive a rs

unfoldable pub alive_in : PoolName → ℕ → List Request → ℕ
alive_in p a [] = 0
alive_in p a (r ∷ rs) = bit ((r.addr == a) && same_pool p r.pool) + alive_in p a rs

unfoldable pub busy : PoolName → ℕ → List Request → ℕ
busy p a [] = 0
busy p a (r ∷ rs) = bit ((r.addr == a) && (same_pool p r.pool && r.assigned)) + busy p a rs

-- The requests of a peer that a worker runs.
unfoldable pub running : ℕ → List Request → ℕ
running c [] = 0
running c (r ∷ rs) = bit ((r.peer == c) && r.assigned) + running c rs

pub jobs-snoc :
    (a : ℕ) (js : List Job) (j : Job) → jobs a (js ++ j ∷ []) ≡ jobs a js + bit (j.arg == a)
unfolding jobs
jobs-snoc a [] j = omega arith
jobs-snoc a (k ∷ js) j = omega (arith, jobs-snoc a js j)

pub jobs-keep :
    (a b : ℕ) (js : List Job) → jobs a (keep (other_arg b) js) ≡ (if a == b then 0 else jobs a js)
unfolding jobs
jobs-keep a b [] = ground arith
jobs-keep a b (j ∷ js) = ground (arith, jobs-keep a b js)

-- A job that stands once in the queue is not a run at its end.
pub ends_in_run-once : (a : ℕ) (js : List Job) → jobs a js ≤ 1 → ends_in_run a js ≡ false
unfolding jobs ends_in_run
ends_in_run-once a [] h = refl
ends_in_run-once a (j ∷ []) h = refl
ends_in_run-once a (j ∷ k ∷ []) h = ground arith
ends_in_run-once a (j ∷ k ∷ l ∷ js) h = ends_in_run-once a (k ∷ l ∷ js) (ground arith)

pub count-remove_one :
    (a b : ℕ) (xs : List ℕ)
    → has b xs ≡ true
    → count a (remove_one b xs) + bit (b == a) ≡ count a xs
unfolding count has remove_one
count-remove_one a b [] h = ground arith
count-remove_one a b (x ∷ xs) h = ground (arith, count-remove_one a b xs)

pub count-has : (a : ℕ) (xs : List ℕ) → has a xs ≡ true → 1 ≤ count a xs
unfolding count has
count-has a [] h = ground arith
count-has a (x ∷ xs) h = ground (arith, count-has a xs)

pub count-not_has : (a : ℕ) (xs : List ℕ) → has a xs ≡ false → count a xs ≡ 0
unfolding count has
count-not_has a [] h = refl
count-not_has a (x ∷ xs) h = ground (arith, count-not_has a xs)

pub alive-split : (a : ℕ) (rs : List Request) → alive_in fast a rs + alive_in slow a rs ≡ alive a rs
unfolding alive alive_in
alive-split a [] = refl
alive-split a (r ∷ rs) = ground (arith, alive-split a rs)

pub alive-has_addr : (a : ℕ) (rs : List Request) → has_addr a rs ≡ false → alive a rs ≡ 0
unfolding alive has_addr
alive-has_addr a [] h = refl
alive-has_addr a (r ∷ rs) h = ground (arith, alive-has_addr a rs)

pub alive-find-none : (a : ℕ) (rs : List Request) → find a rs ≡ none → alive a rs ≡ 0
unfolding alive find
alive-find-none a [] h = refl
alive-find-none a (r ∷ rs) h = ground (arith, alive-find-none a rs)

pub busy-le-alive_in : (p : PoolName) (a : ℕ) (rs : List Request) → busy p a rs ≤ alive_in p a rs
unfolding busy alive_in
busy-le-alive_in p a [] = omega arith
busy-le-alive_in p a (r ∷ rs) = ground (arith, busy-le-alive_in p a rs)

-- Dropping a request.
pub alive-drop :
    (a b : ℕ) (rs : List Request) → alive a (drop_request b rs) ≡ (if a == b then 0 else alive a rs)
unfolding alive
alive-drop a b [] = ground arith
alive-drop a b (r ∷ rs) = ground (arith, alive-drop a b rs)

pub alive_in-drop :
    (p : PoolName) (a b : ℕ) (rs : List Request)
    → alive_in p a (drop_request b rs) ≡ (if a == b then 0 else alive_in p a rs)
unfolding alive_in
alive_in-drop p a b [] = ground arith
alive_in-drop p a b (r ∷ rs) = ground (arith, alive_in-drop p a b rs)

pub busy-drop :
    (p : PoolName) (a b : ℕ) (rs : List Request)
    → busy p a (drop_request b rs) ≡ (if a == b then 0 else busy p a rs)
unfolding busy
busy-drop p a b [] = ground arith
busy-drop p a b (r ∷ rs) = ground (arith, busy-drop p a b rs)

-- Assigning a request.
pub alive-assign : (a b : ℕ) (rs : List Request) → alive a (assign b rs) ≡ alive a rs
unfolding alive assign
alive-assign a b [] = refl
alive-assign a b (r ∷ rs) = ground (arith, alive-assign a b rs)

pub alive_in-assign :
    (p : PoolName) (a b : ℕ) (rs : List Request) → alive_in p a (assign b rs) ≡ alive_in p a rs
unfolding alive_in assign
alive_in-assign p a b [] = refl
alive_in-assign p a b (r ∷ rs) = ground (arith, alive_in-assign p a b rs)

pub busy-assign :
    (p : PoolName) (a b : ℕ) (rs : List Request)
    → busy p a (assign b rs) ≡ (if a == b then alive_in p a rs else busy p a rs)
unfolding busy alive_in assign
busy-assign p a b [] = ground arith
busy-assign p a b (r ∷ rs) = ground (arith, busy-assign p a b rs)

-- The request that a search finds.
pub find-addr : (a : ℕ) (rs : List Request) (r : Request) → find a rs ≡ some r → r.addr ≡ a
unfolding find
find-addr a [] r h = absurd (ground (arith, h))
find-addr a (x ∷ rs) r h = elim (Bool-cases (x.addr == a)) [
  | inl e ↦ ground (arith, h, e)
  | inr e ↦ find-addr a rs r (ground (arith, h, e))
]

pub find-alive_in :
    (a : ℕ) (rs : List Request) (r : Request) → find a rs ≡ some r → 1 ≤ alive_in r.pool a rs
unfolding find alive_in
find-alive_in a [] r h = absurd (ground (arith, h))
find-alive_in a (x ∷ rs) r h = elim (Bool-cases (x.addr == a)) [
  | inl e ↦ ground (arith, h, e)
  | inr e ↦ ground (arith, e, find-alive_in a rs r (ground (arith, h, e)))
]

pub find-busy :
    (a : ℕ) (rs : List Request) (r : Request)
    → find a rs ≡ some r
    → r.assigned ≡ true
    → 1 ≤ busy r.pool a rs
unfolding find busy
find-busy a [] r h k = absurd (ground (arith, h))
find-busy a (x ∷ rs) r h k = elim (Bool-cases (x.addr == a)) [
  | inl e ↦ ground (arith, h, e, k)
  | inr e ↦ ground (arith, e, find-busy a rs r (ground (arith, h, e)) k)
]

-- The first request of a peer.
pub first_of-alive_in :
    (c : ℕ) (rs : List Request) (r : Request)
    → first_of c rs ≡ some r
    → 1 ≤ alive_in r.pool r.addr rs
unfolding first_of alive_in
first_of-alive_in c [] r h = absurd (ground (arith, h))
first_of-alive_in c (x ∷ rs) r h = elim (Bool-cases (x.peer == c)) [
  | inl e ↦ ground (arith, h, e)
  | inr e ↦ ground (arith, e, first_of-alive_in c rs r (ground (arith, h, e)))
]

pub first_of-busy :
    (c : ℕ) (rs : List Request) (r : Request)
    → first_of c rs ≡ some r
    → r.assigned ≡ true
    → 1 ≤ busy r.pool r.addr rs
unfolding first_of busy
first_of-busy c [] r h k = absurd (ground (arith, h))
first_of-busy c (x ∷ rs) r h k = elim (Bool-cases (x.peer == c)) [
  | inl e ↦ ground (arith, h, e, k)
  | inr e ↦ ground (arith, e, first_of-busy c rs r (ground (arith, h, e)) k)
]

pub alive_in-other :
    (x p : PoolName) (a : ℕ) (rs : List Request)
    → same_pool x p ≡ false
    → alive_in x a rs + alive_in p a rs ≡ alive a rs
alive_in-other fast fast a rs h = absurd (ground (arith, h))
alive_in-other fast slow a rs h = alive-split a rs
alive_in-other slow fast a rs h = omega (arith, alive-split a rs)
alive_in-other slow slow a rs h = absurd (ground (arith, h))

pub alive_in-le : (p : PoolName) (a : ℕ) (rs : List Request) → alive_in p a rs ≤ alive a rs
alive_in-le fast a rs = omega (arith, alive-split a rs)
alive_in-le slow a rs = omega (arith, alive-split a rs)

find-dropped : (a : ℕ) (rs : List Request) → find a (drop_request a rs) ≡ none
unfolding find
find-dropped a [] = refl
find-dropped a (r ∷ rs) = ground (arith, find-dropped a rs)

-- The loop that frees a request before it goes on finds it freed.
pub read_next-freed : (s : State) (r : Request) → read_next (stop_and_free s r) r.addr ≡ fault
unfolding read_next stop_and_free
read_next-freed s r = ground (arith, find-dropped r.addr s.requests)
