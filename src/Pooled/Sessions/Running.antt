-- ===== src/Pooled/Sessions/Running.antt =====
-- What putting a request at a worker, and dropping it, changes in the requests of a peer.
use pire2pire.Base.{
  ℕ, ◌+◌, ◌≤◌, ◌≡◌, ◌≢◌, refl, false, ◌&&◌, none, some, List, [], ◌∷◌, ◌==◌, arith, Bool-cases, inl,
  inr,
}
use pire2pire.Pooled.Sessions.{Request, find, first_of, drop_request, assign}
use pire2pire.Pooled.Sessions.Counts.{bit, alive, running, alive_in-le, first_of-alive_in}

running-assign_absent :
    (c a : ℕ) (rs : List Request) → alive a rs ≡ 0 → running c (assign a rs) ≡ running c rs
unfolding running assign alive
running-assign_absent c a [] h = refl
running-assign_absent c a (r ∷ rs) h = ground (arith, running-assign_absent c a rs)

pub running-assign :
    (c a : ℕ) (rs : List Request) (r : Request)
    → find a rs ≡ some r
    → alive a rs ≤ 1
    → r.assigned ≡ false
    → running c (assign a rs) ≡ running c rs + bit (r.peer == c)
unfolding running assign find alive
running-assign c a [] r h u n = absurd (ground (arith, h))
running-assign c a (x ∷ rs) r h u n = elim (Bool-cases (x.addr == a)) [
  | inl e ↦ ground (arith, h, e, u, n, running-assign_absent c a rs)
  | inr e ↦
      ground (arith, e, u, running-assign c a rs r (ground (arith, h, e)) (ground (arith, u, e)) n)
]

running-drop_absent :
    (c a : ℕ) (rs : List Request) → alive a rs ≡ 0 → running c (drop_request a rs) ≡ running c rs
unfolding running alive
running-drop_absent c a [] h = refl
running-drop_absent c a (r ∷ rs) h = ground (arith, running-drop_absent c a rs)

pub running-drop :
    (c a : ℕ) (rs : List Request) (r : Request)
    → find a rs ≡ some r
    → alive a rs ≤ 1
    → running c (drop_request a rs) + bit ((r.peer == c) && r.assigned) ≡ running c rs
unfolding running find alive
running-drop c a [] r h u = absurd (ground (arith, h))
running-drop c a (x ∷ rs) r h u = elim (Bool-cases (x.addr == a)) [
  | inl e ↦ ground (arith, h, e, u, running-drop_absent c a rs)
  | inr e ↦
      ground (arith, e, u, running-drop c a rs r (ground (arith, h, e)) (ground (arith, u, e)))
]

pub first_of-assign :
    (c a : ℕ) (rs : List Request) → first_of c rs ≡ none → first_of c (assign a rs) ≡ none
unfolding first_of assign
first_of-assign c a [] h = refl
first_of-assign c a (r ∷ rs) h = ground (arith, first_of-assign c a rs)

pub first_of-drop :
    (c a : ℕ) (rs : List Request) → first_of c rs ≡ none → first_of c (drop_request a rs) ≡ none
unfolding first_of
first_of-drop c a [] h = refl
first_of-drop c a (r ∷ rs) h = ground (arith, first_of-drop c a rs)

pub first_of-peer : (c : ℕ) (rs : List Request) (r : Request) → first_of c rs ≡ some r → r.peer ≡ c
unfolding first_of
first_of-peer c [] r h = absurd (ground (arith, h))
first_of-peer c (x ∷ rs) r h = elim (Bool-cases (x.peer == c)) [
  | inl e ↦ ground (arith, h, e)
  | inr e ↦ first_of-peer c rs r (ground (arith, h, e))
]

-- Where no other request stands at its address, a search for it finds it.
pub first_of-find :
    (c : ℕ) (rs : List Request) (r : Request)
    → first_of c rs ≡ some r
    → alive r.addr rs ≤ 1
    → find r.addr rs ≡ some r
unfolding first_of find alive
first_of-find c [] r h u = absurd (ground (arith, h))
first_of-find c (x ∷ rs) r h u = elim (Bool-cases (x.peer == c)) [
  | inl e ↦ ground (arith, h, e)
  | inr e ↦ ground (
    arith,
    e,
    u,
    first_of-alive_in c rs r (ground (arith, h, e)),
    alive_in-le r.pool r.addr rs,
    first_of-find c rs r (ground (arith, h, e)) (ground (arith, u)),
  )
]

pub find-first_of :
    (a c : ℕ) (rs : List Request) (r : Request)
    → find a rs ≡ some r
    → r.peer ≡ c
    → first_of c rs ≢ none
unfolding first_of find
find-first_of a c [] r h p n = absurd (ground (arith, h))
find-first_of a c (x ∷ rs) r h p n = elim (Bool-cases (x.addr == a)) [
  | inl e ↦ ground (arith, h, e, p, n)
  | inr e ↦ find-first_of a c rs r (ground (arith, h, e)) p (ground (arith, n))
]
