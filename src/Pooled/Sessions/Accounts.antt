-- ===== src/Pooled/Sessions/Accounts.antt =====
-- `nb_requests` of a peer, step by step.
use pire2pire.Base.{
  ℕ, ◌≡◌, refl, sym, Bool, true, false, Option, none, some, List, ◌∷◌, Bytes, codes, starts_with,
  ◌==◌, if◌then◌else◌, arith, Bool-cases, Option-cases, inl, inr, ◌∙◌, eq_of_eqb, eqb_refl,
}
use pire2pire.Pooled.Dispatch.{PoolName}
use pire2pire.Pooled.Sessions.{
  Setting, Request, Phase, reading, checked, leaving, cleaning, gone, State, Outcome, next, blocked,
  fault, says, limit, too_many_requests, read_line, new_request, queue_request, add_request, find,
  first_of, has, take_job, begin_request, finish_request, at_peer, locked,
}
use pire2pire.Pooled.Sessions.Counts.{running, count-has, find-busy}
use pire2pire.Pooled.Sessions.Places.{Placed}
use pire2pire.Pooled.Sessions.Workers.{busy-only}
use pire2pire.ThreadPool.{get_job, pool_queue}
use pire2pire.Pooled.Sessions.Running.{running-assign, running-drop, first_of-assign, first_of-drop}

abbrev pub is_open : Phase → Bool
is_open reading = true
is_open leaving = true
is_open cleaning = false
is_open gone = false
is_open (checked m) = true

pub record Accounted (s : State) : Type 0 where
  pub counted : (c : ℕ) → is_open (s.phases c) ≡ true → s.nb_requests c ≡ running c s.requests
  pub left : (c : ℕ) → s.phases c ≡ gone → first_of c s.requests ≡ none

abbrev pub Accounts : Outcome → Type 0
Accounts (next t) = Accounted t
Accounts blocked = Unit
Accounts fault = Unit

-- A peer goes into another phase.
pub enters-Accounted :
    (s : State) (c : ℕ) (ph : Phase) (out : List (ℕ × Bytes))
    → Accounted s
    → (is_open ph ≡ true → is_open (s.phases c) ≡ true)
    → (ph ≡ gone → first_of c s.requests ≡ none)
    → Accounted (record s { phases = at_peer s.phases c ph; sent = out })
enters-Accounted s c ph out i o g = record {
  counted = λ d h. elim (Bool-cases (d == c)) [
    | inl e ↦ i.counted d (rw (eq_of_eqb d c e) (o (rw e at h)))
    | inr e ↦ i.counted d (rw e at h)
  ];
  left = λ d h. elim (Bool-cases (d == c)) [
    | inl e ↦ rw (eq_of_eqb d c e) (g (rw e at h))
    | inr e ↦ i.left d (rw e at h)
  ];
}

-- Only the requests, the counts and the phases matter.
same-Accounted :
    (s t : State)
    → Accounted s
    → t.requests ≡ s.requests
    → t.nb_requests ≡ s.nb_requests
    → t.phases ≡ s.phases
    → Accounted t
same-Accounted s t i a b c = record {
  counted = λ d h. rw (a, b) (i.counted d (rw c at h));
  left = λ d h. rw a (i.left d (rw c at h));
}

pub if-either {ℓ κ} :
    {A : Type ℓ} (P : A → Type κ) (b : Bool) (x y : A) → P x → P y → P (if b then x else y)
if-either P true x y h k = h
if-either P false x y h k = k

-- A peer that is open stays so.
stays-Accounted :
    (s : State) (c : ℕ) (ph : Phase) (out : List (ℕ × Bytes))
    → Accounted s
    → is_open (s.phases c) ≡ true
    → is_open ph ≡ true
    → Accounted (record s { phases = at_peer s.phases c ph; sent = out })
stays-Accounted s c ph out i e o =
    enters-Accounted s c ph out i (λ h. e) (λ h. absurd (ground (arith, h, o)))

pub read_line-Accounted :
    (l : Setting) (s : State) (c : ℕ) (m : Option Bytes)
    → Accounted s
    → is_open (s.phases c) ≡ true
    → Accounted (read_line l s c m)
unfolding read_line
read_line-Accounted l s c none i e = stays-Accounted s c leaving s.sent i e refl
read_line-Accounted l s c (some w) i e =
    if-either Accounted (starts_with w (codes "quit")) _ _
      (stays-Accounted s c leaving s.sent i e refl)
      (if-either Accounted (s.nb_requests c == limit l c) (says s c too_many_requests) _
        (same-Accounted s (says s c too_many_requests) i refl refl refl)
        (stays-Accounted s c (checked w) s.sent i e refl))

push-Accounted :
    (s : State) (c : ℕ) (r : Request)
    → Accounted s
    → is_open (s.phases c) ≡ true
    → r.peer ≡ c
    → r.assigned ≡ false
    → Accounted (record s { requests = r ∷ s.requests })
unfolding running first_of
push-Accounted s c r i o p n = record {
  counted = λ d h. ground (arith, i.counted d h, n);
  left = λ d h. elim (Bool-cases (r.peer == d)) [
    | inl e ↦ absurd (ground (arith, rw (sym p ∙ eq_of_eqb r.peer d e) at o, h))
    | inr e ↦ rw e (i.left d h)
  ];
}

queue_request-Accounts :
    (s : State) (r : Request) (j : Option ℕ) → Accounted s → Accounts (queue_request s r j)
unfolding queue_request
queue_request-Accounts s r none i = i
queue_request-Accounts s r (some j) i =
    elim (Option-cases
      (pool_queue (s.queues r.pool) (record { addr = j; func = 0; arg = r.addr }))) [
        | inl e ↦ rw (e, queue_request) tt
        | inr (q, e) ↦ rw (e, queue_request) (same-Accounted s _ i refl refl refl)
      ]

pub new_request-peer :
    (l : Setting) (a : ℕ) (m : Bytes) (c : ℕ)
    → ((new_request l a m c).peer ≡ c) × ((new_request l a m c).assigned ≡ false)
unfolding new_request
new_request-peer l a m c = (ground arith, ground arith)

pub add_request-Accounts :
    (l : Setting) (s : State) (c : ℕ) (m : Bytes) (a j : Option ℕ)
    → Accounted s
    → is_open (s.phases c) ≡ true
    → Accounts (add_request l s c m a j)
unfolding add_request
add_request-Accounts l s c m none j i o = stays-Accounted s c reading _ i o refl
add_request-Accounts l s c m (some a) j i o =
    let (p, n) = new_request-peer l a m c in
    queue_request-Accounts _ (new_request l a m c) j (
      push-Accounted (record s { phases = at_peer s.phases c reading }) c (new_request l a m c)
        (stays-Accounted s c reading s.sent i o refl) (ground (arith, eqb_refl c)) p n)

pub take_job-Accounts : (s : State) (p : PoolName) → Accounted s → Accounts (take_job s p)
unfolding take_job
take_job-Accounts s p i = elim (Option-cases (get_job (s.queues p))) [
  | inl e ↦ rw (e, take_job) tt
  | inr (x, e) ↦ rw (e, take_job) (same-Accounted s _ i refl refl refl)
]

pub begin_request-Accounts :
    (s : State) (p : PoolName) (a : ℕ)
    → Placed s
    → Accounted s
    → has a (s.taken p) ≡ true
    → Accounts (begin_request s p a (find a s.requests))
unfolding begin_request
begin_request-Accounts s p a v i h = elim (Option-cases (find a s.requests)) [
  | inl e ↦ rw (e, begin_request) tt
  | inr (r, e) ↦ elim (Bool-cases (locked (s.phases r.peer))) [
    | inl k ↦ rw (e, begin_request, k) tt
    | inr k ↦ elim (Bool-cases r.assigned) [
      | inl u ↦ absurd (
          omega (
            arith,
            busy-only s r.pool a v (find-busy a s.requests r e u) p,
            count-has a (s.taken p) h,
          ))
      | inr u ↦
          rw (e, begin_request, k)
            (record {
              counted = λ d o.
                  ground (arith, i.counted d o, running-assign d a s.requests r e (v.once a) u);
              left = λ d g. first_of-assign d a s.requests (i.left d g);
            })
    ]
  ]
]

pub finish_request-Accounts :
    (s : State) (a : ℕ) → Placed s → Accounted s → Accounts (finish_request s a (find a s.requests))
unfolding finish_request
finish_request-Accounts s a v i = elim (Option-cases (find a s.requests)) [
  | inl e ↦ rw (e, finish_request) tt
  | inr (r, e) ↦ elim (Bool-cases (locked (s.phases r.peer))) [
    | inl k ↦ rw (e, finish_request, k) tt
    | inr k ↦ elim (Bool-cases r.assigned) [
      | inr u ↦ rw (e, finish_request, k, u) tt
      | inl u ↦
          rw (e, finish_request, k, u)
            (record {
              counted = λ d o.
                  ground (arith, i.counted d o, u, running-drop d a s.requests r e (v.once a));
              left = λ d g. first_of-drop d a s.requests (i.left d g);
            })
    ]
  ]
]
