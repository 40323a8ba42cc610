-- ===== src/Handler/Daemons.antt =====
-- trunk/daemon/daemon_handler.c: the loop that reads a daemon's lines, and the threads it starts. It is
-- the thread of a request that puts the request into the list, when it gets to run.
use native.Mathlib.Nat.{zero-add}
use pire2pire.Base.{
  ℕ, zero, suc, ◌+◌, ◌≡◌, refl, sym, ap, ◌∙◌, Bool, true, false, Option, none, some, List, [], ◌∷◌,
  ◌++◌, Bytes, codes, ◌==◌, if◌then◌else◌, starts_with, length, arith,
}
use pire2pire.Handler.Dispatch.{DaemonCallback, daemon_callback}

abbrev pub max_requests_per_daemon : ℕ
max_requests_per_daemon = 10

-- struct daemon_request, with the function in its wrapper.
pub record DaemonRequest : Type 0 where
  pub cmd : Bytes
  pub callback : DaemonCallback
  pub thread_id : ℕ

pub data DaemonPhase : Type 0 where
  running ended crashed : DaemonPhase

-- `starting`: the threads, newest first, that exist and have not taken `req_lock` yet.
pub record DaemonSession : Type 0 where
  pub phase : DaemonPhase
  pub requests : List DaemonRequest
  pub starting : List DaemonRequest
  pub refused : ℕ

-- `line`: what `socket_getline` returns, whether `daemon_request_new` finds memory, and the thread that
-- `pthread_create` makes, if it makes one. `enters`: the oldest starting thread puts its request into
-- the list. `leaves`: a thread removes its request.
pub data DaemonEvent : Type 0 where
  line : (message : Option Bytes) (allocated : Bool) (thread_id : Option ℕ) → DaemonEvent
  enters : DaemonEvent
  leaves : (thread_id : ℕ) → DaemonEvent

daemon_request_remove : ℕ → List DaemonRequest → Option (List DaemonRequest)
daemon_request_remove pt [] = none
daemon_request_remove pt (r ∷ rs) =
    let rest : Option (List DaemonRequest) = elim (daemon_request_remove pt rs) [
      | none ↦ none
      | some rs' ↦ some (r ∷ rs')
    ] in
    if r.thread_id == pt then some rs else rest

pub daemon_request_count : List DaemonRequest → ℕ
daemon_request_count [] = 0
daemon_request_count (r ∷ rs) = daemon_request_count rs + 1

start_thread : DaemonSession → Bytes → Option ℕ → DaemonSession
start_thread s message none = s
start_thread s message (some pt) = record s {
  starting =
      record { cmd = message; callback = daemon_callback message; thread_id = pt } ∷ s.starting;
}

-- Each refusal sends one line; they are counted.
treat_message : DaemonSession → Bytes → Bool → Option ℕ → DaemonSession
unfolding start_thread daemon_request_count
treat_message s message allocated pt =
    if starts_with message (codes "quit")
    then record s { phase = ended }
    else if daemon_request_count s.requests == max_requests_per_daemon
    then record s { refused = suc s.refused }
    else if allocated
    then start_thread s message pt
    else record s { refused = suc s.refused }

take_oldest : List DaemonRequest → Option (List DaemonRequest × DaemonRequest)
take_oldest [] = none
take_oldest (r ∷ []) = some ([], r)
take_oldest (r ∷ q ∷ rs) = elim (take_oldest (q ∷ rs)) [
  | none ↦ none
  | some (rest, o) ↦ some (r ∷ rest, o)
]

-- The first part of `start_request_thread`, and its last.
start_request_thread : DaemonSession → DaemonSession
unfolding take_oldest
start_request_thread s = elim (take_oldest s.starting) [
  | none ↦ s
  | some (rest, r) ↦ record s { starting = rest; requests = r ∷ s.requests }
]

end_request_thread : DaemonSession → ℕ → DaemonSession
unfolding daemon_request_remove
end_request_thread s pt = elim (daemon_request_remove pt s.requests) [
  | none ↦ record s { phase = crashed }
  | some rs ↦ record s { requests = rs }
]

treat_line : DaemonSession → Option Bytes → Bool → Option ℕ → DaemonSession
unfolding treat_message
treat_line s none allocated pt = record s { phase = ended }
treat_line s (some message) allocated pt = treat_message s message allocated pt

treat_event : DaemonSession → DaemonEvent → DaemonSession
unfolding treat_line start_request_thread end_request_thread
treat_event s (line message allocated pt) = treat_line s message allocated pt
treat_event s enters = start_request_thread s
treat_event s (leaves pt) = end_request_thread s pt

pub handle_event : DaemonSession → DaemonEvent → DaemonSession
unfolding treat_event
handle_event s e = elim s.phase [ running ↦ treat_event s e | ended ↦ s | crashed ↦ s ]

pub handle_requests : DaemonSession → List DaemonEvent → DaemonSession
unfolding handle_event
handle_requests s [] = s
handle_requests s (e ∷ es) = handle_requests (handle_event s e) es

-- A daemon sends the line `n` times before any of the threads gets to run; then they run.
pub burst : ℕ → Bytes → List DaemonEvent
burst zero m = []
burst (suc n) m = line (some m) true (some n) ∷ burst n m

pub all_enter : ℕ → List DaemonEvent
all_enter zero = []
all_enter (suc n) = enters ∷ all_enter n

handle_requests-append :
    (s : DaemonSession) (es fs : List DaemonEvent)
    → handle_requests s (es ++ fs) ≡ handle_requests (handle_requests s es) fs
unfolding handle_requests
handle_requests-append s [] fs = refl
handle_requests-append s (e ∷ es) fs = handle_requests-append (handle_event s e) es fs

started : ℕ → Bytes → List DaemonRequest → List DaemonRequest
started zero m rs = rs
started (suc n) m rs =
    started n m (record { cmd = m; callback = daemon_callback m; thread_id = n } ∷ rs)

abbrev in_loop : List DaemonRequest → List DaemonRequest → DaemonSession
in_loop rs qs = record { phase = running; requests = rs; starting = qs; refused = 0 }

line-step :
    (m : Bytes) (qs : List DaemonRequest) (pt : ℕ)
    → starts_with m (codes "quit") ≡ false
    → handle_event (in_loop [] qs) (line (some m) true (some pt))
      ≡ in_loop [] (record { cmd = m; callback = daemon_callback m; thread_id = pt } ∷ qs)
unfolding handle_event treat_event treat_line treat_message start_thread daemon_request_count
line-step m qs pt h = rw h refl

burst-started :
    (n : ℕ) (m : Bytes) (rs : List DaemonRequest)
    → starts_with m (codes "quit") ≡ false
    → handle_requests
        (record { phase = running; requests = []; starting = rs; refused = 0 })
        (burst n m)
      ≡ record { phase = running; requests = []; starting = started n m rs; refused = 0 }
unfolding handle_requests burst started
burst-started zero m rs h = refl
burst-started (suc n) m rs h =
    ap (λ s. handle_requests s (burst n m)) (line-step m rs n h)
    ∙ burst-started n m (record { cmd = m; callback = daemon_callback m; thread_id = n } ∷ rs) h

length-started :
    (n : ℕ) (m : Bytes) (rs : List DaemonRequest) → length (started n m rs) ≡ n + length rs
unfolding started
length-started zero m rs = omega arith
length-started (suc n) m rs = omega (
  arith,
  length-started n m (record { cmd = m; callback = daemon_callback m; thread_id = n } ∷ rs),
)

length-take_oldest :
    (r : DaemonRequest) (rs : List DaemonRequest)
    → (rest : List DaemonRequest) × (o : DaemonRequest) × (take_oldest (r ∷ rs) ≡ some (rest, o))
      × (length rest ≡ length rs)
unfolding take_oldest
length-take_oldest r [] = ([], r, refl, refl)
length-take_oldest r (q ∷ rs) =
    let (rest, o, e, l) = length-take_oldest q rs in (r ∷ rest, o, rw e refl, omega (arith, l))

enter-step :
    (rs qs rest : List DaemonRequest) (o : DaemonRequest)
    → take_oldest qs ≡ some (rest, o)
    → handle_event (in_loop rs qs) enters ≡ in_loop (o ∷ rs) rest
unfolding handle_event treat_event start_request_thread
enter-step rs qs rest o h = rw h refl

enter-count :
    (n : ℕ) (rs qs : List DaemonRequest)
    → length qs ≡ n
    → daemon_request_count (handle_requests (in_loop rs qs) (all_enter n)).requests
      ≡ n + daemon_request_count rs
unfolding handle_requests all_enter daemon_request_count
enter-count zero rs qs h = sym (zero-add (daemon_request_count rs))
enter-count (suc n) rs [] h = absurd (omega arith)
enter-count (suc n) rs (q ∷ qs) h =
    let (rest, o, e, l) = length-take_oldest q qs in
    ap (λ s. daemon_request_count (handle_requests s (all_enter n)).requests)
      (enter-step rs (q ∷ qs) rest o e)
    ∙ omega (arith, enter-count n (o ∷ rs) rest (omega arith))

-- The limit of ten requests does not hold: the list is counted before the threads of the earlier
-- lines have put their requests into it. A daemon without requests may send any number of lines,
-- none of them "quit", before the threads run; once they run, all the requests are in the list at
-- the same time.
pub handle_requests-unbounded :
    (n : ℕ) (m : Bytes)
    → starts_with m (codes "quit") ≡ false
    → daemon_request_count
        (handle_requests
          (record { phase = running; requests = []; starting = []; refused = 0 })
          (burst n m ++ all_enter n)).requests
      ≡ n
unfolding daemon_request_count
handle_requests-unbounded n m h =
    ap (λ s. daemon_request_count s.requests)
      (handle_requests-append (in_loop [] []) (burst n m) (all_enter n))
    ∙ ap (λ s. daemon_request_count (handle_requests s (all_enter n)).requests)
        (burst-started n m [] h)
    ∙ enter-count n [] (started n m []) (omega (arith, length-started n m []))
    ∙ omega arith
