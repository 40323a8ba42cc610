-- ===== src/Handler/Clients.antt =====
-- trunk/daemon/client_handler.c: the clients that are let in, and the loop that reads a client's lines
-- and starts a thread for each request.
mod Examples
use mathlib.Core.List.{append-nil, append_assoc}
use pire2pire.Base.{
  ℕ, ◌+◌, ◌≡◌, ◌≤◌, refl, sym, ap, ◌∙◌, Bool-cases, Bool, true, false, Option, none, some,
  Option-cases, inl, inr, List, [], ◌∷◌, ◌++◌, Bytes, codes, ◌==◌, if◌then◌else◌, starts_with,
  replicate, length, arith,
}
use pire2pire.Handler.Dispatch.{Callback, client_callback}

abbrev pub max_requests_per_client : ℕ
max_requests_per_client = 2

-- struct client_request, with the function that its thread runs.
pub record Request : Type 0 where
  pub cmd : Bytes
  pub callback : Callback
  pub thread_id : ℕ

-- The list from its head on. A search that meets no request of the thread reads behind the end.
client_request_remove : ℕ → List Request → Option (List Request)
client_request_remove pt [] = none
client_request_remove pt (r ∷ rs) =
    let rest : Option (List Request) = elim (client_request_remove pt rs) [
      | none ↦ none
      | some rs' ↦ some (r ∷ rs')
    ] in
    if r.thread_id == pt then some rs else rest

client_request_add : List Request → Request → List Request
client_request_add l r = r ∷ l

pub client_request_count : List Request → ℕ
client_request_count [] = 0
client_request_count (r ∷ rs) = client_request_count rs + 1

-- The client's thread: still in its loop, or behind `out:` with the requests it killed, or stopped at
-- a memory error.
pub data Phase : Type 0 where
  running : Phase
  ended : (killed : List ℕ) → Phase
  crashed : Phase

pub record Session : Type 0 where
  pub phase : Phase
  pub requests : List Request
  pub sent : List Bytes

-- `line`: what `socket_getline` returns, whether `client_request_new` finds memory, and what
-- `pthread_create` stores and returns. `finished`: the thread of a request is past its function.
pub data Event : Type 0 where
  line : (message : Option Bytes) (allocated : Bool) (thread_id : ℕ) → Event
  finished : (thread_id : ℕ) → Event

pub thread_ids : List Request → List ℕ
thread_ids [] = []
thread_ids (r ∷ rs) = r.thread_id ∷ thread_ids rs

-- `goto out`
leave : Session → Session
unfolding thread_ids
leave s = record s { phase = ended (thread_ids s.requests) }

say : Session → Bytes → Session
say s answer = record s { sent = s.sent ++ answer ∷ [] }

pub too_many_requests : Bytes
too_many_requests = codes " < Too many requests, mister, plz calm down" ++ 10 ∷ []

request_not_created : Bytes
request_not_created = codes " < Failed to create a new request" ++ 10 ∷ []

-- `pthread_create` returns no negative number, so that the test `r < 0` behind it is never met and
-- the request stays in the list whether or not the thread runs.
start_request : Session → Bytes → ℕ → Session
unfolding client_request_add
start_request s message pt = record s {
  requests =
      client_request_add s.requests
        (record { cmd = message; callback = client_callback message; thread_id = pt });
}

treat_message : Session → Bytes → Bool → ℕ → Session
unfolding leave say start_request client_request_count too_many_requests request_not_created
treat_message s message allocated pt =
    if starts_with message (codes "quit")
    then leave s
    else if client_request_count s.requests == max_requests_per_client
    then say s too_many_requests
    else if allocated
    then start_request s message pt
    else say s request_not_created

treat_line : Session → Option Bytes → Bool → ℕ → Session
unfolding leave treat_message
treat_line s none allocated pt = leave s
treat_line s (some message) allocated pt = treat_message s message allocated pt

-- The end of `start_request_thread`.
request_done : Session → ℕ → Session
unfolding client_request_remove
request_done s pt = elim (client_request_remove pt s.requests) [
  | none ↦ record s { phase = crashed }
  | some rs ↦ record s { requests = rs }
]

pub handle_event : Session → Event → Session
unfolding treat_line request_done
handle_event s (line message allocated pt) = elim s.phase [
  | running ↦ treat_line s message allocated pt
  | ended killed ↦ s
  | crashed ↦ s
]
handle_event s (finished pt) = elim s.phase [
  | running ↦ request_done s pt
  | ended killed ↦ s
  | crashed ↦ s
]

pub handle_requests : Session → List Event → Session
unfolding handle_event
handle_requests s [] = s
handle_requests s (e ∷ es) = handle_requests (handle_event s e) es

count-add :
    (l : List Request) (r : Request)
    → client_request_count (client_request_add l r) ≡ client_request_count l + 1
unfolding client_request_count client_request_add
count-add l r = refl

count-remove :
    (pt : ℕ) (l l' : List Request)
    → client_request_remove pt l ≡ some l'
    → client_request_count l ≡ client_request_count l' + 1
unfolding client_request_count client_request_remove
count-remove pt [] l' h = ground arith
count-remove pt (r ∷ rs) l' h = elim (Option-cases (client_request_remove pt rs)) [
  | inl e ↦ ground arith
  | inr (rs', e) ↦ ground (arith, count-remove pt rs rs' e)
]

done-bounded :
    (s : Session) (pt : ℕ)
    → client_request_count s.requests ≤ max_requests_per_client
    → client_request_count (request_done s pt).requests ≤ max_requests_per_client
unfolding request_done
done-bounded s pt h = elim (Option-cases (client_request_remove pt s.requests)) [
  | inl e ↦ ground arith
  | inr (rs', e) ↦ ground (arith, count-remove pt s.requests rs' e)
]

event-bounded :
    (s : Session) (e : Event)
    → client_request_count s.requests ≤ max_requests_per_client
    → client_request_count (handle_event s e).requests ≤ max_requests_per_client
unfolding handle_event treat_line treat_message leave say start_request
event-bounded s (line none a pt) h = ground arith
event-bounded s (line (some m) a pt) h =
    ground (
      arith,
      count-add s.requests (record { cmd = m; callback = client_callback m; thread_id = pt }),
    )
event-bounded s (finished pt) h = ground (arith, done-bounded s pt h)

-- However lines and ends of requests alternate, a client that starts within the limit of two requests
-- never has more than two in its list.
pub handle_requests-bounded :
    (s : Session) (es : List Event)
    → client_request_count s.requests ≤ max_requests_per_client
    → client_request_count (handle_requests s es).requests ≤ max_requests_per_client
unfolding handle_requests
handle_requests-bounded s [] h = h
handle_requests-bounded s (e ∷ es) h =
    handle_requests-bounded (handle_event s e) es (event-bounded s e h)

-- Lines that a client sends in a row, none of which is "quit".
pub lines : List Bytes → List Event
lines [] = []
lines (m ∷ ms) = line (some m) true 0 ∷ lines ms

pub none_quits : List Bytes → Bool
none_quits [] = true
none_quits (m ∷ ms) = if starts_with m (codes "quit") then false else none_quits ms

busy-step :
    (rs : List Request) (out : List Bytes) (m : Bytes)
    → client_request_count rs ≡ max_requests_per_client
    → starts_with m (codes "quit") ≡ false
    → handle_event (record { phase = running; requests = rs; sent = out }) (line (some m) true 0)
      ≡ record { phase = running; requests = rs; sent = out ++ too_many_requests ∷ [] }
unfolding handle_event treat_line treat_message say
busy-step rs out m c q = rw (q, c) refl

-- While a client has two requests, and none of them ends, each of its lines other than "quit" is
-- answered with "Too many requests" and changes nothing else; a line that starts with "quit" after
-- them still ends the loop, and the two requests are killed.
pub handle_requests-saturated :
    (rs : List Request) (out : List Bytes) (ms : List Bytes) (rest : Bytes)
    → client_request_count rs ≡ max_requests_per_client
    → none_quits ms ≡ true
    → handle_requests
        (record { phase = running; requests = rs; sent = out })
        (lines (ms ++ (codes "quit" ++ rest) ∷ []))
      ≡ record {
        phase = ended (thread_ids rs);
        requests = rs;
        sent = out ++ replicate (length ms) too_many_requests;
      }
unfolding handle_requests lines none_quits handle_event treat_line treat_message leave starts_with
handle_requests-saturated rs out [] rest c q =
    ap (λ o. record { phase = ended (thread_ids rs); requests = rs; sent = o })
      (sym (append-nil out))
handle_requests-saturated rs out (m ∷ ms) rest c q =
    elim (Bool-cases (starts_with m (codes "quit"))) [
      | inl e ↦ absurd (ground arith)
      | inr e ↦
          ap (λ s. handle_requests s (lines (ms ++ (codes "quit" ++ rest) ∷ [])))
            (busy-step rs out m c e)
          ∙ handle_requests-saturated rs (out ++ too_many_requests ∷ []) ms rest c (ground arith)
          ∙ ap (λ o. record { phase = ended (thread_ids rs); requests = rs; sent = o })
              (append_assoc out (too_many_requests ∷ []) (replicate (length ms) too_many_requests))
    ]
