-- ===== src/Handler/Admission.antt =====
-- `handle_client` of trunk/daemon/client_handler.c: the limit on clients, and the thread of each.
mod Examples
use pire2pire.Base.{
  ℕ, ◌+◌, ◌≤◌, ◌≡◌, refl, Bool, true, Bool-cases, inl, inr, Option, Option-cases, none, some, ◌≢◌,
  List, [], ◌∷◌, Bytes, ◌==◌, if◌then◌else◌, arith,
}

abbrev pub max_clients : ℕ
max_clients = 2

-- struct client; `thread_id` is none while no thread was made for it.
pub record Client : Type 0 where
  pub addr : Bytes
  pub thread_id : Option ℕ

-- `refused`: the client is told that there are too many. `crashed`: `pthread_create` is given an address
-- at NULL. `dropped`: nothing is done.
pub data Admission : Type 0 where
  refused dropped crashed : Admission
  admitted : List Client → Admission

pub client_numbers : List Client → ℕ
client_numbers [] = 0
client_numbers (c ∷ cs) = client_numbers cs + 1

-- `client_new`, or NULL when `inet_ntop` fails or there is no memory.
pub new_client : Option Bytes → Bool → Option ℕ → Option Client
new_client none allocated thread = none
new_client (some addr) allocated thread =
    if allocated then some (record { addr = addr; thread_id = thread }) else none

-- `pthread_create` shows an error by a positive number, so that `if (r < 0)` never holds: a client
-- without a thread stays in the list.
add_client : List Client → Option Client → Admission
add_client [] none = dropped
add_client (d ∷ ds) none = crashed
add_client cs (some c) = admitted (c ∷ cs)

pub handle_client : List Client → Option Bytes → Bool → Option ℕ → Admission
unfolding client_numbers new_client add_client
handle_client cs addr allocated thread =
    if client_numbers cs == max_clients
    then refused
    else add_client cs (new_client addr allocated thread)

-- `client_remove` by the thread of a client.
pub remove_client : ℕ → List Client → List Client
remove_client pt [] = []
remove_client pt (c ∷ cs) =
    let rest = remove_client pt cs in
    elim c.thread_id [ none ↦ c ∷ rest | some t ↦ if t == pt then cs else c ∷ rest ]

-- A connection that `accept` gave, or the thread of a client that ends.
pub data ClientEvent : Type 0 where
  connects : (addr : Option Bytes) (allocated : Bool) (thread : Option ℕ) → ClientEvent
  leaves : (thread_id : ℕ) → ClientEvent

admission : List Client → Admission → Option (List Client)
admission cs refused = some cs
admission cs dropped = some cs
admission cs crashed = none
admission cs (admitted cs') = some cs'

pub client_event : List Client → ClientEvent → Option (List Client)
unfolding handle_client admission remove_client
client_event cs (connects addr allocated thread) =
    admission cs (handle_client cs addr allocated thread)
client_event cs (leaves pt) = some (remove_client pt cs)

-- None after a crash.
pub client_events : List Client → List ClientEvent → Option (List Client)
unfolding client_event
client_events cs [] = some cs
client_events cs (e ∷ es) = elim (client_event cs e) [
  | none ↦ none
  | some cs' ↦ client_events cs' es
]

client_numbers-remove_client :
    (pt : ℕ) (cs : List Client) → client_numbers (remove_client pt cs) ≤ client_numbers cs
unfolding client_numbers remove_client
client_numbers-remove_client pt [] = omega arith
client_numbers-remove_client pt (c ∷ cs) = ground (arith, client_numbers-remove_client pt cs)

add_client-bound :
    (cs cs' : List Client) (c : Option Client)
    → admission cs (add_client cs c) ≡ some cs'
    → client_numbers cs' ≤ client_numbers cs + 1
unfolding add_client admission client_numbers
add_client-bound [] cs' none e = ground (arith, e)
add_client-bound (d ∷ ds) cs' none e = absurd (ground (arith, e))
add_client-bound [] cs' (some c) e = ground (arith, e)
add_client-bound (d ∷ ds) cs' (some c) e = ground (arith, e)

client_event-bound :
    (cs cs' : List Client) (e : ClientEvent)
    → client_numbers cs ≤ max_clients
    → client_event cs e ≡ some cs'
    → client_numbers cs' ≤ max_clients
unfolding client_event handle_client admission
client_event-bound cs cs' (connects addr allocated thread) h e =
    elim (Bool-cases (client_numbers cs == max_clients)) [
      | inl full ↦ ground (arith, full, e, h)
      | inr room ↦
          ground (arith, room, e, h, add_client-bound cs cs' (new_client addr allocated thread))
    ]
client_event-bound cs cs' (leaves pt) h e = ground (arith, e, h, client_numbers-remove_client pt cs)

client_events-step :
    (cs cs' ds : List Client) (e : ClientEvent) (es : List ClientEvent)
    → client_event cs e ≡ some cs'
    → client_events cs (e ∷ es) ≡ some ds
    → client_events cs' es ≡ some ds
unfolding client_events
client_events-step cs cs' ds e es h k = ground (arith, h, k)

client_events-none :
    (cs ds : List Client) (e : ClientEvent) (es : List ClientEvent)
    → client_event cs e ≡ none
    → client_events cs (e ∷ es) ≢ some ds
unfolding client_events
client_events-none cs ds e es h k = ground (arith, h, k)

client_events_bound :
    (cs ds : List Client) (es : List ClientEvent)
    → client_numbers cs ≤ max_clients
    → client_events cs es ≡ some ds
    → client_numbers ds ≤ max_clients
unfolding client_events
client_events_bound cs ds [] h k = ground (arith, h, k)
client_events_bound cs ds (e ∷ es) h k = elim (Option-cases (client_event cs e)) [
  | inl n ↦ absurd (client_events-none cs ds e es n k)
  | inr (cs', o) ↦
      client_events_bound cs' ds es (client_event-bound cs cs' e h o)
        (client_events-step cs cs' ds e es o k)
]

-- From no client on, whatever connects and leaves in whatever order, there are never more than two
-- clients.
pub client_events-bound :
    (es : List ClientEvent) (cs : List Client)
    → client_events [] es ≡ some cs
    → client_numbers cs ≤ max_clients
unfolding client_numbers
client_events-bound es cs e = client_events_bound [] cs es (omega arith) e

-- The defect: when no thread could be made for two clients, they stay in the list, and every later
-- connection is refused.
pub threadless_clients-refused :
    (a b : Bytes) (addr : Option Bytes) (allocated : Bool) (thread : Option ℕ)
    → (cs : List Client) × (client_events []
          (connects (some a) true none ∷ connects (some b) true none ∷ [])
        ≡ some cs)
      × (handle_client cs addr allocated thread ≡ refused)
      × ((pt : ℕ) → remove_client pt cs ≡ cs)
unfolding client_events client_event handle_client add_client client_numbers remove_client admission
threadless_clients-refused a b addr allocated thread = (_, refl, refl, λ pt. refl)
