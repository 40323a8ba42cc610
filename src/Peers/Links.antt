-- ===== src/Peers/Links.antt =====
-- The doubly linked lists of trunk/daemon: of clients (client.c), of daemons (daemon.c) and of their
-- requests (client_request.c and daemon_request.c), on a heap of nodes. A node is shown by its links
-- and its thread; an address that holds no node is a fault, `none`.
pub mod Chain
mod Examples
pub mod Dangling
pub mod Refinement
pub mod Remove
pub mod Search
use pire2pire.Base.{
  ℕ, zero, suc, ◌+◌, Bool, true, false, ◌&&◌, Option, none, some, ◌==◌, if◌then◌else◌, is_some,
}

abbrev pub Ptr : Type 0
Ptr = Option ℕ

pub record Node : Type 0 where
  pub thread_id : ℕ
  pub prev : Ptr
  pub next : Ptr

abbrev pub Heap : Type 0
Heap = ℕ → Option Node

abbrev pub write : Heap → ℕ → Option Node → Heap
write h p c a = if a == p then c else h a

infixl 5 ◌>>=◌
abbrev pub ◌>>=◌ : {A B : Type 0} → Option A → (A → Option B) → Option B
none >>= k = none
some a >>= k = k a

load : Heap → Ptr → Option Node
load h none = none
load h (some p) = h p

-- `p->next = q` and `p->prev = q`
set_next : Heap → ℕ → Ptr → Option Heap
set_next h p q = h p >>= λ n. some (write h p (some (record n { next = q })))

set_prev : Heap → ℕ → Ptr → Option Heap
set_prev h p q = h p >>= λ n. some (write h p (some (record n { prev = q })))

-- `client_free`, `daemon_free` and the like, for the node that a pointer leads to.
pub free_node : Heap → ℕ → Heap
free_node h p = write h p none

-- The four `add` functions: the checks on NULL come in the other order for requests, with the same
-- results.
push_front : Heap → Ptr → Ptr → Option (Heap × Ptr)
unfolding set_next set_prev
push_front h l none = some (h, l)
push_front h none (some r) = some (h, some r)
push_front h (some l) (some r) = do
  h1 ← set_prev h r none
  h2 ← set_next h1 r (some l)
  h3 ← set_prev h2 l (some r)
  some (h3, some r)

pub client_add : Heap → Ptr → Ptr → Option (Heap × Ptr)
unfolding push_front
client_add h l c = push_front h l c

pub daemon_add : Heap → Ptr → Ptr → Option (Heap × Ptr)
unfolding push_front
daemon_add h l d = push_front h l d

pub client_request_add : Heap → Ptr → Ptr → Option (Heap × Ptr)
unfolding push_front
client_request_add h l r = push_front h l r

pub daemon_request_add : Heap → Ptr → Ptr → Option (Heap × Ptr)
unfolding push_front
daemon_request_add h l r = push_front h l r

-- `for (tmp = r, sum = 0; tmp; tmp = tmp->next, sum++);` as far as `fuel` nodes.
count_from : ℕ → Heap → Ptr → Option ℕ
count_from fuel h none = some 0
count_from zero h (some p) = none
count_from (suc fuel) h (some p) = do n ← h p; k ← count_from fuel h n.next; some (k + 1)

pub client_numbers : ℕ → Heap → Ptr → Option ℕ
unfolding count_from
client_numbers fuel h l = count_from fuel h l

pub daemon_numbers : ℕ → Heap → Ptr → Option ℕ
unfolding count_from
daemon_numbers fuel h l = count_from fuel h l

pub client_request_count : ℕ → Heap → Ptr → Option ℕ
unfolding count_from
client_request_count fuel h r = count_from fuel h r

pub daemon_request_count : ℕ → Heap → Ptr → Option ℕ
unfolding count_from
daemon_request_count fuel h r = count_from fuel h r

-- `for (tmp = l; pthread_equal (tmp->thread_id, pt) == 0; tmp = tmp->next);` The address and the node.
pub find_thread : ℕ → Heap → Ptr → ℕ → Option (ℕ × Node)
find_thread fuel h none pt = none
find_thread zero h (some p) pt = none
find_thread (suc fuel) h (some p) pt = h p >>= λ n.
    let rest = find_thread fuel h n.next pt in if n.thread_id == pt then some (p, n) else rest

-- `if (q) q->prev = v;`
set_prev_if : Heap → Ptr → Ptr → Option Heap
unfolding set_prev
set_prev_if h none v = some h
set_prev_if h (some q) v = set_prev h q v

-- `tmp` is read once: a node is not its own neighbour.
unlink_request : Heap → Ptr → Node → Option (Heap × Ptr)
unfolding set_next set_prev_if
unlink_request h l tmp = elim tmp.prev [
  | none ↦ set_prev_if h tmp.next none >>= λ h'. some (h', tmp.next)
  | some p ↦ set_next h p tmp.next >>= λ h1. set_prev_if h1 tmp.next tmp.prev >>= λ h2. some (h2, l)
]

remove_request : ℕ → Heap → Ptr → ℕ → Option (Heap × Ptr)
unfolding find_thread unlink_request
remove_request fuel h none pt = some (h, none)
remove_request fuel h (some l) pt =
    find_thread fuel h (some l) pt >>= λ found. unlink_request h (some l) found.1

pub client_request_remove : ℕ → Heap → Ptr → ℕ → Option (Heap × Ptr)
unfolding remove_request
client_request_remove fuel h l pt = remove_request fuel h l pt

pub daemon_request_remove : ℕ → Heap → Ptr → ℕ → Option (Heap × Ptr)
unfolding remove_request
daemon_request_remove fuel h l pt = remove_request fuel h l pt

-- The functions for peers do not write `tmp->next->prev` when the node has a predecessor.
unlink_peer : Heap → Ptr → Node → Option (Heap × Ptr)
unfolding set_next set_prev
unlink_peer h l tmp = elim tmp.prev [
  | none ↦ elim tmp.next [
    | none ↦ some (h, none)
    | some q ↦ set_prev h q none >>= λ h'. some (h', some q)
  ]
  | some p ↦ set_next h p tmp.next >>= λ h'. some (h', l)
]

remove_peer : ℕ → Heap → Ptr → ℕ → Option (Heap × Ptr)
unfolding find_thread unlink_peer
remove_peer fuel h none pt = some (h, none)
remove_peer fuel h (some l) pt =
    find_thread fuel h (some l) pt >>= λ found. unlink_peer h (some l) found.1

pub client_remove : ℕ → Heap → Ptr → ℕ → Option (Heap × Ptr)
unfolding remove_peer
client_remove fuel h l pt = remove_peer fuel h l pt

pub daemon_remove : ℕ → Heap → Ptr → ℕ → Option (Heap × Ptr)
unfolding remove_peer
daemon_remove fuel h l pt = remove_peer fuel h l pt
