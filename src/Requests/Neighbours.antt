-- ===== src/Requests/Neighbours.antt =====
-- The requests by which daemons tell each other of daemons:
-- trunk/daemon/daemon_requests/daemon_request_neighbourhood.c and daemon_request_neighbour.c.
mod Examples
use pire2pire.Base.{
  ℕ, ◌+◌, ◌^◌, ◌<◌, ◌≤◌, ◌≡◌, refl, ap, ◌∙◌, Bool, true, false, ◌||◌, Option, none, some, List, [],
  ◌∷◌, ◌++◌, Bytes, codes, ◌==◌, if◌then◌else◌, ltb, str_eq, str_eq_refl, strchr, atoi,
  atoi-decimal, decimal, is_digit, length, All, Bool-cases, inl, inr, arith,
}
use pire2pire.Handler.Identify.{Peer, newline}
use pire2pire.Handler.Identify.Address.{IsAddress, endpoint, strchr-endpoint}

pub neighbour_line : Peer → Bytes
neighbour_line d = codes "neighbour " ++ d.addr ++ newline

-- The lines sent, or none when one of them does not fit into the 25 bytes of `answer`.
pub daemon_request_neighbourhood : List Peer → Option (List Bytes)
unfolding neighbour_line
daemon_request_neighbourhood [] = some []
daemon_request_neighbourhood (d ∷ ds) =
    if ltb (length (neighbour_line d)) 25
    then (elim (daemon_request_neighbourhood ds) [
      | none ↦ none
      | some lines ↦ some (neighbour_line d ∷ lines)
    ])
    else none

-- `crashed`: a read through `strchr`'s NULL. `peers`: the list afterwards.
pub data Told : Type 0 where
  crashed : Told
  peers : List Peer → Told

pub is_known : Bytes → List Peer → Bool
is_known addr [] = false
is_known addr (d ∷ ds) = str_eq d.addr addr || is_known addr ds

-- `allocated`: what `socket` and `daemon_new` give, whose `strdup` of the address succeeds with its
-- `malloc`. The socket is not connected here.
add_daemon : List Peer → Bool → Bytes → ℕ → List Peer
unfolding is_known
add_daemon ds allocated addr port =
    if is_known addr ds
    then ds
    else (if allocated then record { addr = addr; port = port } ∷ ds else ds)

split_couple : List Peer → Bool → Option (Bytes × Bytes) → Told
unfolding add_daemon
split_couple ds allocated none = crashed
split_couple ds allocated (some (addr, port)) = peers (add_daemon ds allocated addr (atoi port))

split_line : List Peer → Bool → Option (Bytes × Bytes) → Told
unfolding split_couple
split_line ds allocated none = crashed
split_line ds allocated (some (word, couple)) = split_couple ds allocated (strchr b':' couple)

pub daemon_request_neighbour : List Peer → Bool → Bytes → Told
unfolding split_line
daemon_request_neighbour ds allocated cmd = split_line ds allocated (strchr b' ' cmd)

-- No two daemons of the list have the same address.
abbrev pub Addresses : List Peer → Type 0
Addresses [] = Unit
Addresses (d ∷ ds) = (is_known d.addr ds ≡ false) × Addresses ds

add_daemon-Addresses :
    (ds : List Peer) (allocated : Bool) (addr : Bytes) (port : ℕ)
    → Addresses ds
    → Addresses (add_daemon ds allocated addr port)
unfolding add_daemon
add_daemon-Addresses ds allocated addr port h = elim (Bool-cases (is_known addr ds)) [
  | inl e ↦ rw e h
  | inr e ↦ elim (Bool-cases allocated) [ inl t ↦ rw (e, t) (e, h) | inr t ↦ rw (e, t) h ]
]

strchr-neighbour :
    (couple : Bytes) → strchr b' ' (codes "neighbour " ++ couple) ≡ some (codes "neighbour", couple)
unfolding strchr
strchr-neighbour couple = refl

no_colon : (s : Bytes) → All (λ c. (is_digit c || c == b'.') ≡ true) s → strchr b':' s ≡ none
unfolding strchr
no_colon [] h = refl
no_colon (c ∷ s) h = ground (arith, h.0, no_colon s h.1)

address_digits : (ip : Bytes) → IsAddress ip → All (λ c. (is_digit c || c == b'.') ≡ true) ip
unfolding IsAddress
address_digits [] a = tt
address_digits (c ∷ ip) a = a

neighbour-endpoint :
    (ds : List Peer) (allocated : Bool) (ip : Bytes) (port : ℕ)
    → IsAddress ip
    → port < 2 ^ 31
    → daemon_request_neighbour ds allocated (codes "neighbour " ++ endpoint ip port)
      ≡ peers (add_daemon ds allocated ip port)
unfolding daemon_request_neighbour split_couple
neighbour-endpoint ds allocated ip port a p =
    rw (strchr-neighbour (endpoint ip port))
      (rw (strchr-endpoint ip (decimal port) (address_digits ip a), atoi-decimal port p) refl)

add_daemon-twice :
    (ds : List Peer) (allocated : Bool) (addr : Bytes) (port : ℕ)
    → add_daemon (add_daemon ds allocated addr port) allocated addr port
      ≡ add_daemon ds allocated addr port
unfolding add_daemon is_known
add_daemon-twice ds allocated addr port = ground (arith, str_eq_refl addr)

-- A daemon that is told of a neighbour at a dotted address, with a port below 2^31, does not crash:
-- it keeps its daemons, adds that one in front when no daemon has the address and there is memory, and
-- still has no two daemons with the same address; told again, it changes nothing more.
pub daemon_request_neighbour-Addresses :
    (ds : List Peer) (allocated : Bool) (ip : Bytes) (port : ℕ)
    → IsAddress ip
    → port < 2 ^ 31
    → Addresses ds
    → (ds' : List Peer) × (daemon_request_neighbour ds allocated
          (codes "neighbour " ++ endpoint ip port)
        ≡ peers ds')
      × Addresses ds'
      × (daemon_request_neighbour ds' allocated (codes "neighbour " ++ endpoint ip port)
          ≡ peers ds')
      × (ds' ≡ (
          if is_known ip ds
          then ds
          else (if allocated then record { addr = ip; port = port } ∷ ds else ds)))
daemon_request_neighbour-Addresses ds allocated ip port a p h = (
  add_daemon ds allocated ip port,
  neighbour-endpoint ds allocated ip port a p,
  add_daemon-Addresses ds allocated ip port h,
  neighbour-endpoint (add_daemon ds allocated ip port) allocated ip port a p
      ∙ ap peers (add_daemon-twice ds allocated ip port),
  unfold add_daemon in refl,
)

neighbour_portless :
    (ds : List Peer) (allocated : Bool) (ip : Bytes)
    → IsAddress ip
    → daemon_request_neighbour ds allocated (codes "neighbour " ++ ip) ≡ crashed
unfolding daemon_request_neighbour split_couple
neighbour_portless ds allocated ip a =
    rw (strchr-neighbour ip) (rw (no_colon ip (address_digits ip a)) refl)

-- The defect: the lines of `daemon_request_neighbourhood` have no port, so every one of them makes
-- `daemon_request_neighbour` read through NULL, whatever daemons it knows.
pub neighbourhood-neighbour :
    (d : Peer) (ds : List Peer) (allocated : Bool)
    → IsAddress d.addr
    → (cmd : Bytes) × (neighbour_line d ≡ cmd ++ newline)
      × (daemon_request_neighbour ds allocated cmd ≡ crashed)
unfolding neighbour_line
neighbourhood-neighbour d ds allocated a =
    (codes "neighbour " ++ d.addr, refl, neighbour_portless ds allocated d.addr a)
