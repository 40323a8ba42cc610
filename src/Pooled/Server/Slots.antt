-- ===== src/Pooled/Server/Slots.antt =====
-- The counts of the peers against the peers that are there.
use pire2pire.Base.{
  ℕ, zero, suc, ◌+◌, ◌≤◌, ◌≡◌, Bool, Option, some, List, [], ◌∷◌, Bytes, length, get_elem?, ltb,
  arith, Option-cases, Bool-cases, inl, inr,
}
use pire2pire.Handler.Identify.{Peer}
use pire2pire.Pooled.Server.{
  Limits, Server, remove_at, queue_client, handle_new_client, end_client, Identity, identity,
  release_daemon, queue_daemon, handle_new_daemon, accept_daemon, end_daemon, connect_daemon, Event,
  client_comes, client_ends, daemon_comes, daemon_ends, daemon_connected, server_event,
  server_events, started,
}

-- A slot for each client and daemon, and no more clients than allowed.
pub record Slots (l : Limits) (s : Server) : Type 0 where
  pub few : s.nb_clients ≤ l.max_clients
  pub clients : length s.clients ≤ s.nb_clients
  pub daemons : length s.daemons ≤ s.nb_daemons

length-remove_at {ℓ} :
    {A : Type ℓ} (i : ℕ) (xs : List A) (x : A)
    → get_elem? xs i ≡ some x
    → length (remove_at i xs) + 1 ≡ length xs
length-remove_at i [] x h = absurd (ground (arith, h))
length-remove_at zero (y ∷ xs) x h = omega arith
length-remove_at (suc i) (y ∷ xs) x h = omega (arith, length-remove_at i xs x h)

client_comes-Slots :
    (l : Limits) (s : Server) (addr : Option Bytes) (allocated queued : Bool)
    → Slots l s
    → Slots l (server_event l s (client_comes addr allocated queued))
unfolding server_event handle_new_client queue_client
client_comes-Slots l s addr allocated queued h = ground arith

client_ends-Slots :
    (l : Limits) (s : Server) (i : ℕ) → Slots l s → Slots l (server_event l s (client_ends i))
unfolding server_event end_client
client_ends-Slots l s i h = elim (Option-cases (get_elem? s.clients i)) [
  | inl e ↦ rw (e, end_client) h
  | inr (c, e) ↦
      rw (e, end_client)
        (record {
          few = omega arith;
          clients = omega (arith, length-remove_at i s.clients c e);
          daemons = h.daemons;
        })
]

handle_new_daemon-Slots :
    (l : Limits) (s : Server) (i : Identity) (addr : Option Bytes) (allocated queued : Bool)
    → Slots l s
    → Slots l
        (handle_new_daemon
          (record s { nb_daemons = s.nb_daemons + 1 })
          i
          addr
          allocated
          queued).server
unfolding handle_new_daemon queue_daemon release_daemon
handle_new_daemon-Slots l s i addr allocated queued h = ground arith

accept_daemon-Slots :
    (l : Limits) (s : Server) (ident addr : Option Bytes) (allocated queued : Bool)
    → Slots l s
    → Slots l (accept_daemon l s ident addr allocated queued).server
unfolding accept_daemon
accept_daemon-Slots l s ident addr allocated queued h =
    elim (Bool-cases (ltb s.nb_daemons l.max_daemons)) [
      | inl e ↦ rw e (handle_new_daemon-Slots l s (identity ident) addr allocated queued h)
      | inr e ↦ rw e h
    ]

daemon_ends-Slots :
    (l : Limits) (s : Server) (i : ℕ) → Slots l s → Slots l (server_event l s (daemon_ends i))
unfolding server_event end_daemon
daemon_ends-Slots l s i h = elim (Option-cases (get_elem? s.daemons i)) [
  | inl e ↦ rw (e, end_daemon) h
  | inr (d, e) ↦
      rw (e, end_daemon)
        (record {
          few = h.few;
          clients = h.clients;
          daemons = omega (arith, length-remove_at i s.daemons d e);
        })
]

daemon_connected-Slots :
    (l : Limits) (s : Server) (d : Peer) (allocated queued : Bool)
    → Slots l s
    → Slots l (server_event l s (daemon_connected d allocated queued))
unfolding server_event connect_daemon queue_daemon
daemon_connected-Slots l s d allocated queued h = ground arith

server_event-Slots :
    (l : Limits) (s : Server) (e : Event) → Slots l s → Slots l (server_event l s e)
server_event-Slots l s (client_comes addr allocated queued) h =
    client_comes-Slots l s addr allocated queued h
server_event-Slots l s (client_ends i) h = client_ends-Slots l s i h
server_event-Slots l s (daemon_comes ident addr allocated queued) h =
    unfold server_event in (accept_daemon-Slots l s ident addr allocated queued h)
server_event-Slots l s (daemon_ends i) h = daemon_ends-Slots l s i h
server_event-Slots l s (daemon_connected d allocated queued) h =
    daemon_connected-Slots l s d allocated queued h

events-Slots :
    (l : Limits) (s : Server) (es : List Event) → Slots l s → Slots l (server_events l s es)
unfolding server_events
events-Slots l s [] h = h
events-Slots l s (e ∷ es) h = events-Slots l (server_event l s e) es (server_event-Slots l s e h)

-- Whatever connects, fails and ends in whatever order: there are never more clients than `max_clients`,
-- and each client and each daemon that is queued or served holds a slot of the count.
pub server_events-Slots : (l : Limits) (es : List Event) → Slots l (server_events l started es)
server_events-Slots l es =
    events-Slots l started es
      (record { few = omega arith; clients = omega arith; daemons = omega arith })
