-- ===== src/Pooled/Server.antt =====
-- branches/block_by_block/daemon/main.c: the connections that `start_server` accepts, with the counts of
-- clients and daemons that `handle_client` and `handle_daemon` take back at their end, and that
-- client_request_connect.c raises.
pub mod Slots
pub mod Identified
mod Examples
use pire2pire.Base.{
  ℕ, zero, suc, ◌+◌, ◌-◌, Bool, true, false, Option, none, some, List, [], ◌∷◌, ◌++◌, Bytes, codes,
  if◌then◌else◌, ltb, str_eq, strchr, atoi, get_elem?,
}
use pire2pire.CmdParser.{ParsedCmd, Parsed, parsed, failed, cmd_parse}
use pire2pire.Handler.Identify.{Peer, newline}

abbrev pub remove_at {ℓ} : {A : Type ℓ} → ℕ → List A → List A
remove_at i [] = []
remove_at zero (x ∷ xs) = xs
remove_at (suc i) (x ∷ xs) = x ∷ remove_at i xs

-- The limits of `prefs`.
pub record Limits : Type 0 where
  pub max_clients : ℕ
  pub max_daemons : ℕ

-- The peers that are in the queue of their pool or served. A client is NULL when there was no memory.
pub record Server : Type 0 where
  pub nb_clients : ℕ
  pub clients : List (Option Bytes)
  pub nb_daemons : ℕ
  pub daemons : List Peer

-- The server after a round of the loop, what was sent on the new connection, and whether it was closed.
pub record Round : Type 0 where
  pub server : Server
  pub sent : List Bytes
  pub closed : Bool

oops : Bytes
oops = codes " < Oops" ++ newline

sorry_pal : Bytes
sorry_pal = codes " < Sorry pal :(" ++ newline

-- `pool_queue` of a client; nobody looks at a failure, for lack of memory.
queue_client : Server → Option Bytes → Bool → Server
queue_client s c true = record s { clients = c ∷ s.clients }
queue_client s c false = s

-- Behind the reservation of a slot. A client that could not be made is queued all the same.
handle_new_client : Server → Option Bytes → Bool → Bool → Round
unfolding oops sorry_pal queue_client
handle_new_client s none allocated queued = record {
  server = record s { nb_clients = s.nb_clients - 1 };
  sent = oops ∷ [];
  closed = true;
}
handle_new_client s (some addr) true queued = record {
  server = queue_client s (some addr) queued;
  sent = [];
  closed = false;
}
handle_new_client s (some addr) false queued = record {
  server = queue_client s none queued;
  sent = sorry_pal ∷ [];
  closed = false;
}

-- A connection on `client_sd`: what `inet_ntop` writes, and whether there is memory for the client
-- and for its job.
pub accept_client : Limits → Server → Option Bytes → Bool → Bool → Round
unfolding handle_new_client
accept_client l s addr allocated queued =
    if ltb s.nb_clients l.max_clients
    then handle_new_client (record s { nb_clients = s.nb_clients + 1 }) addr allocated queued
    else record { server = s; sent = (codes " < Too many clients" ++ newline) ∷ []; closed = true }

-- `out:` of `handle_client`, by the client at this place.
pub end_client : Server → ℕ → Server
end_client s i = elim (get_elem? s.clients i) [
  | none ↦ s
  | some c ↦ record s { nb_clients = s.nb_clients - 1; clients = remove_at i s.clients }
]

-- The port that the identification gives, or what is sent before the connection is closed.
pub data Identity : Type 0 where
  port_is : ℕ → Identity
  unknown : List Bytes → Identity

ident_words : Option Bytes → Option Bytes → Identity
ident_words (some word) (some couple) =
    if str_eq word (codes "neighbour")
    then elim (strchr b':' couple) [ none ↦ unknown [] | some (ip, port) ↦ port_is (atoi port) ]
    else unknown []
ident_words w couple = unknown []

ident_parsed : Parsed → Identity
unfolding ident_words
ident_parsed (failed e) = unknown []
ident_parsed (parsed p) =
    if ltb p.argc 2 then unknown [] else ident_words (get_elem? p.argv 0) (get_elem? p.argv 1)

pub identity : Option Bytes → Identity
unfolding ident_parsed
identity none = unknown ((codes "error: identification timed out" ++ newline) ∷ [])
identity (some ident_msg) = ident_parsed (cmd_parse ident_msg none)

-- `failed_handling_daemon:`
release_daemon : Server → List Bytes → Round
release_daemon s answers = record {
  server = record s { nb_daemons = s.nb_daemons - 1 };
  sent = answers;
  closed = true;
}

queue_daemon : Server → Peer → Bool → Server
queue_daemon s d true = record s { daemons = d ∷ s.daemons }
queue_daemon s d false = s

handle_new_daemon : Server → Identity → Option Bytes → Bool → Bool → Round
unfolding release_daemon queue_daemon oops sorry_pal
handle_new_daemon s (unknown answers) addr allocated queued = release_daemon s answers
handle_new_daemon s (port_is port) none allocated queued = release_daemon s (oops ∷ [])
handle_new_daemon s (port_is port) (some addr) false queued = release_daemon s (sorry_pal ∷ [])
handle_new_daemon s (port_is port) (some addr) true queued = record {
  server = queue_daemon s (record { addr = addr; port = port }) queued;
  sent = [];
  closed = false;
}

-- A connection on `daemon_sd`, with what `socket_try_getline` returns.
pub accept_daemon : Limits → Server → Option Bytes → Option Bytes → Bool → Bool → Round
unfolding handle_new_daemon identity
accept_daemon l s ident_msg addr allocated queued =
    if ltb s.nb_daemons l.max_daemons
    then handle_new_daemon (record s { nb_daemons = s.nb_daemons + 1 }) (identity ident_msg) addr
        allocated queued
    else record { server = s; sent = (codes " < Too many daemons" ++ newline) ∷ []; closed = true }

pub end_daemon : Server → ℕ → Server
end_daemon s i = elim (get_elem? s.daemons i) [
  | none ↦ s
  | some d ↦ record s { nb_daemons = s.nb_daemons - 1; daemons = remove_at i s.daemons }
]

-- The end of `client_request_connect`, which does not ask whether there is room.
pub connect_daemon : Server → Peer → Bool → Bool → Server
unfolding queue_daemon
connect_daemon s d false queued = s
connect_daemon s d true queued = queue_daemon (record s { nb_daemons = s.nb_daemons + 1 }) d queued

pub data Event : Type 0 where
  client_comes : (addr : Option Bytes) (allocated queued : Bool) → Event
  client_ends : (place : ℕ) → Event
  daemon_comes : (ident_msg addr : Option Bytes) (allocated queued : Bool) → Event
  daemon_ends : (place : ℕ) → Event
  daemon_connected : (d : Peer) (allocated queued : Bool) → Event

pub server_event : Limits → Server → Event → Server
unfolding accept_client end_client accept_daemon end_daemon connect_daemon
server_event l s (client_comes addr allocated queued) =
    (accept_client l s addr allocated queued).server
server_event l s (client_ends i) = end_client s i
server_event l s (daemon_comes ident addr allocated queued) =
    (accept_daemon l s ident addr allocated queued).server
server_event l s (daemon_ends i) = end_daemon s i
server_event l s (daemon_connected d allocated queued) = connect_daemon s d allocated queued

pub server_events : Limits → Server → List Event → Server
unfolding server_event
server_events l s [] = s
server_events l s (e ∷ es) = server_events l (server_event l s e) es

abbrev pub started : Server
started = record { nb_clients = 0; clients = []; nb_daemons = 0; daemons = [] }
