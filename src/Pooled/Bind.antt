-- ===== src/Pooled/Bind.antt =====
-- `socket_init` of branches/block_by_block/daemon/util/socket.c, which tries port after port until
-- `bind` succeeds.
mod Retry
mod Examples
use pire2pire.Base.{
  ℕ, zero, suc, ◌+◌, ◌%◌, ◌^◌, Bool, true, false, Option, none, some, List, [], ◌∷◌,
}

-- What `bind` leaves in errno when it fails: EADDRINUSE, or something else.
pub data Errno : Type 0 where
  addr_in_use other_error : Errno

-- What `bind` returns, with the port that the kernel chooses where it is asked for port 0.
pub data Bind : Type 0 where
  bound : (ephemeral : ℕ) → Bind
  failed : Errno → Bind

-- `opened`: the port that the socket is bound to, and whether `listen` succeeded, of which the caller
-- is told nothing. `trying`: the answers given so far end before the loop does, which tries this port.
pub data Opened : Type 0 where
  no_socket : Opened
  opened : (port : ℕ) → (listens : Bool) → Opened
  trying : (port : ℕ) → Opened

bound_port : ℕ → ℕ → ℕ
bound_port zero ephemeral = ephemeral
bound_port (suc port) ephemeral = suc port

-- `htons (1 + ntohs (port))` keeps 16 bits. Errno is none in the first round.
next_port : ℕ → Option Errno → ℕ
next_port port (some addr_in_use) = (port + 1) % 2 ^ 16
next_port port (some other_error) = port
next_port port none = port

-- `do ... while (bind (...) < 0)`, from the port that the last round tried, and then `listen`.
bind_loop : Bool → ℕ → Option Errno → List Bind → Opened
unfolding next_port bound_port
bind_loop listens port errno [] = trying (next_port port errno)
bind_loop listens port errno (bound ephemeral ∷ bs) =
    opened (bound_port (next_port port errno) ephemeral) listens
bind_loop listens port errno (failed e ∷ bs) = bind_loop listens (next_port port errno) (some e) bs

-- Whether `socket` and `listen` succeed, the port of `sa`, and what `bind` returns.
pub socket_init : Bool → Bool → ℕ → List Bind → Opened
unfolding bind_loop
socket_init false listens port bs = no_socket
socket_init true listens port bs = bind_loop listens port none bs
