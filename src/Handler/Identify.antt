-- ===== src/Handler/Identify.antt =====
-- `handle_daemon` of trunk/daemon/daemon_handler.c: the limit on daemons, and the line by which a daemon
-- that connects identifies itself.
pub mod Address
pub mod Accepts
mod Examples
use pire2pire.Base.{
  ℕ, zero, suc, ◌+◌, Bool, true, false, Option, none, some, List, [], ◌∷◌, ◌++◌, Bytes, codes, ◌==◌,
  if◌then◌else◌, ltb, str_eq, strchr, atoi, length, get_elem?,
}
use pire2pire.CmdParser.{ParsedCmd, Parsed, parsed, failed, cmd_parse}

abbrev pub max_daemons : ℕ
max_daemons = 10

-- The fields of a struct daemon that the handlers read.
pub record Peer : Type 0 where
  pub addr : Bytes
  pub port : ℕ

-- `overflow`: `sprintf` past the end of `answer`.
pub data Identified : Type 0 where
  accepted : (port : ℕ) → Identified
  refused : (answer : Bytes) → Identified
  overflow : Identified

abbrev pub newline : Bytes
newline = 10 ∷ []

identification_timed_out : Bytes
identification_timed_out = codes "error: identification timed out" ++ newline

pub identify_with_neighbour : Bytes
identify_with_neighbour = codes "error: identify with neighbour IP:PORT" ++ newline

other_address : Bytes → Bytes → Bytes
other_address addr ip =
    codes "error: for me, you are (" ++ addr ++ codes "), not (" ++ ip ++ codes ")" ++ newline

-- What fits into the 256 bytes of `answer` with its NUL.
refuse : Bytes → Identified
refuse answer = if ltb (length answer) 256 then refused answer else overflow

check_address : Bytes → Option (Bytes × Bytes) → Identified
unfolding refuse other_address identify_with_neighbour
check_address addr none = refused identify_with_neighbour
check_address addr (some (ip, port)) =
    if str_eq ip addr then accepted (atoi port) else refuse (other_address addr ip)

check_words : Bytes → Option Bytes → Option Bytes → Identified
unfolding check_address identify_with_neighbour
check_words addr none w = overflow
check_words addr (some word) none = overflow
check_words addr (some word) (some couple) =
    if str_eq word (codes "neighbour")
    then check_address addr (strchr b':' couple)
    else refused identify_with_neighbour

check_command : Bytes → Parsed → Identified
unfolding check_words identify_with_neighbour
check_command addr (failed e) = refused identify_with_neighbour
check_command addr (parsed p) =
    if ltb p.argc 2
    then refused identify_with_neighbour
    else check_words addr (get_elem? p.argv 0) (get_elem? p.argv 1)

-- `addr` is the address that `inet_ntop` writes for the connection.
pub identify : Bytes → Option Bytes → Identified
unfolding check_command identification_timed_out
identify addr none = refused identification_timed_out
identify addr (some ident_msg) = check_command addr (cmd_parse ident_msg none)

-- `joined`: the new list; `aborted`: what is sent before the socket is closed. Without memory
-- for the daemon, the code returns with `daemons_lock` held when there is no other daemon, and writes
-- through NULL otherwise.
pub data Admission : Type 0 where
  too_many_daemons lock_kept crashed : Admission
  aborted : (answer : Bytes) → Admission
  joined : List Peer → Admission

pub daemon_numbers : List Peer → ℕ
daemon_numbers [] = 0
daemon_numbers (d ∷ ds) = daemon_numbers ds + 1

without_memory : List Peer → Admission
without_memory [] = lock_kept
without_memory (d ∷ ds) = crashed

admit : List Peer → Bool → Bytes → Identified → Admission
unfolding without_memory
admit ds allocated addr (refused answer) = aborted answer
admit ds allocated addr overflow = crashed
admit ds allocated addr (accepted port) =
    if allocated then joined (record { addr = addr; port = port } ∷ ds) else without_memory ds

pub handle_daemon : List Peer → Bool → Bytes → Option Bytes → Admission
unfolding admit daemon_numbers
handle_daemon ds allocated addr ident_msg =
    if daemon_numbers ds == max_daemons
    then too_many_daemons
    else admit ds allocated addr (identify addr ident_msg)
