-- ===== src/Requests/Raw.antt =====
-- trunk/daemon/client_requests/client_request_raw.c: a command that a local client sends to a daemon
-- through this one.
pub mod Forwards
mod Examples
use pire2pire.Base.{
  ℕ, suc, ◌+◌, Bool, true, false, ◌&&◌, Option, none, some, List, [], ◌∷◌, ◌++◌, Bytes, codes, ◌==◌,
  if◌then◌else◌, ltb, str_eq, strchr, starts_with, scan_int, length, get_elem?,
}
use pire2pire.Cmd.{CmdOption, OptState, NextOption, cmd_to_argc_argv, skip_options}
use pire2pire.Handler.Identify.{Peer, newline}

-- The line sent to the client, with the daemon and what it is sent. `crashed`: a read through NULL or
-- behind `argv`.
pub data Raw : Type 0 where
  crashed : Raw
  told : (line : Bytes) → Raw
  forwarded : (line : Bytes) → Peer → (command : Bytes) → Raw

pub syntax_line : Bytes
syntax_line = codes " < Syntax: raw IP:PORT CMD" ++ newline

-- The daemon with the address and the port.
unfoldable pub find_peer : Bytes → ℕ → List Peer → Option Peer
find_peer addr port [] = none
find_peer addr port (d ∷ ds) =
    if str_eq addr d.addr && port == d.port then some d else find_peer addr port ds

-- `cmd + 1`, behind the second space.
second_tail : Option (Bytes × Bytes) → Option (Bytes × Bytes)
second_tail none = none
second_tail (some (word, tail)) = strchr b' ' tail

send_raw : Option (Bytes × Bytes) → Peer → Raw
send_raw none d = crashed
send_raw (some (couple, command)) d =
    forwarded (codes " < raw: Sent raw command successfully" ++ newline) d (command ++ newline)

to_peer : Bytes → Option Peer → Raw
unfolding send_raw second_tail
to_peer cmd none = told (codes " < raw: Please use connect before sending raw commands" ++ newline)
to_peer cmd (some d) = send_raw (second_tail (strchr b' ' cmd)) d

with_port : List Peer → Bytes → Bytes → Option ℕ → Raw
unfolding to_peer syntax_line
with_port ds cmd addr none = told syntax_line
with_port ds cmd addr (some port) = to_peer cmd (find_peer addr port ds)

with_couple : List Peer → Bytes → Option (Bytes × Bytes) → Raw
unfolding with_port syntax_line
with_couple ds cmd none = told syntax_line
with_couple ds cmd (some (addr, port)) = with_port ds cmd addr (scan_int port)

with_word : List Peer → Bytes → Option Bytes → Raw
unfolding with_couple
with_word ds cmd none = crashed
with_word ds cmd (some couple) = with_couple ds cmd (strchr b':' couple)

-- `nb_arguments < 2`, on ints: `optind` may be the larger.
few_arguments : ℕ → ℕ → Bool
few_arguments argc optind = ltb argc (optind + 2)

-- `addr` is the address of the client; the options are an empty template, and `st` is the state of the
-- option reader at the call.
pub client_request_raw : OptState → Bytes → List Peer → Bytes → Raw
unfolding with_word few_arguments syntax_line
client_request_raw st addr ds cmd =
    let argv = cmd_to_argc_argv cmd in
    let (st', c) = skip_options (suc (length argv)) st argv [] in
    if few_arguments (length argv) st'.optind
    then told syntax_line
    else if starts_with addr (codes "127.0.0.1")
    then with_word ds cmd (get_elem? argv 1)
    else told (codes " < raw: Sorry, I only trust 127.0.0.1" ++ newline)
