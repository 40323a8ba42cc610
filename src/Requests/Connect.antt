-- ===== src/Requests/Connect.antt =====
-- trunk/daemon/client_requests/client_request_connect.c: the request of a client to connect to another
-- daemon, which ends with the line that identifies this daemon to the other.
pub mod Identifies
mod Examples
use pire2pire.Base.{
  ℕ, zero, suc, ◌+◌, Bool, true, false, ◌||◌, Option, none, some, List, [], ◌∷◌, ◌++◌, Bytes, codes,
  ◌==◌, if◌then◌else◌, ltb, str_eq, strchr, is_digit, atoi, print_int, length, get_elem?,
}
use pire2pire.CmdParser.{ParsedCmd, Parsed, parsed, failed, cmd_parse}
use pire2pire.Handler.Identify.{Peer, newline}

pub data IpPort : Type 0 where
  not_a_couple no_port_specified no_ip_specified invalid_port : IpPort
  couple : (ip : Bytes) (port : ℕ) → IpPort

pub all_digits : Bytes → Bool
all_digits [] = true
all_digits (c ∷ cs) = if is_digit c then all_digits cs else false

ip_and_port : Bytes → Bytes → IpPort
unfolding all_digits
ip_and_port ip [] = no_port_specified
ip_and_port ip (c ∷ cs) =
    if all_digits (c ∷ cs)
    then (if length ip == 0 then no_ip_specified else couple ip (atoi (c ∷ cs)))
    else invalid_port

pub is_valid_ip_port : Bytes → IpPort
unfolding ip_and_port
is_valid_ip_port foo = elim (strchr b':' foo) [
  | none ↦ not_a_couple
  | some (ip, port) ↦ ip_and_port ip port
]

-- The globals `my_ip` and `prefs->daemon_port`.
pub record Self : Type 0 where
  pub my_ip : Bytes
  pub daemon_port : ℕ

-- What the system answers; an error is its text from `strerror`.
pub record Network : Type 0 where
  pub socket_error : Option Bytes
  pub connect_error : Option Bytes
  pub daemon_allocated : Bool

-- `silent`: the function returns and sends nothing. `said`: only an answer. `overflow`: an answer that
-- does not fit into its 256 bytes. `connected`: the line sent to the other daemon, the
-- new list of daemons and the answer.
pub data Connected : Type 0 where
  silent overflow : Connected
  said : (answer : Bytes) → Connected
  connected : (identification : Bytes) (daemons : List Peer) (answer : Bytes) → Connected

say : Bytes → Connected
say answer = if ltb (length answer) 256 then said answer else overflow

unfoldable pub identification : Self → Bytes
identification me = codes "neighbour " ++ me.my_ip ++ b':' ∷ print_int me.daemon_port

pub success : Bytes → Bytes
success ip = codes " < connect: connected to " ++ ip ++ codes " successfully" ++ newline

succeed : Self → List Peer → Bytes → ℕ → Connected
unfolding identification success
succeed me ds ip port =
    if ltb (length (success ip)) 256
    then connected (identification me ++ newline) (record { addr = ip; port = port } ∷ ds)
        (success ip)
    else overflow

open_connection : Self → Network → List Peer → Bytes → ℕ → Connected
unfolding say succeed
open_connection me net ds ip port = elim net.socket_error [
  | some e ↦ say (
      codes " < connect: could not open a new socket to "
      ++ ip
      ++ codes ", error: "
      ++ e
      ++ newline)
  | none ↦ elim net.connect_error [
    | some e ↦ say (
        codes " < connect: could not connect to "
        ++ ip
        ++ b':' ∷ print_int port
        ++ codes ", error: "
        ++ e
        ++ newline)
    | none ↦
        if net.daemon_allocated
        then succeed me ds ip port
        else said (codes " < connect: could not create a new daemon object")
  ]
]

connect_couple : Self → Network → List Peer → IpPort → Connected
unfolding open_connection
connect_couple me net ds not_a_couple =
    said (codes " < connect: you must specify an ip and a port" ++ newline)
connect_couple me net ds no_port_specified = said (codes " < connect: no port specified" ++ newline)
connect_couple me net ds no_ip_specified = said (codes " < connect: no ip specified" ++ newline)
connect_couple me net ds invalid_port = said (codes " < connect: invalid port" ++ newline)
connect_couple me net ds (couple ip port) =
    if str_eq ip me.my_ip || str_eq ip (codes "127.0.0.1")
    then said (codes " < connect: can't connect to myself" ++ newline)
    else open_connection me net ds ip port

connect_argument : Self → Network → List Peer → Option Bytes → Connected
unfolding connect_couple is_valid_ip_port
connect_argument me net ds none = overflow
connect_argument me net ds (some ip) = connect_couple me net ds (is_valid_ip_port ip)

connect_parsed : Self → Network → List Peer → Parsed → Connected
unfolding connect_argument
connect_parsed me net ds (failed e) = silent
connect_parsed me net ds (parsed p) =
    if ltb p.argc 2
    then said (codes " < connect: Syntax is \"connect IP:PORT\"" ++ newline)
    else connect_argument me net ds (get_elem? p.argv 1)

pub client_request_connect : Self → Network → List Peer → Bytes → Connected
unfolding connect_parsed
client_request_connect me net ds cmd = connect_parsed me net ds (cmd_parse cmd none)
