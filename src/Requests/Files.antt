-- ===== src/Requests/Files.antt =====
-- trunk/daemon/daemon_requests/daemon_request_file.c, which puts a file that another daemon offers into
-- the cache, and trunk/daemon/client_requests/client_request_get.c, which asks its seeder for it.
pub mod Offered
use pire2pire.Base.{
  ℕ, zero, suc, ◌+◌, Bool, true, false, Option, none, some, List, [], ◌∷◌, ◌++◌, Bytes, codes, ◌==◌,
  if◌then◌else◌, ltb, str_eq, strchr, atoi, atol, print_int, print_long, length, get_elem?,
}
use pire2pire.CmdParser.{ParsedCmd, Parsed, parsed, failed, cmd_parse}
use pire2pire.FileCache.{
  Tree, System, Entry, Seeder, Outcome, done, blocked, overflow, file_cache_add,
  file_cache_get_by_key, file_key_size,
}
use pire2pire.Handler.Identify.{Peer, newline}

-- `ignored`: no client asked for a list. `complained`: the line sent to the daemon, which has no
-- newline. `added`: the new cache and the line sent to the client.
pub data Filed : Type 0 where
  ignored crashed stuck : Filed
  complained : (line : Bytes) → Filed
  added : Tree → (line : Bytes) → Filed

-- The five words `file NAME KEY SIZE IP:PORT`; what follows them is not read.
file_words : System → Tree → Bytes → List Bytes → Filed
file_words sys cache cmd (w ∷ name ∷ key ∷ size ∷ couple ∷ ws) = elim (strchr b':' couple) [
  | none ↦ crashed
  | some (ip, port) ↦ elim (file_cache_add sys name key (atol size) ip (atoi port) cache) [
    | done cache' ↦ added cache' (codes " < " ++ cmd ++ newline)
    | blocked ↦ stuck
    | overflow ↦ crashed
  ]
]
file_words sys cache cmd _ = crashed

file_parsed : System → Tree → Bytes → Parsed → Filed
unfolding file_words
file_parsed sys cache cmd (failed e) =
    complained (codes "error daemon_request_file: Command parse failed")
file_parsed sys cache cmd (parsed p) =
    if ltb p.argc 5
    then complained (codes "error daemon_request_file: Invalid number of arguments")
    else file_words sys cache cmd p.argv

-- `has_lister`: `list_client` is not NULL.
pub daemon_request_file : System → Bool → Tree → Bytes → Filed
unfolding file_parsed
daemon_request_file sys has_lister cache cmd =
    if has_lister then file_parsed sys cache cmd (cmd_parse cmd none) else ignored

-- The lines sent to the client; `asked` has the daemon and the line sent to it besides.
pub data Got : Type 0 where
  no_seeder : Got
  told : List Bytes → Got
  asked : List Bytes → Peer → Bytes → Got

-- The first daemon with the address.
unfoldable pub find_daemon : Bytes → List Peer → Option Peer
find_daemon addr [] = none
find_daemon addr (d ∷ ds) = if str_eq d.addr addr then some d else find_daemon addr ds

pub seeder_line : Seeder → Bytes
seeder_line s = codes "< get : seeder is " ++ s.ip ++ b':' ∷ print_int s.port ++ newline

pub get_line : Entry → Bytes
get_line e = codes "get " ++ e.key ++ codes " 0 " ++ print_long e.size ++ newline

-- `find_file` sends `seeder_line` twice: at the lookup, and again when it has freed the words.
ask_seeder : List Peer → Entry → List Seeder → Got
unfolding find_daemon seeder_line get_line
ask_seeder ds e [] = no_seeder
ask_seeder ds e (s ∷ ss) = elim (find_daemon s.ip ds) [
  | none ↦ told (seeder_line s ∷ seeder_line s ∷ [])
  | some d ↦ asked (seeder_line s ∷ seeder_line s ∷ []) d (get_line e)
]

found : List Peer → Option Entry → Got
unfolding ask_seeder
found ds none = told ((codes " < get: key not in cache, please list" ++ newline) ∷ [])
found ds (some e) = ask_seeder ds e e.seeders

find_file : Tree → List Peer → Option Bytes → Got
unfolding found
find_file cache ds none = told []
find_file cache ds (some key) =
    if length key == file_key_size
    then found ds (file_cache_get_by_key cache key)
    else told ((codes " < get: hash size is not good, man" ++ newline) ∷ [])

get_parsed : Tree → List Peer → Parsed → Got
unfolding find_file
get_parsed cache ds (failed e) = told []
get_parsed cache ds (parsed p) =
    if p.argc == 1
    then told ((codes " < get: you need to specify a key" ++ newline) ∷ [])
    else find_file cache ds (get_elem? p.argv 1)

-- For a client and a daemon to which every line can be sent.
pub client_request_get : Tree → List Peer → Bytes → Got
unfolding get_parsed
client_request_get cache ds cmd = get_parsed cache ds (cmd_parse cmd none)
