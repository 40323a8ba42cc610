-- ===== src/Pooled/Seeders.antt =====
-- branches/block_by_block/daemon/client_requests/client_request_get.c, which collects the connected
-- daemons that have a file. The static variables that one call sets and reads are results of the
-- functions here. Of an entry of the cache only the fields that branches/block_by_block shares with
-- trunk are read.
mod Inverted
mod Examples
use pire2pire.Base.{
  ℕ, suc, Option, none, some, List, [], ◌∷◌, ◌++◌, Bytes, codes, ◌==◌, if◌then◌else◌, length,
  get_elem?,
}
use pire2pire.CmdParser.{ParsedCmd, Parsed, parsed, failed, cmd_parse}
use pire2pire.FileCache.{Tree, Entry, Seeder, file_cache_get_by_key, file_key_size}
use pire2pire.Handler.Identify.{Peer, newline}
use pire2pire.Requests.Files.{find_daemon, seeder_line}

-- A node of `struct daemon_list`.
pub record DaemonItem : Type 0 where
  pub id : ℕ
  pub daemon : Peer

-- The loop on the seeders; `n` of them are counted already.
pub find_daemons_from : List Peer → List Seeder → ℕ → List DaemonItem → List DaemonItem
unfolding find_daemon
find_daemons_from ds [] n l = l
find_daemons_from ds (s ∷ ss) n l = elim (find_daemon s.ip ds) [
  | none ↦ find_daemons_from ds ss (suc n) l
  | some d ↦ find_daemons_from ds ss (suc n) (record { id = suc n; daemon = d } ∷ l)
]

pub find_daemons : List Peer → Entry → List DaemonItem
unfolding find_daemons_from
find_daemons ds e = find_daemons_from ds e.seeders 0 []

-- The lines sent to the client, whether or not it reads a field of NULL after them.
pub data Got : Type 0 where
  told crashed : List Bytes → Got

pub no_seeder_line : Bytes
no_seeder_line =
    codes " < no seeder for the requested file. Former seeders must have been disconnected."
    ++ newline

-- The test of the list that `find_daemons` gives, and `d_list->id`.
after_search : List Bytes → List DaemonItem → Got
unfolding no_seeder_line
after_search lines (d ∷ l) = told (lines ++ no_seeder_line ∷ [])
after_search lines [] = crashed lines

-- `find_file` sends `seeder_line` twice: at the lookup, and again when it has freed the words.
ask_seeders : List Peer → Entry → List Seeder → Got
unfolding after_search
ask_seeders ds e [] = crashed []
ask_seeders ds e (s ∷ ss) = after_search (seeder_line s ∷ seeder_line s ∷ []) (find_daemons ds e)

found : List Peer → Option Entry → Got
unfolding ask_seeders
found ds none = told ((codes " < get: key not in cache, please list" ++ newline) ∷ [])
found ds (some e) = ask_seeders ds e e.seeders

find_file : Tree → List Peer → Option Bytes → Got
unfolding found
find_file cache ds none = told []
find_file cache ds (some key) =
    if length key == file_key_size
    then found ds (file_cache_get_by_key cache key)
    else told ((codes " < get: hash size is not good, man" ++ newline) ∷ [])

get_parsed : Tree → List Peer → Parsed → Got
unfolding find_file
get_parsed cache ds (failed e) = told []
get_parsed cache ds (parsed p) =
    if p.argc == 1
    then told ((codes " < get: you need to specify a key" ++ newline) ∷ [])
    else find_file cache ds (get_elem? p.argv 1)

-- For a client to which every line can be sent.
pub client_request_get : Tree → List Peer → Bytes → Got
unfolding get_parsed
client_request_get cache ds cmd = get_parsed cache ds (cmd_parse cmd none)
