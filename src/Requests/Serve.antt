-- ===== src/Requests/Serve.antt =====
-- trunk/daemon/daemon_requests/daemon_request_get.c: a daemon looks a key up in its shared folder,
-- announces the file, and sends it to whoever connects. The static variables of the file that one
-- call sets and reads are results of the functions here.
pub mod Find
pub mod Whole
mod Examples
use pire2pire.Base.{
  ℕ, zero, suc, ◌+◌, ◌-◌, ◌%◌, ◌^◌, Bool, true, false, Option, none, some, List, [], ◌∷◌, ◌++◌,
  Bytes, codes, ◌==◌, if◌then◌else◌, ltb, str_eq, take, print_int, length, get_elem?,
}
use pire2pire.CmdParser.{ParsedCmd, Parsed, parsed, failed, cmd_parse}
use pire2pire.Handler.Identify.{newline}
use pire2pire.Requests.Listing.{DirEntry, get_md5, full_path}

-- `crashed`: a write past the end of a buffer, or `strcmp` of NULL.
pub data Search : Type 0 where
  not_found crashed : Search
  found : (size : ℕ) → (key : Bytes) → Search

compare_key : Bytes → ℕ → Search → Option Bytes → Search
compare_key wanted size more none = crashed
compare_key wanted size more (some key) = if str_eq key wanted then found size key else more

look_at : Bytes → DirEntry → Search → Option ℕ → Search
unfolding compare_key
look_at wanted e more none = more
look_at wanted e more (some size) = compare_key wanted size more (get_md5 e)

-- The loop of `find_file`, on the entries that `readdir` gives.
pub find_entry : Bytes → Bytes → List DirEntry → Search
unfolding look_at full_path
find_entry folder wanted [] = not_found
find_entry folder wanted (e ∷ es) =
    let more = find_entry folder wanted es in
    if e.is_regular
    then (if ltb (length (full_path folder e)) 512 then look_at wanted e more e.size else crashed)
    else more

-- What the calls of the system return: `dir` is none when `opendir` fails, `listen_port` is none
-- when a socket cannot be made, bound or listened on.
pub record Calls : Type 0 where
  pub dir : Option (List DirEntry)
  pub closedir_succeeds : Bool
  pub open_succeeds : Bool
  pub listen_port : Option ℕ

pub find_file : Bytes → Calls → Bytes → Search
unfolding find_entry
find_file folder calls wanted = elim calls.dir [
  | none ↦ not_found
  | some es ↦ elim (find_entry folder wanted es) [
    | not_found ↦ not_found
    | crashed ↦ crashed
    | found size key ↦ if calls.closedir_succeeds then found size key else not_found
  ]
]

unfoldable pub ready_line : Bytes → Bytes → ℕ → Bytes → Bytes → Bytes
ready_line key my_ip port begin end' =
    codes "ready "
    ++ key
    ++ codes " 0 "
    ++ my_ip
    ++ b' ' ∷ print_int port
    ++ codes " tcp "
    ++ begin
    ++ b' ' ∷ end'
    ++ newline

-- `dropped`: nothing is sent. `complained`: the line sent, which has no newline. `announced`: the
-- line sent, and the size, which the line does not hold, of the file that waits for a connection.
pub data Served : Type 0 where
  dropped fault : Served
  complained : (line : Bytes) → Served
  announced : (line : Bytes) → (size : ℕ) → Served

announce : Bytes → ℕ → Served
announce line size = if ltb (length line) 512 then announced line size else fault

serve_found : Bytes → Calls → List Bytes → Search → Served
unfolding announce ready_line
serve_found my_ip calls (w ∷ k ∷ begin ∷ end' ∷ ws) (found size key) =
    if calls.open_succeeds
    then (elim calls.listen_port [
      | none ↦ dropped
      | some port ↦ announce (ready_line key my_ip port begin end') size
    ])
    else dropped
serve_found my_ip calls ws not_found = dropped
serve_found my_ip calls ws crashed = fault
serve_found my_ip calls ws (found size key) = fault

serve_words : Bytes → Bytes → Calls → List Bytes → Option Bytes → Served
unfolding serve_found find_file
serve_words folder my_ip calls ws none = fault
serve_words folder my_ip calls ws (some wanted) =
    serve_found my_ip calls ws (find_file folder calls wanted)

serve_parsed : Bytes → Bytes → Calls → Parsed → Served
unfolding serve_words
serve_parsed folder my_ip calls (failed e) =
    complained (codes "error daemon_request_get: Command parse failed")
serve_parsed folder my_ip calls (parsed p) =
    if p.argc == 4
    then serve_words folder my_ip calls p.argv (get_elem? p.argv 1)
    else complained (codes "error daemon_request_get: Invalid number of arguments")

-- As far as `accept`. The option template has no option.
pub daemon_request_get : Bytes → Bytes → Calls → Bytes → Served
unfolding serve_parsed
daemon_request_get folder my_ip calls cmd = serve_parsed folder my_ip calls (cmd_parse cmd none)

-- What `read` and `send` return.
pub data Read : Type 0 where
  got : Bytes → Read
  read_failed : Read

pub data Send : Type 0 where
  sent : ℕ → Send
  send_failed : Send

-- `waiting`: the answers given so far end before the loop does.
pub data Status : Type 0 where
  complete aborted waiting : Status

pub record Sent : Type 0 where
  pub bytes : Bytes
  pub rest : List Send
  pub to_be_sent : ℕ
  pub status : Status

-- `to_be_sent -= nb_sent` on the unsigned `file_size_t`.
unfoldable pub subtract : ℕ → ℕ → ℕ
subtract n k = (n + 2 ^ 64 - k) % 2 ^ 64

-- `while (nb_read)`: every `send` starts at the beginning of `buffer`.
unfoldable pub send_loop : Bytes → ℕ → ℕ → List Send → Sent
unfolding subtract
send_loop buffer to_be_sent zero ss = record {
  bytes = [];
  rest = ss;
  to_be_sent = to_be_sent;
  status = complete;
}
send_loop buffer to_be_sent (suc n) [] = record {
  bytes = [];
  rest = [];
  to_be_sent = to_be_sent;
  status = waiting;
}
send_loop buffer to_be_sent (suc n) (send_failed ∷ ss) = record {
  bytes = [];
  rest = ss;
  to_be_sent = to_be_sent;
  status = aborted;
}
send_loop buffer to_be_sent (suc n) (sent k ∷ ss) =
    let r = send_loop buffer (subtract to_be_sent k) (suc n - k) ss in
    record {
      bytes = take k buffer ++ r.bytes;
      rest = r.rest;
      to_be_sent = r.to_be_sent;
      status = r.status;
    }

pub record Transfer : Type 0 where
  pub bytes : Bytes
  pub status : Status

-- `while (to_be_sent)`, from the size that `stat` gave.
unfoldable pub send_file : ℕ → List Read → List Send → Transfer
unfolding send_loop
send_file zero rs ss = record { bytes = []; status = complete }
send_file (suc n) [] ss = record { bytes = []; status = waiting }
send_file (suc n) (read_failed ∷ rs) ss = record { bytes = []; status = aborted }
send_file (suc n) (got buffer ∷ rs) ss =
    let s = send_loop buffer (suc n) (length buffer) ss in
    let r = send_file s.to_be_sent rs s.rest in
    elim s.status [
      | complete ↦ record { bytes = s.bytes ++ r.bytes; status = r.status }
      | aborted ↦ record { bytes = s.bytes; status = aborted }
      | waiting ↦ record { bytes = s.bytes; status = waiting }
    ]
