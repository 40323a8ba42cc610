-- ===== src/Requests/Ready.antt =====
-- trunk/daemon/daemon_requests/daemon_request_ready.c, which downloads an announced file, and the list
-- of the downloads in progress of dl_file.c and dl_file.h. A node of that list is shown with its
-- address.
pub mod Downloads
pub mod Announced
mod Examples
use pire2pire.Base.{
  ℕ, ◌+◌, ◌-◌, ◌%◌, ◌^◌, Bool, true, false, Option, none, some, List, [], ◌∷◌, ◌++◌, Bytes, codes,
  ◌==◌, if◌then◌else◌, ltb, atoi, length, get_elem?,
}
use pire2pire.Cmd.{cmd_to_argc_argv}
use pire2pire.FileCache.{Tree, Entry, file_cache_get_by_key}
use pire2pire.Requests.Receive.{
  Recv, Write, Status, complete, failed, waiting, Download, download_loop,
}

pub record DlFile : Type 0 where
  pub addr : ℕ
  pub path : Bytes
  pub total_size : ℕ

-- The conversions from `file_size_t` to `int` and from `int` to `off_t`, on bit patterns.
pub off_of_size : ℕ → ℕ
off_of_size size = let i = size % 2 ^ 32 in if ltb i (2 ^ 31) then i else i + (2 ^ 64 - 2 ^ 32)

-- `malloc` returns the address, or none.
unfoldable pub dl_file_new : Option ℕ → Bytes → ℕ → Option DlFile
unfolding off_of_size
dl_file_new none path size = none
dl_file_new (some a) path size =
    some (record { addr = a; path = path; total_size = off_of_size size })

unfoldable pub dl_file_add : List DlFile → DlFile → List DlFile
dl_file_add q f = f ∷ q

unfoldable pub dl_file_remove : List DlFile → DlFile → List DlFile
dl_file_remove [] f = []
dl_file_remove (t ∷ q) f = let rest = dl_file_remove q f in if t.addr == f.addr then q else t ∷ rest

-- The system: `inet_pton` gives the address, `connect` is asked for an address and a port, and
-- `node` is what `malloc` returns for the list.
pub record Net : Type 0 where
  pub socket_succeeds : Bool
  pub inet_pton : Bytes → Option ℕ
  pub open_succeeds : Bool
  pub connect : ℕ → ℕ → Bool
  pub node : Option ℕ
  pub recvs : List Recv
  pub writes : List Write

-- `given_up`: it returns before it adds to the list. `downloaded`: the path, what was written there,
-- and the list afterwards.
pub data Readied : Type 0 where
  given_up fault : Readied
  complained : (line : Bytes) → Readied
  downloaded : (path : Bytes) → Download → List DlFile → Readied

-- The loop fails by a `return` that leaves the list as it is.
after_loop : List DlFile → DlFile → Status → List DlFile
unfolding dl_file_remove
after_loop q f complete = dl_file_remove q f
after_loop q f failed = q
after_loop q f waiting = q

receive : Net → List DlFile → ℕ → Option DlFile → Readied
unfolding dl_file_add after_loop
receive net q size none = given_up
receive net q size (some f) =
    let d = download_loop size 0 net.recvs net.writes in
    downloaded f.path d (after_loop (dl_file_add q f) f d.status)

path_of : Bytes → Entry → Bytes
path_of folder e = folder ++ b'/' ∷ e.filename

connect_to : Net → Bytes → List DlFile → ℕ → ℕ → Option Entry → Readied
unfolding receive path_of
connect_to net folder q ip port none = given_up
connect_to net folder q ip port (some e) =
    if net.open_succeeds
    then (if net.connect ip port
        then receive net q e.size (dl_file_new net.node (path_of folder e) e.size)
        else given_up)
    else given_up

look_up : Net → Bytes → Tree → List DlFile → Bytes → Option ℕ → ℕ → Readied
unfolding connect_to
look_up net folder cache q key none port = given_up
look_up net folder cache q key (some ip) port =
    connect_to net folder q ip port (file_cache_get_by_key cache key)

-- `htons (atoi (port))` keeps 16 bits.
ready_words : Net → Bytes → Tree → List DlFile → List Bytes → Readied
unfolding look_up
ready_words net folder cache q (w ∷ key ∷ delay ∷ ip ∷ port ∷ proto ∷ begin ∷ end' ∷ ws) =
    if net.socket_succeeds
    then look_up net folder cache q key (net.inet_pton ip) (atoi port % 2 ^ 16)
    else given_up
ready_words net folder cache q ws = fault

pub daemon_request_ready : Net → Bytes → Tree → List DlFile → Bytes → Readied
unfolding ready_words
daemon_request_ready net folder cache q cmd =
    let argv = cmd_to_argc_argv cmd in
    if ltb (length argv) 8
    then complained (codes "error daemon_request_ready: Invalid number of arguments")
    else ready_words net folder cache q argv
