-- ===== src/Pooled/Blocks.antt =====
-- branches/block_by_block/daemon/daemon_requests/daemon_request_ready.c, which downloads one block of an
-- announced file: the bytes from `begin` to `end`, both included.
mod Buffer
mod Download
mod Examples
use pire2pire.Base.{
  ℕ, zero, suc, ◌+◌, ◌-◌, ◌%◌, ◌^◌, Bool, true, false, Option, none, some, List, [], ◌∷◌, ◌++◌,
  Bytes, codes, ◌||◌, if◌then◌else◌, ltb, leb, take, drop, atoi, length,
}
use pire2pire.Cmd.{cmd_to_argc_argv}
use pire2pire.FileCache.{Tree, Entry, file_cache_get_by_key}
use pire2pire.Requests.Receive.{Recv, received, recv_failed}
use pire2pire.Requests.Ready.{DlFile, dl_file_new, dl_file_add, dl_file_remove}

abbrev pub buffsize : ℕ
buffsize = 128

-- `overrun`: a read past the end of `buffer`. `waiting`: the answers given so far end before the
-- loop does.
pub data Status : Type 0 where
  complete failed waiting overrun : Status

-- What `fwrite` was given, each piece with the position that `fseek` set before, and how the loop ended.
-- The code closes the descriptor and neither flushes nor closes the stream: whether the last of the
-- pieces reaches the file is up to the stream, which is no part of the model.
pub record Block : Type 0 where
  pub pieces : List (ℕ × Bytes)
  pub status : Status

-- `recv` fills the start of the buffer and leaves the rest of it.
unfoldable pub fill : Bytes → Bytes → Bytes
fill c buffer = c ++ drop (length c) buffer

-- `fwrite (&(buffer[at]), n, 1, file)`: none when it reads past the end of the buffer.
unfoldable pub slice : Bytes → ℕ → ℕ → Option Bytes
slice buffer at zero = some []
slice buffer at (suc n) =
    if leb (at + suc n) (length buffer) then some (take (suc n) (drop at buffer)) else none

put : ℕ → Option Bytes → Block → Block
put at none rest = record { pieces = []; status = overrun }
put at (some bytes) rest = record { pieces = (at, bytes) ∷ rest.pieces; status = rest.status }

-- `while (nb_received_sum < size)`; `buffer` is what the array holds before the next `recv`.
pub block_loop : Bytes → ℕ → ℕ → ℕ → List Recv → Block
unfolding fill slice put
block_loop buffer begin size sum [] = record {
  pieces = [];
  status = if ltb sum size then waiting else complete;
}
block_loop buffer begin size sum (recv_failed ∷ rs) = record {
  pieces = [];
  status = if ltb sum size then failed else complete;
}
block_loop buffer begin size sum (received c ∷ rs) =
    let rest = block_loop (fill c buffer) begin size (sum + length c) rs in
    if ltb sum size
    then put (begin + sum) (slice (fill c buffer) (begin + sum) (length c)) rest
    else record { pieces = []; status = complete }

-- The system: `fdopen_succeeds` is whether a stream is made with mode "w+" from the descriptor, which
-- was opened for writing only. POSIX lets it fail for such a mode, and glibc has it fail. `buffer` is
-- what the array holds at the start.
pub record Net : Type 0 where
  pub socket_succeeds : Bool
  pub inet_pton : Bytes → Option ℕ
  pub open_succeeds : Bool
  pub fdopen_succeeds : Bool
  pub connect : ℕ → ℕ → Bool
  pub node : Option ℕ
  pub buffer : Bytes
  pub recvs : List Recv

-- `fault`: `fseek` of NULL, or the overflow of `end - (begin - 1)`. `downloaded`: the path, what was
-- given to its stream, and the list of downloads afterwards.
pub data Readied : Type 0 where
  given_up fault : Readied
  complained : (line : Bytes) → Readied
  downloaded : (path : Bytes) → Block → List DlFile → Readied

-- Only the end of the loop takes the file off the list.
after_loop : List DlFile → DlFile → Status → List DlFile
after_loop q f complete = dl_file_remove q f
after_loop q f failed = q
after_loop q f waiting = q
after_loop q f overrun = q

-- The loop where `fdopen` gave NULL, which the first `fseek` reads.
without_stream : Bytes → List DlFile → List Recv → Readied
without_stream path q [] = downloaded path (record { pieces = []; status = waiting }) q
without_stream path q (recv_failed ∷ rs) =
    downloaded path (record { pieces = []; status = failed }) q
without_stream path q (received c ∷ rs) = fault

receive : Net → List DlFile → ℕ → ℕ → Option DlFile → Readied
unfolding after_loop without_stream
receive net q begin end' none = given_up
receive net q begin end' (some f) =
    let b = block_loop net.buffer begin (end' + 1 - begin) 0 net.recvs in
    if leb (2 ^ 31) (end' + 1 - begin)
    then fault
    else (if net.fdopen_succeeds
        then downloaded f.path b (after_loop (dl_file_add q f) f b.status)
        else without_stream f.path (dl_file_add q f) net.recvs)

path_of : Bytes → Entry → Bytes
path_of folder e = folder ++ b'/' ∷ e.filename

connect_to : Net → Bytes → List DlFile → ℕ → ℕ → ℕ → ℕ → Option Entry → Readied
unfolding receive path_of
connect_to net folder q ip port begin end' none = given_up
connect_to net folder q ip port begin end' (some e) =
    if net.open_succeeds
    then (if net.connect ip port
        then receive net q begin end' (dl_file_new net.node (path_of folder e) e.size)
        else given_up)
    else given_up

look_up : Net → Bytes → Tree → List DlFile → Bytes → ℕ → ℕ → Option ℕ → ℕ → Readied
unfolding connect_to
look_up net folder cache q key begin end' none port = given_up
look_up net folder cache q key begin end' (some ip) port =
    connect_to net folder q ip port begin end' (file_cache_get_by_key cache key)

-- On the bit patterns of `begin` and `end`.
has_bad_bounds : ℕ → ℕ → Bool
has_bad_bounds begin end' = leb (2 ^ 31) begin || leb (2 ^ 31) end' || ltb end' begin

ready_words : Net → Bytes → Tree → List DlFile → List Bytes → Readied
unfolding look_up has_bad_bounds
ready_words net folder cache q (w ∷ key ∷ delay ∷ ip ∷ port ∷ proto ∷ begin ∷ end' ∷ ws) =
    if has_bad_bounds (atoi begin) (atoi end')
    then given_up
    else (if net.socket_succeeds
        then look_up net folder cache q key (atoi begin) (atoi end') (net.inet_pton ip)
            (atoi port % 2 ^ 16)
        else given_up)
ready_words net folder cache q ws = fault

pub daemon_request_ready : Net → Bytes → Tree → List DlFile → Bytes → Readied
unfolding ready_words
daemon_request_ready net folder cache q cmd =
    let argv = cmd_to_argc_argv cmd in
    if ltb (length argv) 8
    then complained (codes "error daemon_request_ready: Invalid number of arguments")
    else ready_words net folder cache q argv
