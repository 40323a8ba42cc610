-- ===== src/Requests/Ready/Announced.antt =====
-- The line by which `daemon_request_get` announces a file, as `daemon_request_ready` takes it.
use mathlib.Core.List.{append_assoc}
use pire2pire.Base.{
  ℕ, ◌%◌, ◌^◌, ◌<◌, ◌≡◌, refl, true, false, ◌||◌, some, List, [], ◌∷◌, ◌++◌, Bytes, codes, map,
  ◌==◌, is_digit, decimal, decimal-IsNumeral, IsNumeral, atoi, atoi-decimal, print_int-decimal, All,
  All-map, arith,
}
use pire2pire.Cmd.{is_a_delimiter}
use pire2pire.Cmd.Split.{join_spaces, IsPiece, cmd_to_argc_argv-join_spaces}
use pire2pire.FileCache.{Tree, Entry, file_cache_get_by_key}
use pire2pire.Handler.Identify.{newline}
use pire2pire.Handler.Identify.Address.{IsAddress}
use pire2pire.Requests.Receive.{
  received, complete, download_loop, whole_writes, concat, total, IsNonempty,
}
use pire2pire.Requests.Serve.{ready_line, send_file, got}
use pire2pire.Requests.Serve.Whole.{whole_sends, download_loop-send_file}
use pire2pire.Requests.Ready.{
  DlFile, dl_file_new, dl_file_add, dl_file_remove, Net, downloaded, after_loop, receive, path_of,
  connect_to, look_up, ready_words, daemon_request_ready,
}

-- The words of the announcement.
unfoldable pub announcement : Bytes → Bytes → ℕ → Bytes → Bytes → List Bytes
announcement key ip port begin end' =
    codes "ready" ∷ key ∷ codes "0" ∷ ip ∷ decimal port ∷ codes "tcp" ∷ begin ∷ end' ∷ []

pub ready_line-join :
    (key ip : Bytes) (port : ℕ) (begin end' : Bytes)
    → port < 2 ^ 31
    → ready_line key ip port begin end'
      ≡ join_spaces (announcement key ip port begin end') ++ newline
unfolding ready_line announcement join_spaces
ready_line-join key ip port begin end' p = rw (print_int-decimal port p) simp append_assoc

digit-piece : (d : ℕ) → is_digit d ≡ true → is_a_delimiter d ≡ false
unfolding is_a_delimiter
digit-piece d h = ground arith

address-piece : (d : ℕ) → (is_digit d || d == b'.') ≡ true → is_a_delimiter d ≡ false
unfolding is_a_delimiter
address-piece d h = ground arith

pub numeral-IsPiece : (w : Bytes) → IsNumeral w → IsPiece w
unfolding IsNumeral
numeral-IsPiece [] h = tt
numeral-IsPiece (c ∷ cs) h = All-map digit-piece (c ∷ cs) h

pub address-IsPiece : (w : Bytes) → IsAddress w → IsPiece w
unfolding IsAddress
address-IsPiece [] h = tt
address-IsPiece (c ∷ cs) h = All-map address-piece (c ∷ cs) h

pub announcement-pieces :
    (key ip : Bytes) (port : ℕ) (begin end' : Bytes)
    → IsPiece key
    → IsAddress ip
    → IsPiece begin
    → IsPiece end'
    → All IsPiece (announcement key ip port begin end')
unfolding announcement is_a_delimiter
announcement-pieces key ip port begin end' k a b e = (
  (refl, (refl, (refl, (refl, (refl, tt))))),
  (
    k,
    (
      (refl, tt),
      (
        address-IsPiece ip a,
        (
          numeral-IsPiece (decimal port) (decimal-IsNumeral port),
          ((refl, (refl, (refl, tt))), (b, (e, tt))),
        ),
      ),
    ),
  ),
)

-- The other daemon can be reached, and the file written.
pub record CanReach (net : Net) (ip : Bytes) (port : ℕ) : Type 0 where
  pub address : ℕ
  pub node : ℕ
  pub makes_socket : net.socket_succeeds ≡ true
  pub resolves : net.inet_pton ip ≡ some address
  pub opens : net.open_succeeds ≡ true
  pub connects : net.connect address port ≡ true
  pub allocates : net.node ≡ some node

receive_lem :
    (net : Net) (q : List DlFile) (size a : ℕ) (path : Bytes) (file : Bytes)
    → download_loop size 0 net.recvs net.writes ≡ record { file = file; status = complete }
    → receive net q size (dl_file_new (some a) path size)
      ≡ downloaded path (record { file = file; status = complete }) q
unfolding receive dl_file_new dl_file_add after_loop dl_file_remove
receive_lem net q size a path file d = rw d ground arith

pub htons_port : (port : ℕ) → port < 2 ^ 16 → atoi (decimal port) % 2 ^ 16 ≡ port
htons_port port p = omega (arith, atoi-decimal port (omega arith))

ready_words_lem :
    (net : Net) (folder : Bytes) (cache : Tree) (q : List DlFile) (e : Entry) (key ip : Bytes)
    (port : ℕ) (begin end' file : Bytes)
    → port < 2 ^ 16
    → CanReach net ip port
    → file_cache_get_by_key cache key ≡ some e
    → download_loop e.size 0 net.recvs net.writes ≡ record { file = file; status = complete }
    → ready_words net folder cache q (announcement key ip port begin end')
      ≡ downloaded (path_of folder e) (record { file = file; status = complete }) q
unfolding ready_words announcement look_up connect_to
ready_words_lem net folder cache q e key ip port begin end' file p can f d =
    rw (can.makes_socket, can.resolves, htons_port port p)
      (rw (f, can.opens, can.connects, can.allocates)
        (receive_lem net q e.size can.node (path_of folder e) file d))

-- The line of `daemon_request_get` without its newline, given to `daemon_request_ready`, downloads
-- the file: IP is a dotted address, PORT is below 2^16, and key, beginning and end hold no space;
-- the key is in the cache with the size of the file, below 2^64 bytes; the file can be opened and the other daemon
-- be reached; the sender reads chunks that are not empty and add up to the size, each `send` and
-- each `write` takes the whole buffer, and the bytes sent are received in chunks that are not empty.
-- Then what is written is the file, and the list of downloads is again what it was.
pub daemon_request_ready-ready_line :
    (net : Net) (folder : Bytes) (cache : Tree) (q : List DlFile) (e : Entry) (key ip : Bytes)
    (port : ℕ) (begin end' : Bytes) (cs cs' : List Bytes)
    → IsPiece key
    → IsAddress ip
    → port < 2 ^ 16
    → IsPiece begin
    → IsPiece end'
    → CanReach net ip port
    → file_cache_get_by_key cache key ≡ some e
    → All IsNonempty cs
    → All IsNonempty cs'
    → total cs ≡ e.size
    → e.size < 2 ^ 64
    → concat cs' ≡ (send_file e.size (map got cs) (whole_sends cs)).bytes
    → net.recvs ≡ map received cs'
    → net.writes ≡ whole_writes cs'
    → (cmd : Bytes) × (ready_line key ip port begin end' ≡ cmd ++ newline)
      × (daemon_request_ready net folder cache q cmd
          ≡ downloaded
              (folder ++ b'/' ∷ e.filename)
              (record { file = concat cs; status = complete })
              q)
unfolding daemon_request_ready announcement path_of
daemon_request_ready-ready_line net folder cache q e key ip port begin end' cs cs' k a p b n can f h
      h' t z s r w =
    (
      join_spaces (announcement key ip port begin end'),
      ready_line-join key ip port begin end' (omega arith),
      rw
          (cmd_to_argc_argv-join_spaces (codes "ready") _
            (announcement-pieces key ip port begin end' k a b n))
          (ready_words_lem net folder cache q e key ip port begin end' (concat cs) p can f
            (rw (r, w) ((download_loop-send_file e.size cs cs' h h' t z s).1))),
    )
