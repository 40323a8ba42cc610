-- ===== src/Pooled/Blocks/Download.antt =====
-- A whole "ready" command for a block, as daemon_request_ready.c takes it.
use pire2pire.Base.{
  ℕ, ◌+◌, ◌-◌, ◌%◌, ◌^◌, ◌<◌, ◌≤◌, ◌≡◌, ap, ◌∙◌, sym, true, Option, none, some, List, [], ◌∷◌, ◌++◌,
  Bytes, codes, decimal, decimal-IsNumeral, atoi, atoi-decimal, length, All, arith,
}
use pire2pire.Cmd.{cmd_to_argc_argv}
use pire2pire.Cmd.Split.{join_spaces, IsPiece, cmd_to_argc_argv-join_spaces}
use pire2pire.FileCache.{Tree, Entry, file_cache_get_by_key}
use pire2pire.Handler.Identify.Address.{IsAddress}
use pire2pire.Requests.Receive.{Recv, received, recv_failed}
use pire2pire.Requests.Ready.{DlFile, dl_file_new, dl_file_add, dl_file_remove}
use pire2pire.Requests.Ready.Announced.{
  announcement, announcement-pieces, numeral-IsPiece, htons_port,
}
use pire2pire.Pooled.Blocks.{
  buffsize, complete, Block, Net, downloaded, block_loop, after_loop, without_stream, receive,
  connect_to, look_up, has_bad_bounds, path_of, ready_words, daemon_request_ready,
}
use pire2pire.Pooled.Blocks.Buffer.{Fits, block_loop-within, block_loop-one_chunk}

block_words :
    (key ip : Bytes) (port begin end' : ℕ)
    → IsPiece key
    → IsAddress ip
    → cmd_to_argc_argv (join_spaces (announcement key ip port (decimal begin) (decimal end')))
      ≡ announcement key ip port (decimal begin) (decimal end')
unfolding announcement
block_words key ip port begin end' k a = cmd_to_argc_argv-join_spaces (codes "ready") _ (
    announcement-pieces key ip port (decimal begin) (decimal end') k a
      (numeral-IsPiece (decimal begin) (decimal-IsNumeral begin))
      (numeral-IsPiece (decimal end') (decimal-IsNumeral end')))

module _ (net : Net) (begin end' : ℕ) (path : Bytes) (b : Block) (q' : List DlFile) where
  -- What is downloaded is what the loop wrote.
  abbrev Loops : Type 0
  Loops = b ≡ block_loop net.buffer begin (end' + 1 - begin) 0 net.recvs

  without_stream-Loops :
      (p : Bytes) (q : List DlFile) (rs : List Recv)
      → begin ≤ end'
      → without_stream p q rs ≡ downloaded path b q'
      → b ≡ block_loop net.buffer begin (end' + 1 - begin) 0 rs
  unfolding without_stream block_loop
  without_stream-Loops p q [] o h = ground (arith, o, h)
  without_stream-Loops p q (recv_failed ∷ rs) o h = ground (arith, o, h)
  without_stream-Loops p q (received c ∷ rs) o h = absurd (ground (arith, h))

  receive-Loops :
      (q : List DlFile) (f : Option DlFile)
      → begin ≤ end'
      → receive net q begin end' f ≡ downloaded path b q'
      → Loops
  unfolding receive
  receive-Loops q none o h = absurd (ground arith)
  receive-Loops q (some f) o h =
      ground (arith, h, without_stream-Loops f.path (dl_file_add q f) net.recvs o)

  connect_to-Loops :
      (folder : Bytes) (q : List DlFile) (ip port : ℕ) (e : Option Entry)
      → begin ≤ end'
      → connect_to net folder q ip port begin end' e ≡ downloaded path b q'
      → Loops
  unfolding connect_to
  connect_to-Loops folder q ip port none o h = absurd (ground arith)
  connect_to-Loops folder q ip port (some e) o h =
      receive-Loops q (dl_file_new net.node (path_of folder e) e.size) o (ground arith)

  look_up-Loops :
      (folder : Bytes) (cache : Tree) (q : List DlFile) (key : Bytes) (ip : Option ℕ) (port : ℕ)
      → begin ≤ end'
      → look_up net folder cache q key begin end' ip port ≡ downloaded path b q'
      → Loops
  unfolding look_up
  look_up-Loops folder cache q key none port o h = absurd (ground arith)
  look_up-Loops folder cache q key (some ip) port o h =
      connect_to-Loops folder q ip port (file_cache_get_by_key cache key) o h

  ready_words-Loops :
      (folder : Bytes) (cache : Tree) (q : List DlFile) (key ip : Bytes) (port : ℕ)
      → begin < 2 ^ 31
      → end' < 2 ^ 31
      → ready_words net folder cache q (announcement key ip port (decimal begin) (decimal end'))
        ≡ downloaded path b q'
      → (begin ≤ end') × Loops
  unfolding ready_words announcement has_bad_bounds
  ready_words-Loops folder cache q key ip port l m h =
      let o : begin ≤ end' = ground (arith, atoi-decimal begin l, atoi-decimal end' m) in
      (
        o,
        look_up-Loops folder cache q key (net.inet_pton ip) (atoi (decimal port) % 2 ^ 16) o
            (ground (arith, atoi-decimal begin l, atoi-decimal end' m)),
      )

  -- The defect: the loop reads the buffer at the block's position in the file. IP is a dotted address,
  -- the key holds no space, both bounds are below 2^31, the buffer has the size of the array, and
  -- no `recv` gives more than that. Then, when the loop over a block comes to its end, the block ends within
  -- the first 128 bytes of the file.
  pub daemon_request_ready-within :
      (folder : Bytes) (cache : Tree) (q : List DlFile) (key ip : Bytes) (port : ℕ)
      → IsPiece key
      → IsAddress ip
      → begin < 2 ^ 31
      → end' < 2 ^ 31
      → length net.buffer ≡ buffsize
      → All (Fits buffsize) net.recvs
      → daemon_request_ready net folder cache q
          (join_spaces (announcement key ip port (decimal begin) (decimal end')))
        ≡ downloaded path b q'
      → b.status ≡ complete
      → end' < buffsize
  unfolding daemon_request_ready announcement
  daemon_request_ready-within folder cache q key ip port k a l m z f h s =
      let same = block_words key ip port begin end' k a in
      let (o, e) = ready_words-Loops folder cache q key ip port l m (ground (arith, same, h)) in
      omega (
        arith,
        o,
        z,
        block_loop-within net.recvs net.buffer begin (end' + 1 - begin) 0 (omega (arith, o))
            (rw z f) (sym (ap (λ b. b.status) e) ∙ s),
      )

-- The other daemon can be reached, and a stream be made of the descriptor.
pub record CanReach (net : Net) (ip : Bytes) (port : ℕ) : Type 0 where
  pub address : ℕ
  pub node : ℕ
  pub makes_socket : net.socket_succeeds ≡ true
  pub resolves : net.inet_pton ip ≡ some address
  pub opens : net.open_succeeds ≡ true
  pub streams : net.fdopen_succeeds ≡ true
  pub connects : net.connect address port ≡ true
  pub allocates : net.node ≡ some node

receive_lem :
    (net : Net) (q : List DlFile) (end' size a : ℕ) (path : Bytes) (ps : List (ℕ × Bytes))
    → net.fdopen_succeeds ≡ true
    → end' + 1 < 2 ^ 31
    → block_loop net.buffer 0 (end' + 1) 0 net.recvs ≡ record { pieces = ps; status = complete }
    → receive net q 0 end' (dl_file_new (some a) path size)
      ≡ downloaded path (record { pieces = ps; status = complete }) q
unfolding receive dl_file_new dl_file_add after_loop dl_file_remove
receive_lem net q end' size a path ps s l d = ground (arith, d)

ready_words_lem :
    (net : Net) (folder : Bytes) (cache : Tree) (q : List DlFile) (e : Entry) (key ip : Bytes)
    (port end' : ℕ) (ps : List (ℕ × Bytes))
    → port < 2 ^ 16
    → end' + 1 < 2 ^ 31
    → CanReach net ip port
    → file_cache_get_by_key cache key ≡ some e
    → block_loop net.buffer 0 (end' + 1) 0 net.recvs ≡ record { pieces = ps; status = complete }
    → ready_words net folder cache q (announcement key ip port (decimal 0) (decimal end'))
      ≡ downloaded (path_of folder e) (record { pieces = ps; status = complete }) q
unfolding ready_words announcement look_up connect_to has_bad_bounds
ready_words_lem net folder cache q e key ip port end' ps p l can f d = ground (
  arith,
  htons_port port p,
  atoi-decimal 0 (omega arith),
  atoi-decimal end' (omega (arith, l)),
  f,
  can.makes_socket,
  can.resolves,
  can.opens,
  can.connects,
  can.allocates,
  receive_lem net q end' e.size can.node (path_of folder e) ps can.streams l d,
)

-- Where the other daemon can be reached and a stream be made of the descriptor, and the key is in
-- the cache: IP is a dotted address, PORT is below 2^16, the key holds no space, and the block from 0
-- comes in one chunk that fits the buffer and is not empty. Then the chunk is given to the stream at the
-- start of the file, and the list of downloads is again what it was.
pub daemon_request_ready-one_chunk :
    (net : Net) (folder : Bytes) (cache : Tree) (q : List DlFile) (e : Entry) (key ip : Bytes)
    (port end' : ℕ) (c : Bytes)
    → IsPiece key
    → IsAddress ip
    → port < 2 ^ 16
    → CanReach net ip port
    → file_cache_get_by_key cache key ≡ some e
    → length c ≡ end' + 1
    → length c ≤ length net.buffer
    → length net.buffer ≡ buffsize
    → net.recvs ≡ received c ∷ []
    → daemon_request_ready net folder cache q
        (join_spaces (announcement key ip port (decimal 0) (decimal end')))
      ≡ downloaded
          (folder ++ b'/' ∷ e.filename)
          (record { pieces = (0, c) ∷ []; status = complete })
          q
unfolding daemon_request_ready announcement path_of
daemon_request_ready-one_chunk net folder cache q e key ip port end' c k a p can f n h z r =
    ground (
      arith,
      block_words key ip port 0 end' k a,
      ready_words_lem net folder cache q e key ip port end' ((0, c) ∷ []) p (omega (arith, n, h, z))
          can f (rw (r, sym n) (block_loop-one_chunk c net.buffer (omega arith) h)),
    )
