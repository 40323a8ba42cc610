-- ===== src/Pooled/Blocks/Examples.antt =====
-- The download of the first five bytes of a file from 10.0.0.2.
use pire2pire.Base.{◌<◌, ◌≡◌, refl, true, some, [], ◌∷◌, codes, decimal, replicate, strcmp, arith}
use pire2pire.Cmd.{is_a_delimiter}
use pire2pire.Cmd.Split.{join_spaces}
use pire2pire.FileCache.{Tree, leaf, node, Entry, file_cache_get_by_key}
use pire2pire.Handler.Identify.Address.{IsAddress}
use pire2pire.Requests.Receive.{received}
use pire2pire.Requests.Ready.Announced.{announcement}
use pire2pire.Pooled.Blocks.{complete, Net, downloaded, daemon_request_ready}
use pire2pire.Pooled.Blocks.Buffer.{Fits}
use pire2pire.Pooled.Blocks.Download.{
  CanReach, daemon_request_ready-one_chunk, daemon_request_ready-within,
}

abbrev entry : Entry
entry = record {
  filename = codes "a.txt";
  key = codes "k";
  size = 5;
  seeders = record { ip = codes "10.0.0.2"; port = 7331 } ∷ [];
  seeders_lock = 1;
}

abbrev cache : Tree
cache = node leaf entry leaf

abbrev net : Net
net = record {
  socket_succeeds = true;
  inet_pton = λ ip. some 9;
  open_succeeds = true;
  fdopen_succeeds = true;
  connect = λ a p. true;
  node = some 64;
  buffer = replicate 128 0;
  recvs = received (codes "abcde") ∷ [];
}

reachable : CanReach net (codes "10.0.0.2") 4242
reachable = record {
  address = 9;
  node = 64;
  makes_socket = refl;
  resolves = refl;
  opens = refl;
  streams = refl;
  connects = refl;
  allocates = refl;
}

first_bytes :
    daemon_request_ready net
      (codes "/s")
      cache
      []
      (join_spaces (announcement (codes "k") (codes "10.0.0.2") 4242 (decimal 0) (decimal 4)))
    ≡ downloaded
        (codes "/s/a.txt")
        (record { pieces = (0, codes "abcde") ∷ []; status = complete })
        []
unfolding is_a_delimiter IsAddress strcmp file_cache_get_by_key
first_bytes =
    daemon_request_ready-one_chunk net (codes "/s") cache [] entry (codes "k") (codes "10.0.0.2")
      4242 4 (codes "abcde") (refl, tt)
      (refl, (refl, (refl, (refl, (refl, (refl, (refl, (refl, tt)))))))) (omega arith) reachable
      refl refl (omega arith) refl refl

daemon_request_ready-within_example : 4 < 128
unfolding is_a_delimiter IsAddress strcmp file_cache_get_by_key Fits
daemon_request_ready-within_example =
    daemon_request_ready-within net 0 4 (codes "/s/a.txt")
      (record { pieces = (0, codes "abcde") ∷ []; status = complete }) [] (codes "/s") cache []
      (codes "k") (codes "10.0.0.2") 4242 (refl, tt)
      (refl, (refl, (refl, (refl, (refl, (refl, (refl, (refl, tt)))))))) (omega arith) (omega arith)
      refl (omega arith, tt) first_bytes refl
