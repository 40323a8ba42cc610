-- ===== src/Requests/Ready/Examples.antt =====
-- The download of a file of five bytes from 10.0.0.2.
use pire2pire.Base.{◌≡◌, refl, true, some, List, [], ◌∷◌, ◌++◌, map, Bytes, codes, strcmp, arith}
use pire2pire.Cmd.{is_a_delimiter}
use pire2pire.FileCache.{Tree, leaf, node, Entry, file_cache_get_by_key}
use pire2pire.Handler.Identify.{newline}
use pire2pire.Handler.Identify.Address.{IsAddress}
use pire2pire.Requests.Receive.{received, complete, whole_writes, concat, total}
use pire2pire.Requests.Serve.{ready_line, send_file, send_loop, subtract}
use pire2pire.Requests.Serve.Whole.{whole_sends}
use pire2pire.Requests.Ready.{Net, downloaded, daemon_request_ready}
use pire2pire.Requests.Ready.Announced.{CanReach, daemon_request_ready-ready_line}

abbrev entry : Entry
entry = record {
  filename = codes "a.txt";
  key = codes "k";
  size = 5;
  seeders = record { ip = codes "10.0.0.2"; port = 7331 } ∷ [];
  seeders_lock = 1;
}

abbrev cache : Tree
cache = node leaf entry leaf

abbrev read : List Bytes
read = codes "ab" ∷ codes "cde" ∷ []

abbrev arrived : List Bytes
arrived = codes "abcd" ∷ codes "e" ∷ []

abbrev net : Net
net = record {
  socket_succeeds = true;
  inet_pton = λ ip. some 9;
  open_succeeds = true;
  connect = λ a p. true;
  node = some 64;
  recvs = map received arrived;
  writes = whole_writes arrived;
}

reachable : CanReach net (codes "10.0.0.2") 4242
reachable = record {
  address = 9;
  node = 64;
  makes_socket = refl;
  resolves = refl;
  opens = refl;
  connects = refl;
  allocates = refl;
}

daemon_request_ready-ready_line_example :
    (cmd : Bytes) × (ready_line (codes "k") (codes "10.0.0.2") 4242 (codes "0") (codes "5")
      ≡ cmd ++ newline)
    × (daemon_request_ready net (codes "/s") cache [] cmd
        ≡ downloaded (codes "/s/a.txt") (record { file = codes "abcde"; status = complete }) [])
unfolding is_a_delimiter IsAddress strcmp concat total file_cache_get_by_key send_file send_loop
    subtract whole_sends
daemon_request_ready-ready_line_example =
    daemon_request_ready-ready_line net (codes "/s") cache [] entry (codes "k") (codes "10.0.0.2")
      4242 (codes "0") (codes "5") read arrived (refl, tt)
      (refl, (refl, (refl, (refl, (refl, (refl, (refl, (refl, tt)))))))) (omega arith) (refl, tt)
      (refl, tt) reachable refl (omega arith, (omega arith, tt)) (omega arith, (omega arith, tt))
      refl (omega arith) refl refl refl
