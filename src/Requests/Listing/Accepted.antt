-- ===== src/Requests/Listing/Accepted.antt =====
-- A file that `daemon_request_list` offers, in the cache of the daemon that asked for the list.
use pire2pire.Base.{
  if◌then◌else◌, ltb, Bool-cases, inl, inr, ℕ, ◌+◌, ◌-◌, ◌^◌, ◌≤◌, ◌<◌, ◌≡◌, ap, ◌∙◌, ◌%◌, true,
  false, none, some, List, [], ◌∷◌, ◌++◌, Bytes, codes, decimal, print_long, print_int,
  print_int-decimal, atol, atol-decimal, atol-negative, length, All, arith,
}
use pire2pire.CmdParser.Plain.{IsWord, join, is_option}
use pire2pire.FileCache.{Tree, System, file_cache_get_by_key, file_name_size, file_ip_size}
use pire2pire.Handler.Identify.{Peer, newline}
use pire2pire.Handler.Identify.Address.{IsAddress}
use pire2pire.Requests.Files.{
  added, asked, seeder_line, daemon_request_file, client_request_get, find_daemon,
}
use pire2pire.Requests.Files.Offered.{file_command, client_request_get-offered}
use pire2pire.Requests.Listing.{DirEntry, get_md5, full_path, list_entry, send, int_of_size}
use pire2pire.Requests.Listing.Key.{IsByte, get_md5-key}
use pire2pire.Requests.Listing.Offers.{list_entry-answer, file_command-words}

-- A daemon lists a regular file below 2^31 bytes, whose name holds no delimiter and starts no option,
-- whose MD5 digest has 16 bytes, from a dotted address and a port below 2^31, and path,
-- line, name and address have the sizes that the code allows. Then it sends one line; the daemon that
-- reads it while a client lists puts the file into its cache, when the key is not there and the lock
-- of the entry can be made; and a later "get KEY" asks the daemon connected from that address, if
-- one is, for the whole file.
pub client_request_get-list_entry :
    (folder : Bytes) (e : DirEntry) (key : Bytes) (size : ℕ) (ip : Bytes) (port : ℕ) (sys : System)
    (cache : Tree) (ds : List Peer) (d : Peer)
    → e.is_regular ≡ true
    → e.size ≡ some size
    → get_md5 e ≡ some key
    → All IsByte e.digest
    → length e.digest ≡ 16
    → IsWord e.name
    → is_option e.name ≡ false
    → IsAddress ip
    → port < 2 ^ 31
    → size < 2 ^ 31
    → length (full_path folder e) < 256
    → length (join (file_command e.name key size ip port) ++ newline) < 512
    → length e.name ≤ file_name_size
    → length ip ≤ file_ip_size
    → sys.sem_init_succeeds ≡ true
    → file_cache_get_by_key cache key ≡ none
    → find_daemon ip ds ≡ some d
    → (line : Bytes) × (list_entry folder ip port e ≡ send (line ++ newline))
      × (cache' : Tree) × (daemon_request_file sys true cache line
          ≡ added cache' (codes " < " ++ line ++ newline))
      × (client_request_get cache' ds (join (codes "get" ∷ key ∷ []))
          ≡ asked
              (seeder_line (record { ip = ip; port = port })
                ∷ seeder_line (record { ip = ip; port = port })
                ∷ [])
              d
              (codes "get " ++ key ++ codes " 0 " ++ print_long size ++ newline))
client_request_get-list_entry folder e key size ip port sys cache ds d r s k b m w o a p z f l nl il
      t c q =
    let (n, h, same) = get_md5-key e e key b b m k k in
    let (words, plain) = file_command-words e.name key size ip port w o n h a in
    let (cache', accepted, asks) =
      client_request_get-offered sys cache e.name key size ip port t words plain nl n il a p
        (omega arith) c in
    (
      join (file_command e.name key size ip port),
      list_entry-answer folder e key size ip port r s k f l p z,
      cache',
      accepted,
      asks ds d q,
    )

print_int-negative :
    (size : ℕ)
    → 2 ^ 31 ≤ size
    → size < 2 ^ 32
    → print_int (int_of_size size) ≡ b'-' ∷ decimal (2 ^ 32 - size)
unfolding print_int int_of_size
print_int-negative size l u = rw (small size u) ground arith
  where
    small : (n : ℕ) → n < 2 ^ 32 → n % 2 ^ 32 ≡ n
    small n h = omega arith

print_int-small : (size : ℕ) → size < 2 ^ 31 → print_int (int_of_size size) ≡ decimal size
unfolding int_of_size
print_int-small size z = rw (small size z) (print_int-decimal size z)
  where
    small : (n : ℕ) → n < 2 ^ 31 → n % 2 ^ 32 ≡ n
    small n h = omega arith

-- The size that `daemon_request_list` writes, as `daemon_request_file` reads it, is the size of the
-- file when that is below 2^31; the defect: for a file from 2^31 to 2^32 - 1 bytes it is
-- 2^64 - 2^32 more, since the size is written as a negative int.
pub atol-int_of_size :
    (size : ℕ)
    → size < 2 ^ 32
    → atol (print_int (int_of_size size))
      ≡ (if ltb size (2 ^ 31) then size else size + (2 ^ 64 - 2 ^ 32))
atol-int_of_size size u = elim (Bool-cases (ltb size (2 ^ 31))) [
  | inl e ↦
      rw e
        (ap atol (print_int-small size (ground (arith, e))) ∙ atol-decimal size (omega (arith, u)))
  | inr e ↦
      let l : 2 ^ 31 ≤ size = ground (arith, e) in
      rw e (
        ap atol (print_int-negative size l u)
        ∙ atol-negative (2 ^ 32 - size) (omega arith) (omega arith)
        ∙ omega arith)
]
