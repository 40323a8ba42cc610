-- ===== src/Requests/Listing/Examples.antt =====
-- A file of five bytes in the folder /s.
use pire2pire.Base.{
  ◌≡◌, refl, true, some, [], ◌∷◌, ◌++◌, Bytes, codes, str_eq, All, print_long, decimal, numeral,
  arith,
}
use pire2pire.CmdParser.{is_a_delimiter}
use pire2pire.CmdParser.Plain.{join, is_option}
use pire2pire.FileCache.{Tree, leaf, System, file_cache_get_by_key}
use pire2pire.Handler.Identify.{Peer, newline}
use pire2pire.Handler.Identify.Address.{IsAddress}
use pire2pire.Requests.Files.{
  added, asked, seeder_line, daemon_request_file, client_request_get, find_daemon,
}
use pire2pire.Requests.Files.Offered.{file_command}
use pire2pire.Requests.Listing.{
  DirEntry, get_md5, hex, hex_byte, hex_digit, full_path, list_entry, send,
}
use pire2pire.Requests.Listing.Accepted.{client_request_get-list_entry}
use pire2pire.Requests.Listing.Key.{IsByte}

abbrev system : System
system = record { sem_init_succeeds = true; malloc_succeeds = true }

abbrev shared : DirEntry
shared = record {
  is_regular = true;
  name = codes "a.txt";
  size = some 5;
  digest =
      1 ∷ 35 ∷ 69 ∷ 103 ∷ 137 ∷ 171 ∷ 205 ∷ 239 ∷ 1 ∷ 35 ∷ 69 ∷ 103 ∷ 137 ∷ 171 ∷ 205 ∷ 239 ∷ [];
  has_memory = true;
}

abbrev shared_key : Bytes
shared_key = codes "0123456789abcdef0123456789abcdef"

shared-IsByte : All IsByte shared.digest
shared-IsByte = (
  omega arith,
  (
    omega arith,
    (
      omega arith,
      (
        omega arith,
        (
          omega arith,
          (
            omega arith,
            (
              omega arith,
              (
                omega arith,
                (
                  omega arith,
                  (
                    omega arith,
                    (
                      omega arith,
                      (omega arith, (omega arith, (omega arith, (omega arith, (omega arith, tt))))),
                    ),
                  ),
                ),
              ),
            ),
          ),
        ),
      ),
    ),
  ),
)

shared_md5 : get_md5 shared ≡ some shared_key
unfolding get_md5 hex hex_byte hex_digit
shared_md5 = refl

abbrev seeder : Peer
seeder = record { addr = codes "10.0.0.2"; port = 7331 }

client_request_get-list_entry_example :
    (line : Bytes) × (list_entry (codes "/s") (codes "10.0.0.2") 7331 shared
      ≡ send (line ++ newline))
    × (cache' : Tree) × (daemon_request_file system true leaf line
        ≡ added cache' (codes " < " ++ line ++ newline))
    × (client_request_get cache' (seeder ∷ []) (join (codes "get" ∷ shared_key ∷ []))
        ≡ asked
            (seeder_line (record { ip = codes "10.0.0.2"; port = 7331 })
              ∷ seeder_line (record { ip = codes "10.0.0.2"; port = 7331 })
              ∷ [])
            seeder
            (codes "get " ++ shared_key ++ codes " 0 " ++ print_long 5 ++ newline))
unfolding is_option is_a_delimiter IsAddress full_path join file_command decimal numeral
    file_cache_get_by_key find_daemon str_eq
client_request_get-list_entry_example =
    client_request_get-list_entry (codes "/s") shared shared_key 5 (codes "10.0.0.2") 7331 system
      leaf (seeder ∷ []) seeder refl refl shared_md5 shared-IsByte refl
      (refl, (refl, (refl, (refl, (refl, (refl, tt)))))) refl
      (refl, (refl, (refl, (refl, (refl, (refl, (refl, (refl, tt)))))))) (omega arith) (omega arith)
      (omega arith) (omega arith) (omega arith) (omega arith) refl refl refl
