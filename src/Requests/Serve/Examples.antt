-- ===== src/Requests/Serve/Examples.antt =====
-- A daemon that serves a file of five bytes.
use pire2pire.Base.{
  ℕ, ◌≡◌, refl, true, some, List, [], ◌∷◌, ◌++◌, map, Bytes, codes, str_eq, print_int, print_long,
  decimal, numeral, length, All, arith,
}
use pire2pire.CmdParser.Plain.{join}
use pire2pire.Handler.Identify.{newline}
use pire2pire.Requests.Listing.{DirEntry, get_md5, hex, full_path}
use pire2pire.Requests.Listing.Key.{IsByte, is_hex, get_md5-key}
use pire2pire.Requests.Receive.{
  received, complete as downloaded, download_loop, whole_writes, concat, total,
}
use pire2pire.Requests.Serve.{
  Calls, announced, ready_line, daemon_request_get, got, complete, send_file, send_loop, subtract,
}
use pire2pire.Requests.Serve.Find.{HasSize, get_command, daemon_request_get-get_command}
use pire2pire.Requests.Serve.Whole.{whole_sends, download_loop-send_file}

abbrev shared : DirEntry
shared = record {
  is_regular = true;
  name = codes "a.txt";
  size = some 5;
  digest =
      1 ∷ 35 ∷ 69 ∷ 103 ∷ 137 ∷ 171 ∷ 205 ∷ 239 ∷ 1 ∷ 35 ∷ 69 ∷ 103 ∷ 137 ∷ 171 ∷ 205 ∷ 239 ∷ [];
  has_memory = true;
}

abbrev shared_key : Bytes
shared_key = hex shared.digest

shared-IsByte : All IsByte shared.digest
shared-IsByte = (
  omega arith,
  (
    omega arith,
    (
      omega arith,
      (
        omega arith,
        (
          omega arith,
          (
            omega arith,
            (
              omega arith,
              (
                omega arith,
                (
                  omega arith,
                  (
                    omega arith,
                    (
                      omega arith,
                      (omega arith, (omega arith, (omega arith, (omega arith, (omega arith, tt))))),
                    ),
                  ),
                ),
              ),
            ),
          ),
        ),
      ),
    ),
  ),
)

shared_md5 : get_md5 shared ≡ some shared_key
unfolding get_md5
shared_md5 = refl

key_lem :
    (length shared_key ≡ 32)
    × All (λ c. is_hex c ≡ true) shared_key
    × (shared.digest ≡ shared.digest)
key_lem =
    get_md5-key shared shared shared_key shared-IsByte shared-IsByte refl shared_md5 shared_md5

abbrev calls : Calls
calls = record {
  dir = some (shared ∷ []);
  closedir_succeeds = true;
  open_succeeds = true;
  listen_port = some 4242;
}

daemon_request_get-get_command_example :
    (s : ℕ) × HasSize shared_key s (shared ∷ [])
    × (codes "get " ++ shared_key ++ codes " 0 " ++ print_long 5 ++ newline
        ≡ join (get_command shared_key 5) ++ newline)
    × (daemon_request_get (codes "/s") (codes "10.0.0.2") calls (join (get_command shared_key 5))
        ≡ announced (ready_line shared_key (codes "10.0.0.2") 4242 (codes "0") (decimal 5)) s)
unfolding full_path str_eq get_md5 hex ready_line decimal numeral print_int
daemon_request_get-get_command_example =
    daemon_request_get-get_command (codes "/s") (codes "10.0.0.2") calls (shared ∷ []) shared_key 5
      4242 key_lem.0 key_lem.1 refl refl refl refl ((omega arith, refl), tt) refl (omega arith)
      (omega arith)

abbrev read : List Bytes
read = codes "ab" ∷ codes "cde" ∷ []

abbrev arrived : List Bytes
arrived = codes "abcd" ∷ codes "e" ∷ []

download_loop-send_file_example :
    (send_file 5 (map got read) (whole_sends read)
      ≡ record { bytes = codes "abcde"; status = complete })
    × (download_loop 5 0 (map received arrived) (whole_writes arrived)
        ≡ record { file = codes "abcde"; status = downloaded })
unfolding concat total send_file send_loop subtract whole_sends
download_loop-send_file_example =
    download_loop-send_file 5 read arrived (omega arith, (omega arith, tt))
      (omega arith, (omega arith, tt)) refl (omega arith) refl
