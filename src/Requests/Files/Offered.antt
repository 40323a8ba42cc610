-- ===== src/Requests/Files/Offered.antt =====
-- A file that a daemon offers can be asked for.
use pire2pire.Base.{
  ℕ, ◌^◌, ◌<◌, ◌≤◌, ◌≡◌, refl, ap, ◌∙◌, true, false, none, some, List, [], ◌∷◌, ◌++◌, Bytes, codes,
  decimal, atoi-decimal, atol-decimal, length, print_long, All, arith,
}
use pire2pire.CmdParser.{is_a_delimiter, Parsed, parsed}
use pire2pire.CmdParser.Plain.{cmd_parse-join, IsWord, join, any_option, is_option}
use pire2pire.FileCache.{
  Tree, System, Entry, done, file_cache_add, file_cache_get_by_key, file_key_size, file_name_size,
  file_ip_size,
}
use pire2pire.FileCache.Lookup.{add-found}
use pire2pire.Handler.Identify.{Peer, newline}
use pire2pire.Handler.Identify.Address.{IsAddress, endpoint, strchr-endpoint}
use pire2pire.Requests.Files.{
  added, daemon_request_file, file_parsed, file_words, asked, client_request_get, get_parsed,
  find_file, found, ask_seeder, find_daemon, get_line, seeder_line,
}

-- What a daemon sends to offer a file.
unfoldable pub file_command : Bytes → Bytes → ℕ → Bytes → ℕ → List Bytes
file_command name key size ip port =
    codes "file" ∷ name ∷ key ∷ decimal size ∷ endpoint ip port ∷ []

file_words-added :
    (sys : System) (cache cache' : Tree) (cmd name key : Bytes) (size : ℕ) (ip : Bytes) (port : ℕ)
    → IsAddress ip
    → port < 2 ^ 31
    → size < 2 ^ 63
    → file_cache_add sys name key size ip port cache ≡ done cache'
    → file_words sys cache cmd (file_command name key size ip port)
      ≡ added cache' (codes " < " ++ cmd ++ newline)
unfolding file_words file_command IsAddress
file_words-added sys cache cache' cmd name key size [] port a p z h = absurd (ground arith)
file_words-added sys cache cache' cmd name key size (c ∷ cs) port a p z h =
    ground (
      arith,
      strchr-endpoint (c ∷ cs) (decimal port) a,
      atoi-decimal port p,
      atol-decimal size z,
      h,
    )

abbrev parsed_words : List Bytes → Parsed
parsed_words ws =
    parsed (record { nb_template_options = 0; options = []; argc = length ws; argv = ws })

file_parsed-words :
    (sys : System) (cache : Tree) (cmd name key : Bytes) (size : ℕ) (ip : Bytes) (port : ℕ)
    → file_parsed sys cache cmd (parsed_words (file_command name key size ip port))
      ≡ file_words sys cache cmd (file_command name key size ip port)
unfolding file_parsed file_command
file_parsed-words sys cache cmd name key size ip port = refl

get_parsed-key :
    (cache : Tree) (ds : List Peer) (key : Bytes)
    → length key ≡ file_key_size
    → get_parsed cache ds (parsed_words (codes "get" ∷ key ∷ []))
      ≡ found ds (file_cache_get_by_key cache key)
unfolding get_parsed find_file
get_parsed-key cache ds key h = rw h refl

found-seeder :
    (ds : List Peer) (e : Entry) (ip : Bytes) (port : ℕ) (d : Peer)
    → e.seeders ≡ record { ip = ip; port = port } ∷ []
    → find_daemon ip ds ≡ some d
    → found ds (some e)
      ≡ asked
          (seeder_line (record { ip = ip; port = port })
            ∷ seeder_line (record { ip = ip; port = port })
            ∷ [])
          d
          (get_line e)
unfolding found ask_seeder
found-seeder ds e ip port d s f = ground arith

get-IsWord : IsWord (codes "get")
unfolding is_a_delimiter
get-IsWord = (refl, (refl, (refl, (refl, tt))))

get-no_option :
    (name key : Bytes) (ws : List Bytes)
    → any_option (codes "file" ∷ name ∷ key ∷ ws) ≡ false
    → any_option (codes "get" ∷ key ∷ []) ≡ false
unfolding any_option is_option
get-no_option name key ws h = ground arith

-- A daemon offers a file by "file NAME KEY SIZE IP:PORT" while a client lists: its words hold no
-- delimiter and start no option, name, key and address have the sizes that the cache allows, IP is
-- a dotted address, PORT is below 2^31 and SIZE below 2^63, the key is not in the cache, and the
-- lock of the entry can be made. Then the offer is in the cache, and a later "get KEY" asks the
-- daemon that is connected from IP, if one is, for the whole file.
pub client_request_get-offered :
    (sys : System) (cache : Tree) (name key : Bytes) (size : ℕ) (ip : Bytes) (port : ℕ)
    → sys.sem_init_succeeds ≡ true
    → All IsWord (file_command name key size ip port)
    → any_option (file_command name key size ip port) ≡ false
    → length name ≤ file_name_size
    → length key ≡ file_key_size
    → length ip ≤ file_ip_size
    → IsAddress ip
    → port < 2 ^ 31
    → size < 2 ^ 63
    → file_cache_get_by_key cache key ≡ none
    → (cache' : Tree) × (daemon_request_file sys true cache
          (join (file_command name key size ip port))
        ≡ added cache' (codes " < " ++ join (file_command name key size ip port) ++ newline))
      × ((ds : List Peer) (d : Peer)
          → find_daemon ip ds ≡ some d
          → client_request_get cache' ds (join (codes "get" ∷ key ∷ []))
            ≡ asked
                (seeder_line (record { ip = ip; port = port })
                  ∷ seeder_line (record { ip = ip; port = port })
                  ∷ [])
                d
                (codes "get " ++ key ++ codes " 0 " ++ print_long size ++ newline))
unfolding daemon_request_file client_request_get get_line file_command any_option
client_request_get-offered sys cache name key size ip port s w o n k l a p z h =
    let (cache', e, g) = add-found sys name key size ip port cache s n k l h in
    (
      cache',
      ap (file_parsed sys cache _) (cmd_parse-join (codes "file") _ w o)
          ∙ file_parsed-words sys cache _ name key size ip port
          ∙ file_words-added sys cache cache' _ name key size ip port a p z e,
      λ ds d f.
          ap (get_parsed cache' ds) (
            cmd_parse-join (codes "get") (key ∷ []) (get-IsWord, (w.1.1.0, tt))
              (get-no_option name key (decimal size ∷ endpoint ip port ∷ []) o))
          ∙ get_parsed-key cache' ds key k
          ∙ ap (found ds) g
          ∙ found-seeder ds
              (record {
                filename = name;
                key = key;
                size = size;
                seeders = record { ip = ip; port = port } ∷ [];
                seeders_lock = 1;
              })
              ip port d refl f,
    )
