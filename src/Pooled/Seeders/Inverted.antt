-- ===== src/Pooled/Seeders/Inverted.antt =====
-- What client_request_get.c of branches/block_by_block answers for a file that is in the cache.
use pire2pire.Base.{
  ℕ, suc, ◌≡◌, refl, ap, ◌∙◌, Bool, true, false, ◌||◌, none, some, List, [], ◌∷◌, ◌++◌, Bytes,
  codes, str_eq, if◌then◌else◌, length, arith,
}
use pire2pire.CmdParser.{is_a_delimiter, parsed}
use pire2pire.CmdParser.Plain.{cmd_parse-join, IsWord, join, any_option}
use pire2pire.FileCache.{Tree, Entry, Seeder, file_cache_get_by_key, file_key_size}
use pire2pire.Handler.Identify.{Peer}
use pire2pire.Requests.Files.{find_daemon, seeder_line}
use pire2pire.Pooled.Seeders.{
  DaemonItem, find_daemons_from, find_daemons, told, crashed, no_seeder_line, after_search,
  ask_seeders, found, find_file, get_parsed, client_request_get,
}

-- Some daemon is connected from the address.
unfoldable pub is_connected : Bytes → List Peer → Bool
is_connected addr [] = false
is_connected addr (d ∷ ds) = str_eq d.addr addr || is_connected addr ds

unfoldable pub has_connected : List Peer → List Seeder → Bool
unfolding is_connected
has_connected ds [] = false
has_connected ds (s ∷ ss) = is_connected s.ip ds || has_connected ds ss

is_empty : List DaemonItem → Bool
is_empty [] = true
is_empty (d ∷ l) = false

find_daemon-connected :
    (addr : Bytes) (ds : List Peer)
    → (elim (find_daemon addr ds) [ none ↦ false | some d ↦ true ]) ≡ is_connected addr ds
unfolding find_daemon is_connected
find_daemon-connected addr [] = refl
find_daemon-connected addr (d ∷ ds) = ground (arith, find_daemon-connected addr ds)

find_daemons_from-is_empty :
    (ds : List Peer) (ss : List Seeder) (n : ℕ) (l : List DaemonItem)
    → is_empty (find_daemons_from ds ss n l) ≡ (if has_connected ds ss then false else is_empty l)
unfolding find_daemons_from has_connected is_empty
find_daemons_from-is_empty ds [] n l = refl
find_daemons_from-is_empty ds (s ∷ ss) n l =
    elim (find_daemon s.ip ds)
        as (λ o.
          find_daemon s.ip ds ≡ o
          → is_empty (elim o [
            | none ↦ find_daemons_from ds ss (suc n) l
            | some d ↦ find_daemons_from ds ss (suc n) (record { id = suc n; daemon = d } ∷ l)
          ])
            ≡ (if is_connected s.ip ds || has_connected ds ss then false else is_empty l)) [
              | none ↦ λ e. ground (
                arith,
                e,
                find_daemon-connected s.ip ds,
                find_daemons_from-is_empty ds ss (suc n) l,
              )
              | some d ↦ λ e. ground (
                arith,
                e,
                find_daemon-connected s.ip ds,
                find_daemons_from-is_empty ds ss (suc n) (record { id = suc n; daemon = d } ∷ l),
              )
            ]
      refl

after_search_lem :
    (lines : List Bytes) (l : List DaemonItem)
    → after_search lines l
      ≡ (if is_empty l then crashed lines else told (lines ++ no_seeder_line ∷ []))
unfolding after_search is_empty
after_search_lem lines [] = refl
after_search_lem lines (d ∷ l) = refl

get_parsed-key :
    (cache : Tree) (ds : List Peer) (key : Bytes)
    → length key ≡ file_key_size
    → get_parsed cache ds (
        parsed (record {
          nb_template_options = 0;
          options = [];
          argc = 2;
          argv = codes "get" ∷ key ∷ [];
        }))
      ≡ found ds (file_cache_get_by_key cache key)
unfolding get_parsed find_file
get_parsed-key cache ds key h = rw h refl

after_search-find_daemons :
    (ds : List Peer) (ss : List Seeder) (lines : List Bytes)
    → after_search lines (find_daemons_from ds ss 0 [])
      ≡ (if has_connected ds ss then told (lines ++ no_seeder_line ∷ []) else crashed lines)
unfolding is_empty
after_search-find_daemons ds ss lines = ground (
  arith,
  after_search_lem lines (find_daemons_from ds ss 0 []),
  find_daemons_from-is_empty ds ss 0 [],
)

found-seeders :
    (ds : List Peer) (e : Entry) (s : Seeder) (ss : List Seeder)
    → e.seeders ≡ s ∷ ss
    → found ds (some e) ≡ (
        if has_connected ds (s ∷ ss)
        then told (seeder_line s ∷ seeder_line s ∷ no_seeder_line ∷ [])
        else crashed (seeder_line s ∷ seeder_line s ∷ []))
unfolding found ask_seeders find_daemons
found-seeders ds e s ss h =
    ap (ask_seeders ds e) h
    ∙ ap (λ l. after_search (seeder_line s ∷ seeder_line s ∷ []) (find_daemons_from ds l 0 [])) h
    ∙ after_search-find_daemons ds (s ∷ ss) (seeder_line s ∷ seeder_line s ∷ [])

get-IsWord : IsWord (codes "get")
unfolding is_a_delimiter
get-IsWord = (refl, (refl, (refl, (refl, tt))))

-- The defect: the test of the list of seeders is inverted, and no daemon is ever asked for a file. For
-- a key of the right size in the cache, that holds no delimiter and starts no option, and an entry
-- with a seeder: "get KEY" answers that there is no seeder when a seeder is connected, and reads a
-- field of NULL when none is.
pub client_request_get-inverted :
    (cache : Tree) (ds : List Peer) (key : Bytes) (e : Entry) (s : Seeder) (ss : List Seeder)
    → length key ≡ file_key_size
    → IsWord key
    → any_option (codes "get" ∷ key ∷ []) ≡ false
    → file_cache_get_by_key cache key ≡ some e
    → e.seeders ≡ s ∷ ss
    → client_request_get cache ds (join (codes "get" ∷ key ∷ [])) ≡ (
        if has_connected ds (s ∷ ss)
        then told (seeder_line s ∷ seeder_line s ∷ no_seeder_line ∷ [])
        else crashed (seeder_line s ∷ seeder_line s ∷ []))
unfolding client_request_get
client_request_get-inverted cache ds key e s ss n w o f h =
    ap (get_parsed cache ds) (cmd_parse-join (codes "get") (key ∷ []) (get-IsWord, (w, tt)) o)
    ∙ get_parsed-key cache ds key n
    ∙ ap (found ds) f
    ∙ found-seeders ds e s ss h
