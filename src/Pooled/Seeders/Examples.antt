-- ===== src/Pooled/Seeders/Examples.antt =====
-- A file with two seeders, of which the second is connected.
use pire2pire.Base.{
  ℕ, zero, suc, All, ◌≡◌, refl, false, List, [], ◌∷◌, Bytes, codes, replicate, strcmp, str_eq,
}
use pire2pire.CmdParser.{is_a_delimiter}
use pire2pire.CmdParser.Plain.{join, is_option, any_option}
use pire2pire.FileCache.{Tree, leaf, node, Entry, Seeder, file_cache_get_by_key}
use pire2pire.Handler.Identify.{Peer}
use pire2pire.Requests.Files.{seeder_line}
use pire2pire.Pooled.Seeders.{told, no_seeder_line, client_request_get}
use pire2pire.Pooled.Seeders.Inverted.{is_connected, has_connected, client_request_get-inverted}

abbrev key : Bytes
key = replicate 32 b'k'

abbrev away : Seeder
away = record { ip = codes "10.0.0.2"; port = 7331 }

abbrev here : Seeder
here = record { ip = codes "10.0.0.3"; port = 7331 }

abbrev entry : Entry
entry = record {
  filename = codes "a.txt";
  key = key;
  size = 5;
  seeders = away ∷ here ∷ [];
  seeders_lock = 1;
}

abbrev cache : Tree
cache = node leaf entry leaf

abbrev peers : List Peer
peers = record { addr = codes "10.0.0.3"; port = 7331 } ∷ []

letters : (n : ℕ) → All (λ c. is_a_delimiter c ≡ false) (replicate n b'k')
unfolding is_a_delimiter
letters zero = tt
letters (suc n) = (refl, letters n)

client_request_get-inverted_example :
    client_request_get cache peers (join (codes "get" ∷ key ∷ []))
    ≡ told (seeder_line away ∷ seeder_line away ∷ no_seeder_line ∷ [])
unfolding is_a_delimiter is_option any_option strcmp str_eq file_cache_get_by_key is_connected
    has_connected
client_request_get-inverted_example =
    client_request_get-inverted cache peers key entry away (here ∷ []) refl (refl, letters 32) refl
      refl refl
