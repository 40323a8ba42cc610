-- ===== src/FileCache/Examples.antt =====
-- The cache of files on a file that two daemons offer.
use pire2pire.Base.{◌≡◌, refl, true, some, [], ◌∷◌, Bytes, codes, strcmp, str_eq}
use pire2pire.FileCache.{
  Entry, Tree, leaf, node, System, done, blocked, map_outcome, is_registered, file_cache_new,
  file_cache_add, file_cache_get_by_key,
}
use pire2pire.FileCache.Order.{IsValid, add-IsValid}
use pire2pire.FileCache.Lookup.{add_to_entry, get-add_self}
use pire2pire.FileCache.Locks.{add_twice-blocked}

abbrev system : System
system = record { sem_init_succeeds = true; malloc_succeeds = true }

abbrev some_key : Bytes
some_key = codes "0123456789abcdef0123456789abcdef"

abbrev some_ip : Bytes
some_ip = codes "10.0.0.1"

abbrev some_entry : Entry
some_entry = record {
  filename = codes "a.txt";
  key = some_key;
  size = 5;
  seeders = record { ip = some_ip; port = 7331 } ∷ [];
  seeders_lock = 1;
}

abbrev one_file : Tree
one_file = node leaf some_entry leaf

one_file-added : file_cache_add system (codes "a.txt") some_key 5 some_ip 7331 leaf ≡ done one_file
unfolding file_cache_add file_cache_new
one_file-added = refl

one_file-holds : file_cache_get_by_key one_file some_key ≡ some some_entry
unfolding file_cache_get_by_key strcmp
one_file-holds = refl

add-IsValid_example : IsValid one_file
add-IsValid_example =
    add-IsValid system (codes "a.txt") some_key 5 some_ip 7331 leaf one_file
      (record { ordered = tt; fits = tt }) one_file-added

get-add_self_example :
    map_outcome
      (λ t'. file_cache_get_by_key t' some_key)
      (file_cache_add system (codes "a.txt") some_key 5 (codes "10.0.0.2") 7331 one_file)
    ≡ add_to_entry system
        (codes "a.txt")
        some_key
        5
        (codes "10.0.0.2")
        7331
        (file_cache_get_by_key one_file some_key)
get-add_self_example =
    get-add_self system (codes "a.txt") some_key 5 (codes "10.0.0.2") 7331 one_file

add_twice-blocked_example :
    (t' : Tree) × (file_cache_add system (codes "a.txt") some_key 5 some_ip 7331 one_file ≡ done t')
    × (file_cache_add system (codes "b") some_key 6 (codes "10.0.0.2") 9 t' ≡ blocked)
unfolding is_registered str_eq
add_twice-blocked_example =
    add_twice-blocked system system (codes "a.txt") (codes "b") some_key 5 6 some_ip
      (codes "10.0.0.2") 7331 9 one_file some_entry one_file-holds refl refl
