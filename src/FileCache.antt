-- ===== src/FileCache.antt =====
-- trunk/daemon/file_cache.c and file_cache.h: the search tree of the files that other daemons offer,
-- by key, with the seeders of each. NULL is `leaf`, and a semaphore is its count. `port` is the bit
-- pattern of the C int. The mallocs that the code does not test are taken to succeed.
mod Added
pub mod Order
pub mod Lookup
pub mod Locks
mod Examples
use pire2pire.Base.{
  ℕ, zero, suc, ◌+◌, Bool, true, false, ◌&&◌, Option, none, some, List, [], ◌∷◌, ◌++◌, Ordering,
  Bytes, ◌==◌, ltb, leb, if◌then◌else◌, strcmp, str_eq, length, take,
}

abbrev pub file_name_size : ℕ
file_name_size = 256

abbrev pub file_key_size : ℕ
file_key_size = 32

-- INET_ADDRSTRLEN
abbrev pub file_ip_size : ℕ
file_ip_size = 16

pub record Seeder : Type 0 where
  pub ip : Bytes
  pub port : ℕ

-- A `struct file_cache` less its two children.
pub record Entry : Type 0 where
  pub filename : Bytes
  pub key : Bytes
  pub size : ℕ
  pub seeders : List Seeder
  pub seeders_lock : ℕ

pub data Tree : Type 0 where
  leaf : Tree
  node : Tree → Entry → Tree → Tree

-- What the system answers where the code tests it.
pub record System : Type 0 where
  pub sem_init_succeeds : Bool
  pub malloc_succeeds : Bool

-- `blocked`: a `sem_wait` on a count of 0. `overflow`: `strcpy` past the end of `ip`.
pub data Outcome (A : Type 0) : Type 0 where
  done : A → Outcome A
  blocked : Outcome A
  overflow : Outcome A

pub map_outcome : {A B : Type 0} → (A → B) → Outcome A → Outcome B
map_outcome f (done a) = done (f a)
map_outcome f blocked = blocked
map_outcome f overflow = overflow

-- `strcmp (s->ip, ip) == 0 && s->port == port`, for some seeder of the list.
pub is_registered : Bytes → ℕ → List Seeder → Bool
is_registered ip port [] = false
is_registered ip port (s ∷ next) =
    if str_eq s.ip ip && s.port == port then true else is_registered ip port next

module _ (sys : System) (filename key : Bytes) (size : ℕ) (ip : Bytes) (port : ℕ) where
  -- `strncpy` of an address copies FILE_IP_SIZE + 1 bytes at most. Of an address as long as that or
  -- longer no end is stored: the model reads it as these bytes, where the code reads on behind them.
  pub file_cache_new : Option Entry
  file_cache_new =
      if ltb file_name_size (length filename)
      then none
      else if length key == file_key_size
      then (if sys.sem_init_succeeds
          then some (record {
            filename = filename;
            key = key;
            size = size;
            seeders = record { ip = take (file_ip_size + 1) ip; port = port } ∷ [];
            seeders_lock = 1;
          })
          else none)
      else none

  -- The branch for a node with the same key, given the count that the first `sem_wait` leaves. The
  -- loop over the seeders returns without `sem_post`.
  pub add_seeder : ℕ → Entry → Outcome Entry
  add_seeder count e =
      if is_registered ip port e.seeders
      then done (record e { seeders_lock = count })
      else if sys.malloc_succeeds
      then (if leb (length ip) file_ip_size
          then done (record e {
            seeders = record { ip = ip; port = port } ∷ e.seeders;
            seeders_lock = suc count;
          })
          else overflow)
      else done (record e { seeders_lock = suc count })

  pub lock_and_add : ℕ → Entry → Outcome Entry
  lock_and_add zero e = blocked
  lock_and_add (suc count) e = add_seeder count e

  pub file_cache_add : Tree → Outcome Tree
  file_cache_add leaf = elim file_cache_new [ none ↦ done leaf | some e ↦ done (node leaf e leaf) ]
  file_cache_add (node left e right) = elim (strcmp key e.key) [
    | Ordering.lt ↦ map_outcome (λ t. node t e right) (file_cache_add left)
    | Ordering.gt ↦ map_outcome (λ t. node left e t) (file_cache_add right)
    | Ordering.eq ↦ map_outcome (λ e'. node left e' right) (lock_and_add e.seeders_lock e)
  ]

unfoldable pub file_cache_get_by_key : Tree → Bytes → Option Entry
file_cache_get_by_key leaf key = none
file_cache_get_by_key (node left e right) key = elim (strcmp key e.key) [
  | Ordering.eq ↦ some e
  | Ordering.lt ↦ file_cache_get_by_key left key
  | Ordering.gt ↦ file_cache_get_by_key right key
]

-- `__file_cache_free`: it waits for the lock of the node. What is freed is shown by its key.
pub free_node : ℕ → Bytes → Outcome (List Bytes)
free_node zero key = blocked
free_node (suc count) key = done (key ∷ [])

pub and_then : Outcome (List Bytes) → Outcome (List Bytes) → Outcome (List Bytes)
and_then (done a) m = map_outcome (λ b. a ++ b) m
and_then blocked m = blocked
and_then overflow m = overflow

-- The nodes in the order in which they are freed.
pub file_cache_free : Tree → Outcome (List Bytes)
file_cache_free leaf = done []
file_cache_free (node left e right) =
    and_then (file_cache_free left)
      (and_then (file_cache_free right) (free_node e.seeders_lock e.key))
