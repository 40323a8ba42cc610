-- ===== src/FileCache/Locks.antt =====
-- The locks of the entries. A call that finds the seeder registered returns with the lock held.

use pire2pire.Base.{
  ◌∙◌, ℕ, ◌≤◌, ◌≡◌, ◌≢◌, refl, none, some, List, [], ◌∷◌, ◌++◌, Bytes, strcmp, length, arith, true,
  false, inl, inr, Option, Ordering-cases, Option-cases, Bool, Bool-cases,
}
use pire2pire.FileCache.{
  Entry, Tree, leaf, node, System, Outcome, done, blocked, overflow, map_outcome, file_ip_size,
  file_cache_new, add_seeder, lock_and_add, file_cache_add, file_cache_get_by_key, is_registered,
  file_cache_free, and_then, free_node,
}
use pire2pire.FileCache.Order.{AllEntries}
use pire2pire.FileCache.Lookup.{get-add_self, add_to_entry}

-- No call is using an entry.
abbrev pub IsFree : Tree → Type 0
IsFree = AllEntries (λ e. e.seeders_lock ≡ 1)

-- Whether the tree holds the seeder for the key.
unfoldable pub holds_seeder : Bytes → ℕ → Option Entry → Bool
holds_seeder ip port none = false
holds_seeder ip port (some e) = is_registered ip port e.seeders

module _ (sys : System) (filename key : Bytes) (size : ℕ) (ip : Bytes) (port : ℕ) where
  new-lock :
      (e : Entry) → file_cache_new sys filename key size ip port ≡ some e → e.seeders_lock ≡ 1
  unfolding file_cache_new
  new-lock e h = ground arith

  lock_and_add-free :
      (e : Entry)
      → e.seeders_lock ≡ 1
      → length ip ≤ file_ip_size
      → is_registered ip port e.seeders ≡ false
      → (e' : Entry) × (lock_and_add sys filename key size ip port e.seeders_lock e ≡ done e')
        × (e'.seeders_lock ≡ 1)
  unfolding lock_and_add add_seeder
  lock_and_add-free e f fits new = elim (Bool-cases sys.malloc_succeeds) [
    | inl mem ↦ (
      record e { seeders = record { ip = ip; port = port } ∷ e.seeders; seeders_lock = 1 },
      ground arith,
      refl,
    )
    | inr full ↦ (record e { seeders_lock = 1 }, ground arith, refl)
  ]

  -- Where no lock is held and the address fits its buffer, a call for a seeder that is not yet
  -- registered for the key returns, and gives every lock back.
  pub add_new_seeder-IsFree :
      (t : Tree)
      → IsFree t
      → length ip ≤ file_ip_size
      → holds_seeder ip port (file_cache_get_by_key t key) ≡ false
      → (t' : Tree) × (file_cache_add sys filename key size ip port t ≡ done t') × IsFree t'
  unfolding holds_seeder file_cache_add map_outcome file_cache_get_by_key
  add_new_seeder-IsFree leaf f fits new =
      elim (Option-cases (file_cache_new sys filename key size ip port)) [
        | inl n ↦ (leaf, ground arith, tt)
        | inr (e, n) ↦ (node leaf e leaf, ground arith, (tt, new-lock e n, tt))
      ]
  add_new_seeder-IsFree (node l e r) f fits new = elim (Ordering-cases (strcmp key e.key)) [
    | inl c ↦
        let (l', q, f') = add_new_seeder-IsFree l f.0 fits (ground arith) in
        (node l' e r, ground arith, (f', f.1, f.2))
    | inr (inl c) ↦
        let (e', q, one) = lock_and_add-free e f.1 fits (ground arith) in
        (node l e' r, ground arith, (f.0, one, f.2))
    | inr (inr c) ↦
        let (r', q, f') = add_new_seeder-IsFree r f.2 fits (ground arith) in
        (node l e r', ground arith, (f.0, f.1, f'))
  ]

  map-blocked : {A B : Type 0} (f : A → B) (m : Outcome A) → map_outcome f m ≡ blocked → m ≡ blocked
  unfolding map_outcome
  map-blocked f (done a) h = absurd (ground arith)
  map-blocked f blocked h = refl
  map-blocked f overflow h = absurd (ground arith)

  map-done :
      {A B : Type 0} (f : A → B) (m : Outcome A) {b : B}
      → map_outcome f m ≡ done b
      → (a : A) × (m ≡ done a) × (f a ≡ b)
  unfolding map_outcome
  map-done f (done a) h = (a, refl, ground arith)
  map-done f blocked h = absurd (ground arith)
  map-done f overflow h = absurd (ground arith)

  -- A held lock blocks every call for the key.
  pub add_held-blocked :
      (t : Tree) (e : Entry)
      → file_cache_get_by_key t key ≡ some e
      → e.seeders_lock ≡ 0
      → file_cache_add sys filename key size ip port t ≡ blocked
  unfolding add_to_entry lock_and_add map_outcome
  add_held-blocked t e g held =
      map-blocked (λ t'. file_cache_get_by_key t' key) _
        (get-add_self sys filename key size ip port t ∙ rw (g, held, lock_and_add))

  -- A call for a seeder that is registered already returns with the lock of the entry held.
  pub add_known_seeder :
      (t : Tree) (e : Entry)
      → file_cache_get_by_key t key ≡ some e
      → e.seeders_lock ≡ 1
      → is_registered ip port e.seeders ≡ true
      → (t' : Tree) × (file_cache_add sys filename key size ip port t ≡ done t')
        × (file_cache_get_by_key t' key ≡ some (record e { seeders_lock = 0 }))
  unfolding add_to_entry lock_and_add add_seeder map_outcome
  add_known_seeder t e g one reg =
      map-done (λ t'. file_cache_get_by_key t' key) _
        (get-add_self sys filename key size ip port t ∙ ground arith)

-- The defect: once a daemon announces a file that it has announced before, where the lock of the
-- entry was free, every further announcement of that file, by whomever, blocks for ever.
pub add_twice-blocked :
    (sys sys' : System) (filename filename' key : Bytes) (size size' : ℕ) (ip ip' : Bytes)
    (port port' : ℕ) (t : Tree) (e : Entry)
    → file_cache_get_by_key t key ≡ some e
    → e.seeders_lock ≡ 1
    → is_registered ip port e.seeders ≡ true
    → (t' : Tree) × (file_cache_add sys filename key size ip port t ≡ done t')
      × (file_cache_add sys' filename' key size' ip' port' t' ≡ blocked)
add_twice-blocked sys sys' filename filename' key size size' ip ip' port port' t e g one reg =
    let (t', q, g') = add_known_seeder sys filename key size ip port t e g one reg in
    (t', q, add_held-blocked sys' filename' key size' ip' port' t' _ g' refl)

abbrev keys_postorder : Tree → List Bytes
keys_postorder leaf = []
keys_postorder (node l e r) = keys_postorder l ++ (keys_postorder r ++ e.key ∷ [])

-- `file_cache_free` frees every node once, the children first, where no lock is held.
pub free-postorder : (t : Tree) → IsFree t → file_cache_free t ≡ done (keys_postorder t)
unfolding file_cache_free and_then free_node map_outcome
free-postorder leaf f = refl
free-postorder (node l e r) f = ground (arith, free-postorder l f.0, free-postorder r f.2)

and_then-blocked :
    (m n : Outcome (List Bytes)) → (m ≢ overflow) → n ≡ blocked → and_then m n ≡ blocked
unfolding and_then map_outcome
and_then-blocked (done a) n h b = rw b
and_then-blocked blocked n h b = refl
and_then-blocked overflow n h b = absurd (h refl)

free-ne-overflow : (t : Tree) → file_cache_free t ≢ overflow
unfolding file_cache_free and_then free_node map_outcome
free-ne-overflow leaf h = ground arith
free-ne-overflow (node l e r) h = ground (arith, free-ne-overflow l, free-ne-overflow r)

-- It waits for ever at a held lock.
pub free_held-blocked :
    (t : Tree) (key : Bytes) (e : Entry)
    → file_cache_get_by_key t key ≡ some e
    → e.seeders_lock ≡ 0
    → file_cache_free t ≡ blocked
unfolding file_cache_free file_cache_get_by_key and_then free_node
free_held-blocked leaf key e g held = absurd (ground arith)
free_held-blocked (node l e' r) key e g held = elim (Ordering-cases (strcmp key e'.key)) [
  | inl c ↦ ground (arith, free_held-blocked l key e (ground arith) held)
  | inr (inl c) ↦
      and_then-blocked (file_cache_free l) _ (free-ne-overflow l)
        (and_then-blocked (file_cache_free r) _ (free-ne-overflow r) (ground arith))
  | inr (inr c) ↦
      and_then-blocked (file_cache_free l) _ (free-ne-overflow l)
        (ground (arith, free_held-blocked r key e (ground arith) held))
]
