-- ===== src/FileCache/Lookup.antt =====
-- The tree as a map from keys to entries: what `file_cache_add` does to `file_cache_get_by_key`.
use pire2pire.Base.{
  ◌<◌, sym, ◌∙◌, ap, eq_of_strcmp, strcmp_refl, str_eq_refl, ℕ, zero, suc, ◌+◌, ◌≤◌, ◌≡◌, ◌≢◌, refl,
  none, some, [], ◌∷◌, Ordering, Bytes, strcmp, length, take, arith, true, ◌⊎◌, inl, inr, Option,
  Ordering-cases, eqb_refl,
}
use pire2pire.FileCache.{
  Entry, Tree, leaf, node, System, Outcome, done, blocked, overflow, map_outcome, file_name_size,
  file_key_size, file_ip_size, file_cache_new, add_seeder, lock_and_add, file_cache_add,
  file_cache_get_by_key, is_registered,
}
use pire2pire.FileCache.Added.{Added, rejected, fresh, left, right, same, add-Added}
use pire2pire.FileCache.Order.{new-key, lock_and_add-key}

pub take-all : (n : ℕ) (xs : Bytes) → length xs ≤ n → take n xs ≡ xs
take-all zero [] h = refl
take-all zero (x ∷ xs) h = absurd (omega arith)
take-all (suc n) [] h = refl
take-all (suc n) (x ∷ xs) h = ap (◌∷◌ x) (take-all n xs (omega arith))

module _ (sys : System) (filename key : Bytes) (size : ℕ) (ip : Bytes) (port : ℕ) where
  -- What a call does to the entry of its key.
  unfoldable pub add_to_entry : Option Entry → Outcome (Option Entry)
  add_to_entry none = done (file_cache_new sys filename key size ip port)
  add_to_entry (some e) =
      map_outcome some (lock_and_add sys filename key size ip port e.seeders_lock e)

  get-node_same :
      (l r : Tree) (e e' : Entry) (m : Outcome Entry)
      → m ≡ lock_and_add sys filename key size ip port e.seeders_lock e
      → strcmp key e.key ≡ Ordering.eq
      → map_outcome (λ t. file_cache_get_by_key t key) (map_outcome (λ e'. node l e' r) m)
        ≡ map_outcome some m
  unfolding map_outcome file_cache_get_by_key
  get-node_same l r e e' (done a) h c =
      let k = (lock_and_add-key sys filename key size ip port e.seeders_lock e a (sym h)).0 in
      ground arith
  get-node_same l r e e' blocked h c = refl
  get-node_same l r e e' overflow h c = refl

  get-node_lt :
      (e : Entry) (r : Tree) (m : Outcome Tree)
      → strcmp key e.key ≡ Ordering.lt
      → map_outcome (λ t. file_cache_get_by_key t key) (map_outcome (λ t. node t e r) m)
        ≡ map_outcome (λ t. file_cache_get_by_key t key) m
  unfolding map_outcome file_cache_get_by_key
  get-node_lt e r (done a) c = ap done (rw (c, file_cache_get_by_key))
  get-node_lt e r blocked c = refl
  get-node_lt e r overflow c = refl

  get-node_gt :
      (e : Entry) (l : Tree) (m : Outcome Tree)
      → strcmp key e.key ≡ Ordering.gt
      → map_outcome (λ t. file_cache_get_by_key t key) (map_outcome (λ t. node l e t) m)
        ≡ map_outcome (λ t. file_cache_get_by_key t key) m
  unfolding map_outcome file_cache_get_by_key
  get-node_gt e l (done a) c = ap done (rw (c, file_cache_get_by_key))
  get-node_gt e l blocked c = refl
  get-node_gt e l overflow c = refl

  get-leaf_fresh :
      (o : Option Entry)
      → file_cache_new sys filename key size ip port ≡ o
      → map_outcome
          (λ t. file_cache_get_by_key t key)
          (elim o [ none ↦ done leaf | some e ↦ done (node leaf e leaf) ])
        ≡ done o
  unfolding map_outcome file_cache_get_by_key
  get-leaf_fresh none h = refl
  get-leaf_fresh (some e) h =
      ground (arith, new-key sys filename key size ip port e h, strcmp_refl key)

  -- At its own key a call acts as on a map: an absent key gets the new entry, if one can be made, a
  -- present one is updated under its lock, and the call blocks or overflows exactly if that does.
  pub get-add_self :
      (t : Tree)
      → map_outcome
          (λ t'. file_cache_get_by_key t' key)
          (file_cache_add sys filename key size ip port t)
        ≡ add_to_entry (file_cache_get_by_key t key)
  unfolding file_cache_add file_cache_get_by_key add_to_entry
  get-add_self leaf = get-leaf_fresh (file_cache_new sys filename key size ip port) refl
  get-add_self (node l e r) = elim (Ordering-cases (strcmp key e.key)) [
    | inl c ↦
        rw (c, file_cache_add, file_cache_get_by_key)
          (get-node_lt e r (file_cache_add sys filename key size ip port l) c ∙ get-add_self l)
    | inr (inl c) ↦ rw (c, file_cache_add, file_cache_get_by_key) (get-node_same l r e e _ refl c)
    | inr (inr c) ↦
        rw (c, file_cache_add, file_cache_get_by_key)
          (get-node_gt e l (file_cache_add sys filename key size ip port r) c ∙ get-add_self r)
  ]

  Added-get_ne :
      (k : Bytes) {t t' : Tree}
      → k ≢ key
      → Added sys filename key size ip port t t'
      → file_cache_get_by_key t' k ≡ file_cache_get_by_key t k
  unfolding file_cache_get_by_key
  Added-get_ne k ne (rejected n) = refl
  Added-get_ne k ne (fresh e n) =
      ground (arith, new-key sys filename key size ip port e n, eq_of_strcmp k key)
  Added-get_ne k ne (left c d) = ground (arith, Added-get_ne k ne d)
  Added-get_ne k ne (right c d) = ground (arith, Added-get_ne k ne d)
  Added-get_ne k ne (same {e} {e'} c m) = ground (
    arith,
    (lock_and_add-key sys filename key size ip port e.seeders_lock e e' m).0,
    eq_of_strcmp k e.key,
    eq_of_strcmp key e.key,
  )

  -- A call leaves the entries of all other keys as they were.
  pub get-add_ne :
      (k : Bytes) (t t' : Tree)
      → k ≢ key
      → file_cache_add sys filename key size ip port t ≡ done t'
      → file_cache_get_by_key t' k ≡ file_cache_get_by_key t k
  get-add_ne k t t' ne h = Added-get_ne k ne (add-Added sys filename key size ip port t t' h)

  -- A file whose name or key has the wrong size is refused: if no entry has the key, the tree stays
  -- as it was.
  pub add-refused :
      (t : Tree)
      → (file_name_size < length filename) ⊎ (length key ≢ file_key_size)
      → file_cache_get_by_key t key ≡ none
      → file_cache_add sys filename key size ip port t ≡ done t
  unfolding file_cache_add file_cache_new file_cache_get_by_key map_outcome
  add-refused leaf bad h = ground arith
  add-refused (node l e r) bad h = elim (Ordering-cases (strcmp key e.key)) [
    | inl c ↦ ground (arith, add-refused l bad)
    | inr (inl c) ↦ absurd (ground arith)
    | inr (inr c) ↦ ground (arith, add-refused r bad)
  ]

  entry-registered :
      (o o' : Option Entry) {e' : Entry}
      → length ip ≤ file_ip_size
      → sys.malloc_succeeds ≡ true
      → add_to_entry o ≡ done o'
      → o' ≡ some e'
      → is_registered ip port e'.seeders ≡ true
  unfolding add_to_entry file_cache_new map_outcome lock_and_add add_seeder is_registered
  entry-registered none o' fits mem h e =
      ground (arith, take-all 17 ip, str_eq_refl ip, eqb_refl port)
  entry-registered (some e) o' fits mem h q = ground (arith, str_eq_refl ip, eqb_refl port)

  -- After a call that returns, the seeder is registered for the file that the tree holds under the
  -- key (for an address that fits its buffer, where memory is not exhausted).
  pub add-registers :
      (t t' : Tree) (e' : Entry)
      → length ip ≤ file_ip_size
      → sys.malloc_succeeds ≡ true
      → file_cache_add sys filename key size ip port t ≡ done t'
      → file_cache_get_by_key t' key ≡ some e'
      → is_registered ip port e'.seeders ≡ true
  unfolding map_outcome
  add-registers t t' e' fits mem h g =
      entry-registered (file_cache_get_by_key t key) (file_cache_get_by_key t' key) fits mem
        (sym (get-add_self t) ∙ rw (h, map_outcome) refl) g

done_of_map :
    {A B : Type 0} (f : A → B) (m : Outcome A) (b : B)
    → map_outcome f m ≡ done b
    → (a : A) × (m ≡ done a) × (f a ≡ b)
unfolding map_outcome
done_of_map {B = B} f (done a) b h = (a, refl, done-injective (f a) b h)
  where
    value : Outcome B → B
    value (done x) = x
    value blocked = b
    value overflow = b

    done-injective : (x y : B) → done x ≡ done y → x ≡ y
    done-injective x y e = ap value e
done_of_map f blocked b h = absurd (ground arith)
done_of_map f overflow b h = absurd (ground arith)

new-entry :
    (sys : System) (filename key : Bytes) (size : ℕ) (ip : Bytes) (port : ℕ)
    → sys.sem_init_succeeds ≡ true
    → length filename ≤ file_name_size
    → length key ≡ file_key_size
    → length ip ≤ file_ip_size
    → file_cache_new sys filename key size ip port
      ≡ some (record {
        filename = filename;
        key = key;
        size = size;
        seeders = record { ip = ip; port = port } ∷ [];
        seeders_lock = 1;
      })
unfolding file_cache_new
new-entry sys filename key size ip port s f k l = ground (arith, take-all (file_ip_size + 1) ip)

-- A file whose key is not in the tree, with a name and a key of the sizes allowed, is added and found
-- with all that was given.
pub add-found :
    (sys : System) (filename key : Bytes) (size : ℕ) (ip : Bytes) (port : ℕ) (t : Tree)
    → sys.sem_init_succeeds ≡ true
    → length filename ≤ file_name_size
    → length key ≡ file_key_size
    → length ip ≤ file_ip_size
    → file_cache_get_by_key t key ≡ none
    → (t' : Tree) × (file_cache_add sys filename key size ip port t ≡ done t')
      × (file_cache_get_by_key t' key
          ≡ some (record {
            filename = filename;
            key = key;
            size = size;
            seeders = record { ip = ip; port = port } ∷ [];
            seeders_lock = 1;
          }))
unfolding add_to_entry
add-found sys filename key size ip port t s f k l n =
    done_of_map (λ t'. file_cache_get_by_key t' key)
      (file_cache_add sys filename key size ip port t) _
      (get-add_self sys filename key size ip port t
        ∙ rw n (ap done (new-entry sys filename key size ip port s f k l)))
