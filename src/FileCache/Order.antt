-- ===== src/FileCache/Order.antt =====
-- The invariant of the tree: search order, and the sizes that `file_cache_new` checks.
use pire2pire.Base.{
  ◌<◌, sym, subst, ℕ, zero, suc, ◌≤◌, ◌≡◌, some, Ordering, Bytes, strcmp, strcmp_lt_of_gt, length,
  arith,
}
use pire2pire.FileCache.{
  Entry, Tree, leaf, node, System, done, file_name_size, file_key_size, file_cache_new, add_seeder,
  lock_and_add, file_cache_add,
}
use pire2pire.FileCache.Added.{Added, rejected, fresh, left, right, same, add-Added}

abbrev pub AllEntries : (Entry → Type 0) → Tree → Type 0
AllEntries P leaf = Unit
AllEntries P (node l e r) = AllEntries P l × P e × AllEntries P r

abbrev pub Below : Bytes → Tree → Type 0
Below k = AllEntries (λ e. strcmp e.key k ≡ Ordering.lt)

abbrev pub Above : Bytes → Tree → Type 0
Above k = AllEntries (λ e. strcmp k e.key ≡ Ordering.lt)

abbrev pub IsOrdered : Tree → Type 0
IsOrdered leaf = Unit
IsOrdered (node l e r) = Below e.key l × Above e.key r × IsOrdered l × IsOrdered r

pub record FitsEntry (e : Entry) : Type 0 where
  pub name_fits : length e.filename ≤ file_name_size
  pub key_fits : length e.key ≡ file_key_size
  pub seeded : 0 < length e.seeders

pub record IsValid (t : Tree) : Type 0 where
  pub ordered : IsOrdered t
  pub fits : AllEntries FitsEntry t

module _ (sys : System) (filename key : Bytes) (size : ℕ) (ip : Bytes) (port : ℕ) where
  new-FitsEntry : (e : Entry) → file_cache_new sys filename key size ip port ≡ some e → FitsEntry e
  unfolding file_cache_new
  new-FitsEntry e h = record {
    name_fits = ground arith;
    key_fits = ground arith;
    seeded = ground arith;
  }

  pub new-key : (e : Entry) → file_cache_new sys filename key size ip port ≡ some e → e.key ≡ key
  unfolding file_cache_new
  new-key e h = ground arith

  -- Only the seeders and the lock of an entry change.
  pub lock_and_add-key :
      (n : ℕ) (e e' : Entry)
      → lock_and_add sys filename key size ip port n e ≡ done e'
      → (e'.key ≡ e.key) × (e'.filename ≡ e.filename) × (length e.seeders ≤ length e'.seeders)
  unfolding lock_and_add add_seeder
  lock_and_add-key zero e e' h = absurd (ground arith)
  lock_and_add-key (suc n) e e' h = (ground arith, ground arith, ground arith)

  -- A property of entries that the call respects.
  record Kept (P : Entry → Type 0) : Type 0 where
    at_new : (e : Entry) → file_cache_new sys filename key size ip port ≡ some e → P e
    at_old :
        (e e' : Entry)
        → lock_and_add sys filename key size ip port e.seeders_lock e ≡ done e'
        → P e
        → P e'

  Added-AllEntries :
      (P : Entry → Type 0) {t t' : Tree}
      → Kept P
      → Added sys filename key size ip port t t'
      → AllEntries P t
      → AllEntries P t'
  Added-AllEntries P k (rejected n) a = tt
  Added-AllEntries P k (fresh e n) a = (tt, k.at_new e n, tt)
  Added-AllEntries P k (left c d) a = (Added-AllEntries P k d a.0, a.1, a.2)
  Added-AllEntries P k (right c d) a = (a.0, a.1, Added-AllEntries P k d a.2)
  Added-AllEntries P k (same {e} {e'} c m) a = (a.0, k.at_old e e' m a.1, a.2)

  Kept-key : (P : Bytes → Type 0) → P key → Kept (λ e. P e.key)
  Kept-key P p = record {
    at_new = λ e n. subst P (sym (new-key e n)) p;
    at_old = λ e e' m h. subst P (sym (lock_and_add-key e.seeders_lock e e' m).0) h;
  }

  AllEntries-key :
      (P Q : Bytes → Type 0)
      → ((k : Bytes) → P k → Q k)
      → (t : Tree) → AllEntries (λ e. P e.key) t
      → AllEntries (λ e. Q e.key) t
  AllEntries-key P Q f leaf a = tt
  AllEntries-key P Q f (node l e r) a =
      (AllEntries-key P Q f l a.0, f e.key a.1, AllEntries-key P Q f r a.2)

  Added-IsOrdered :
      {t t' : Tree} → Added sys filename key size ip port t t' → IsOrdered t → IsOrdered t'
  Added-IsOrdered (rejected n) o = tt
  Added-IsOrdered (fresh e n) o = (tt, tt, tt, tt)
  Added-IsOrdered (left {e} c d) o = (
    Added-AllEntries _ (Kept-key (λ k. strcmp k e.key ≡ Ordering.lt) c) d o.0,
    o.1,
    Added-IsOrdered d o.2,
    o.3,
  )
  Added-IsOrdered (right {e} c d) o = (
    o.0,
    Added-AllEntries _ (Kept-key (λ k. strcmp e.key k ≡ Ordering.lt) (strcmp_lt_of_gt key e.key c))
        d o.1,
    o.2,
    Added-IsOrdered d o.3,
  )
  Added-IsOrdered (same {l} {r} {e} {e'} c m) o =
      subst (λ k. Below k l × Above k r × IsOrdered l × IsOrdered r)
        (sym (lock_and_add-key e.seeders_lock e e' m).0) o

  Kept-FitsEntry : Kept FitsEntry
  Kept-FitsEntry = record {
    at_new = new-FitsEntry;
    at_old = λ e e' m f. record {
      name_fits = rw ((lock_and_add-key e.seeders_lock e e' m).1) f.name_fits;
      key_fits = rw ((lock_and_add-key e.seeders_lock e e' m).0) f.key_fits;
      seeded = omega (arith, (lock_and_add-key e.seeders_lock e e' m).2, f.seeded);
    };
  }

  -- Every call that returns keeps the search order of the tree, and all its entries within the sizes
  -- of the structure, with a key of 32 bytes and at least one seeder.
  pub add-IsValid :
      (t t' : Tree)
      → IsValid t
      → file_cache_add sys filename key size ip port t ≡ done t'
      → IsValid t'
  add-IsValid t t' v h =
      let d = add-Added sys filename key size ip port t t' h in
      record {
        ordered = Added-IsOrdered d v.ordered;
        fits = Added-AllEntries FitsEntry Kept-FitsEntry d v.fits;
      }
