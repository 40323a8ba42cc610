-- ===== src/FileCache/Added.antt =====
-- The successful calls of `file_cache_add`, as derivations: one rule for each way through the code.
use pire2pire.Base.{
  subst, ℕ, ◌≡◌, refl, none, some, Ordering, Bytes, strcmp, arith, inl, inr, Option-cases,
  Ordering-cases,
}
use pire2pire.FileCache.{
  Entry, Tree, leaf, node, System, Outcome, done, blocked, overflow, map_outcome, file_cache_new,
  lock_and_add, file_cache_add,
}

module _ (sys : System) (filename key : Bytes) (size : ℕ) (ip : Bytes) (port : ℕ) where
  pub data Added : Tree → Tree → Type 0 where
    rejected : file_cache_new sys filename key size ip port ≡ none → Added leaf leaf
    fresh :
        (e : Entry)
        → file_cache_new sys filename key size ip port ≡ some e
        → Added leaf (node leaf e leaf)
    left :
        {l l' r : Tree} {e : Entry}
        → strcmp key e.key ≡ Ordering.lt
        → Added l l'
        → Added (node l e r) (node l' e r)
    right :
        {l r r' : Tree} {e : Entry}
        → strcmp key e.key ≡ Ordering.gt
        → Added r r'
        → Added (node l e r) (node l e r')
    same :
        {l r : Tree} {e e' : Entry}
        → strcmp key e.key ≡ Ordering.eq
        → lock_and_add sys filename key size ip port e.seeders_lock e ≡ done e'
        → Added (node l e r) (node l e' r)

  map-done :
      {A B : Type 0} (f : A → B) (m : Outcome A) {b : B}
      → map_outcome f m ≡ done b
      → (a : A) × (m ≡ done a) × (f a ≡ b)
  unfolding map_outcome
  map-done f (done a) h = (a, refl, ground arith)
  map-done f blocked h = absurd (ground arith)
  map-done f overflow h = absurd (ground arith)

  pub add-Added :
      (t t' : Tree) → file_cache_add sys filename key size ip port t ≡ done t' → Added t t'
  unfolding file_cache_add
  add-Added leaf t' h = elim (Option-cases (file_cache_new sys filename key size ip port)) [
    | inl n ↦ subst (Added leaf) (ground arith) (rejected n)
    | inr (e, n) ↦ subst (Added leaf) (ground arith) (fresh e n)
  ]
  add-Added (node l e r) t' h = elim (Ordering-cases (strcmp key e.key)) [
    | inl c ↦
        let (a, m, q) =
          map-done (λ t. node t e r) (file_cache_add sys filename key size ip port l)
            (rw (c, file_cache_add) at h) in
        subst (Added (node l e r)) q (left c (add-Added l a m))
    | inr (inl c) ↦
        let (a, m, q) =
          map-done (λ e'. node l e' r) (lock_and_add sys filename key size ip port e.seeders_lock e)
            (rw (c, file_cache_add) at h) in
        subst (Added (node l e r)) q (same c m)
    | inr (inr c) ↦
        let (a, m, q) =
          map-done (λ t. node l e t) (file_cache_add sys filename key size ip port r)
            (rw (c, file_cache_add) at h) in
        subst (Added (node l e r)) q (right c (add-Added r a m))
  ]
