-- ===== src/Peers/Links/Dangling.antt =====
-- `client_remove` (client.c) and `daemon_remove` (daemon.c) of a peer between two others, which the
-- handlers then free (client_handler.c, daemon_handler.c).
use pire2pire.Base.{
  ℕ, zero, suc, ◌+◌, ◌≡◌, ◌∙◌, ap, refl, false, none, some, [], ◌∷◌, ◌++◌, ◌==◌, length, arith,
}
use pire2pire.Peers.Links.{
  Ptr, Node, Heap, write, set_next, find_thread, unlink_peer, remove_peer, client_remove,
  daemon_remove, free_node,
}
use pire2pire.Peers.Links.Chain.{
  Cells, node, first_or, last_or, Linked, IsList, Linked-append, Linked-write,
}
use pire2pire.Peers.Links.Search.{has_thread, Distinct-append}

-- The search goes on behind nodes of other threads.
find_behind :
    (n fuel : ℕ) (h : Heap) (start : Ptr) (xs : Cells) (a t : ℕ)
    → n ≡ length xs + fuel
    → Linked h start xs (some a)
    → has_thread t xs ≡ false
    → find_thread n h (first_or xs (some a)) t ≡ find_thread fuel h (some a) t
unfolding find_thread has_thread
find_behind n fuel h start [] a t e k w = ap (λ m. find_thread m h (some a) t) (omega (arith, e))
find_behind zero fuel h start ((b, u) ∷ xs) a t e k w = absurd (omega (arith, e))
find_behind (suc n) fuel h start ((b, u) ∷ xs) a t e k w =
    ground (arith, k.0, w, find_behind n fuel h (some b) xs a t (omega (arith, e)) k.1)

find_second :
    (fuel : ℕ) (h : Heap) (a b s t : ℕ) (p n : Ptr)
    → h a ≡ some (node s p (some b))
    → h b ≡ some (node t (some a) n)
    → (s == t) ≡ false
    → find_thread (suc (suc fuel)) h (some a) t ≡ some (b, node t (some a) n)
unfolding find_thread
find_second fuel h a b s t p n ha hb e = ground (arith, ha, hb)

remove_found :
    (fuel : ℕ) (h : Heap) (xs : Cells) (a t b : ℕ) (n : Node)
    → find_thread fuel h (first_or xs (some a)) t ≡ some (b, n)
    → remove_peer fuel h (first_or xs (some a)) t ≡ unlink_peer h (first_or xs (some a)) n
unfolding remove_peer
remove_found fuel h [] a t b n e = rw e refl
remove_found fuel h ((c, u) ∷ xs) a t b n e = rw e refl

-- The heap when the node at `b` is unlinked from the one at `a`, and freed.
abbrev unlinked : Heap → ℕ → ℕ → Ptr → ℕ → Heap
unlinked h a s p c = write h a (some (node s p (some c)))

has_thread-snoc :
    (t a s : ℕ) (xs : Cells)
    → has_thread t (xs ++ (a, s) ∷ []) ≡ false
    → (has_thread t xs ≡ false) × ((s == t) ≡ false)
unfolding has_thread
has_thread-snoc t a s [] h = (refl, ground arith)
has_thread-snoc t a s ((b, u) ∷ xs) h =
    (ground (arith, h, has_thread-snoc t a s xs), ground (arith, h, has_thread-snoc t a s xs))

-- Whatever stands before the two peers.
module _ (n fuel : ℕ) (h : Heap) (xs : Cells) (a b c s t u : ℕ) where
  remove_second :
      (p : Ptr)
      → n ≡ length xs + suc (suc fuel)
      → Linked h none xs (some a)
      → has_thread t xs ≡ false
      → h a ≡ some (node s p (some b))
      → h b ≡ some (node t (some a) (some c))
      → (s == t) ≡ false
      → remove_peer n h (first_or xs (some a)) t ≡ some (unlinked h a s p c, first_or xs (some a))
  unfolding unlink_peer set_next
  remove_second p e k w ha hb d =
      remove_found n h xs a t b (node t (some a) (some c)) (
        find_behind n (suc (suc fuel)) h none xs a t e k w
        ∙ find_second fuel h a b s t p (some c) ha hb d)
      ∙ ground (arith, ha)

  -- The node behind the freed one still has its address.
  remove_stale :
      (p q : Ptr)
      → n ≡ length xs + suc (suc fuel)
      → Linked h none xs (some a)
      → has_thread u xs ≡ false
      → h a ≡ some (node s p (some c))
      → h c ≡ some (node u (some b) q)
      → h b ≡ none
      → (s == u) ≡ false
      → remove_peer n h (first_or xs (some a)) u ≡ none
  unfolding unlink_peer set_next find_thread
  remove_stale p q e k w ha hc hb d =
      remove_found n h xs a u c (node u (some b) q)
        (find_behind n (suc (suc fuel)) h none xs a u e k w ∙ ground (arith, ha, hc))
      ∙ ground (arith, hb)

-- When a peer between two others leaves and is freed, and then the one behind it leaves, the second
-- removal is a fault: it writes to the freed node, as the first did not write the link back. No other
-- peer up to there has the thread of one of the two, and the search is given a round for each peer
-- up to there.
pub remove_peer-dangles :
    (fuel : ℕ) (h : Heap) (xs zs : Cells) (a b c s t u : ℕ)
    → IsList h (first_or xs (some a)) (xs ++ (a, s) ∷ (b, t) ∷ (c, u) ∷ zs)
    → has_thread t (xs ++ (a, s) ∷ []) ≡ false
    → has_thread u (xs ++ (a, s) ∷ []) ≡ false
    → let l = first_or xs (some a) in
      let n = length xs + suc (suc fuel) in
      (h' : Heap) × (client_remove n h l t ≡ some (h', l))
      × (daemon_remove n h l t ≡ some (h', l))
      × (client_remove n (free_node h' b) l u ≡ none)
      × (daemon_remove n (free_node h' b) l u ≡ none)
unfolding client_remove daemon_remove free_node
remove_peer-dangles fuel h xs zs a b c s t u k n n' =
    let n0 = length xs + suc (suc fuel) in
    let p = last_or none xs in
    let (y, r) = Linked-append h none xs ((a, s) ∷ (b, t) ∷ (c, u) ∷ zs) none k.linked in
    let (d, apart) = Distinct-append xs ((a, s) ∷ (b, t) ∷ (c, u) ∷ zs) k.distinct in
    let (nt, st) = has_thread-snoc t a s xs n in
    let (nu, su) = has_thread-snoc u a s xs n' in
    let h1 = unlinked h a s p c in
    let first = remove_second n0 fuel h xs a b c s t u p refl y nt r.0 r.1.0 st in
    let stale =
      remove_stale n0 fuel (free_node h1 b) xs a b c s t u p (first_or zs none) refl
        (Linked-write h1 none xs (some a) b none
          (Linked-write h none xs (some a) a (some (node s p (some c))) y (apart a (ground arith)))
          (apart b (ground arith)))
        nu (ground (arith, d.0)) (ground (arith, d.0, d.1.0, r.1.1.0)) (ground arith) su in
    (h1, first, first, stale, stale)
