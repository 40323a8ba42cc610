-- ===== src/Peers/Links/Refinement.antt =====
-- The lists of requests (client_request.c, daemon_request.c) refine lists of entries.
use pire2pire.Base.{
  ℕ, zero, suc, ◌+◌, ◌≤◌, ◌≡◌, refl, true, false, none, some, [], ◌∷◌, length, ◌==◌, arith,
}
use pire2pire.Peers.Links.{
  Ptr, Heap, write, set_next, set_prev, push_front, count_from, client_request_add,
  daemon_request_add, client_request_remove, daemon_request_remove, client_request_count,
  daemon_request_count, client_add, daemon_add, client_numbers, daemon_numbers,
}
use pire2pire.Peers.Links.Chain.{Cells, node, first_or, holds, Linked, IsList, Linked-write}
use pire2pire.Peers.Links.Search.{drop_thread, has_thread, find_thread_lem}
use pire2pire.Peers.Links.Remove.{remove-Found}

-- On a well-formed list of requests with an entry of the thread, both `remove` functions end without
-- a fault, given fuel for the list: what they leave is the well-formed list without the first entry
-- of the thread, the others in their order, and they return its first node.
pub request_remove-drop_thread :
    (fuel : ℕ) (h : Heap) (l : Ptr) (xs : Cells) (pt : ℕ)
    → IsList h l xs
    → has_thread pt xs ≡ true
    → length xs ≤ fuel
    → (h' : Heap) × (client_request_remove fuel h l pt
        ≡ some (h', first_or (drop_thread pt xs) none))
      × (daemon_request_remove fuel h l pt ≡ some (h', first_or (drop_thread pt xs) none))
      × IsList h' (first_or (drop_thread pt xs) none) (drop_thread pt xs)
unfolding client_request_remove daemon_request_remove
request_remove-drop_thread fuel h l xs pt k w n =
    let (h', e, k') =
      remove-Found fuel h l xs pt k (find_thread_lem fuel h none xs pt n k.linked w) in
    (h', e, e, k')

count_from_lem :
    (fuel : ℕ) (h : Heap) (start : Ptr) (xs : Cells)
    → length xs ≤ fuel
    → Linked h start xs none
    → count_from fuel h (first_or xs none) ≡ some (length xs)
unfolding count_from
count_from_lem zero h start [] n k = refl
count_from_lem (suc fuel) h start [] n k = refl
count_from_lem zero h start ((a, t) ∷ xs) n k = absurd (omega arith)
count_from_lem (suc fuel) h start ((a, t) ∷ xs) n k =
    ground (arith, k.0, count_from_lem fuel h (some a) xs (omega arith) k.1)

-- The heap after the three writes.
abbrev pushed : Heap → ℕ → ℕ → ℕ → ℕ → Ptr → Heap
pushed h r t a u q =
    write (write (write h r (some (node t none none))) r (some (node t none (some a)))) a
      (some (node u (some r) q))

push_front_step :
    (h : Heap) (l a u r t : ℕ) (q : Ptr)
    → ◌≡◌ {A = Ptr} (some l) (some a)
    → h a ≡ some (node u none q)
    → h r ≡ some (node t none none)
    → (r == a) ≡ false
    → push_front h (some l) (some r) ≡ some (pushed h r t a u q, some r)
unfolding push_front set_next set_prev
push_front_step h l a u r t q e ha hr n = ground (arith, e, ha, hr)

push_front-Linked :
    (h : Heap) (a u r t : ℕ) (xs : Cells)
    → Linked h (some a) xs none
    → (r == a) ≡ false
    → holds r xs ≡ false
    → holds a xs ≡ false
    → Linked (pushed h r t a u (first_or xs none)) none ((r, t) ∷ (a, u) ∷ xs) none
push_front-Linked h a u r t xs k n nr na = (
  ground arith,
  (
    ground arith,
    Linked-write _ (some a) xs none a _
        (Linked-write _ (some a) xs none r _ (Linked-write h (some a) xs none r _ k nr) nr) na,
  ),
)

push_front_lem :
    (h : Heap) (l : Ptr) (xs : Cells) (r t : ℕ)
    → IsList h l xs
    → h r ≡ some (node t none none)
    → holds r xs ≡ false
    → (h' : Heap) × (push_front h l (some r) ≡ some (h', some r)) × IsList h' (some r) ((r, t) ∷ xs)
unfolding push_front set_next set_prev
push_front_lem h none [] r t k e n =
    (h, refl, record { head = refl; linked = (e, tt); distinct = (refl, tt) })
push_front_lem h (some l) [] r t k e n = absurd (ground (arith, k.head))
push_front_lem h none ((a, u) ∷ xs) r t k e n = absurd (ground (arith, k.head))
push_front_lem h (some l) ((a, u) ∷ xs) r t k e n = (
  pushed h r t a u (first_or xs none),
  push_front_step h l a u r t (first_or xs none) k.head k.linked.0 e (ground arith),
  record {
    head = refl;
    linked = push_front-Linked h a u r t xs k.linked.1 (ground arith) (ground arith) k.distinct.0;
    distinct = (n, k.distinct);
  },
)

-- A new request, at an address that the well-formed list does not hold, becomes the first entry of
-- the well-formed list by both `add` functions, the others staying in their order, and both `count`
-- functions, given fuel for the list, then count one more than its entries; so do the `add` and
-- `numbers` functions of the peers.
pub add-count_refines :
    (fuel : ℕ) (h : Heap) (l : Ptr) (xs : Cells) (r t : ℕ)
    → IsList h l xs
    → h r ≡ some (node t none none)
    → holds r xs ≡ false
    → length xs + 1 ≤ fuel
    → (h' : Heap) × (client_request_add h l (some r) ≡ some (h', some r))
      × (daemon_request_add h l (some r) ≡ some (h', some r))
      × (client_add h l (some r) ≡ some (h', some r))
      × (daemon_add h l (some r) ≡ some (h', some r))
      × IsList h' (some r) ((r, t) ∷ xs)
      × (client_request_count fuel h' (some r) ≡ some (suc (length xs)))
      × (daemon_request_count fuel h' (some r) ≡ some (suc (length xs)))
      × (client_numbers fuel h' (some r) ≡ some (suc (length xs)))
      × (daemon_numbers fuel h' (some r) ≡ some (suc (length xs)))
unfolding client_request_add daemon_request_add client_add daemon_add client_request_count
    daemon_request_count client_numbers daemon_numbers
add-count_refines fuel h l xs r t k e n le =
    let (h', p, k') = push_front_lem h l xs r t k e n in
    let c = count_from_lem fuel h' none ((r, t) ∷ xs) (omega arith) k'.linked in
    (h', p, p, p, p, k', c, c, c, c)
