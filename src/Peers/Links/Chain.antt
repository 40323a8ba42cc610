-- ===== src/Peers/Links/Chain.antt =====
-- What a well-formed list is on the heap, and what writes to other addresses leave alone.
use pire2pire.Base.{
  ℕ, ◌≡◌, refl, Bool, false, ◌||◌, Option, none, some, List, [], ◌∷◌, ◌++◌, ◌==◌, arith,
}
use pire2pire.Peers.Links.{Ptr, Node, Heap, write}

-- A list of peers or of requests: the address and the thread of each node, in order.
abbrev pub Cells : Type 0
Cells = List (ℕ × ℕ)

abbrev pub node : ℕ → Ptr → Ptr → Node
node t p n = record { thread_id = t; prev = p; next = n }

abbrev pub first_or : Cells → Ptr → Ptr
first_or [] end' = end'
first_or ((a, t) ∷ xs) end' = some a

abbrev pub last_or : Ptr → Cells → Ptr
last_or start [] = start
last_or start ((a, t) ∷ xs) = last_or (some a) xs

abbrev pub holds : ℕ → Cells → Bool
holds b [] = false
holds b ((a, t) ∷ xs) = (b == a) || holds b xs

-- No node stands twice in the list.
abbrev pub Distinct : Cells → Type 0
Distinct [] = Unit
Distinct ((a, t) ∷ xs) = (holds a xs ≡ false) × Distinct xs

-- The nodes of the cells are linked in order, behind `start` and before `end'`.
abbrev pub Linked : Heap → Ptr → Cells → Ptr → Type 0
Linked h start [] end' = Unit
Linked h start ((a, t) ∷ xs) end' =
    (h a ≡ some (node t start (first_or xs end'))) × Linked h (some a) xs end'

pub record IsList (h : Heap) (l : Ptr) (xs : Cells) : Type 0 where
  pub head : l ≡ first_or xs none
  pub linked : Linked h none xs none
  pub distinct : Distinct xs

pub Linked-append :
    (h : Heap) (start : Ptr) (xs ys : Cells) (end' : Ptr)
    → Linked h start (xs ++ ys) end'
    → Linked h start xs (first_or ys end') × Linked h (last_or start xs) ys end'
Linked-append h start [] ys end' k = (tt, k)
Linked-append h start ((a, t) ∷ []) ys end' k = ((k.0, tt), k.1)
Linked-append h start ((a, t) ∷ (b, u) ∷ xs) ys end' k =
    let (p, q) = Linked-append h (some a) ((b, u) ∷ xs) ys end' k.1 in ((k.0, p), q)

pub append-Linked :
    (h : Heap) (start : Ptr) (xs ys : Cells) (end' : Ptr)
    → Linked h start xs (first_or ys end')
    → Linked h (last_or start xs) ys end'
    → Linked h start (xs ++ ys) end'
append-Linked h start [] ys end' p q = q
append-Linked h start ((a, t) ∷ []) ys end' p q = (p.0, q)
append-Linked h start ((a, t) ∷ (b, u) ∷ xs) ys end' p q =
    (p.0, append-Linked h (some a) ((b, u) ∷ xs) ys end' p.1 q)

pub Linked-write :
    (h : Heap) (start : Ptr) (xs : Cells) (end' : Ptr) (b : ℕ) (c : Option Node)
    → Linked h start xs end'
    → holds b xs ≡ false
    → Linked (write h b c) start xs end'
Linked-write h start [] end' b c k n = tt
Linked-write h start ((a, t) ∷ xs) end' b c k n =
    (ground (arith, k.0), Linked-write h (some a) xs end' b c k.1 (ground arith))

pub holds-append : (b : ℕ) (xs ys : Cells) → holds b (xs ++ ys) ≡ (holds b xs || holds b ys)
holds-append b [] ys = refl
holds-append b ((a, t) ∷ xs) ys = ground (arith, holds-append b xs ys)
