-- ===== src/Peers/Links/Search.antt =====
-- The search for a thread's node, and what the removal of its entry comes to on lists.
use pire2pire.Base.{
  ℕ, zero, suc, ◌≤◌, ◌≡◌, refl, ap, Bool, true, false, ◌||◌, Bool-cases, none, some, [], ◌∷◌, ◌++◌,
  ◌==◌, if◌then◌else◌, length, arith, inl, inr,
}
use pire2pire.Peers.Links.{Ptr, Heap, find_thread}
use pire2pire.Peers.Links.Chain.{
  Cells, node, first_or, last_or, holds, Distinct, Linked, holds-append,
}

-- The list without the first entry of the thread.
unfoldable pub drop_thread : ℕ → Cells → Cells
drop_thread pt [] = []
drop_thread pt ((a, t) ∷ xs) = let rest = drop_thread pt xs in if t == pt then xs else (a, t) ∷ rest

unfoldable pub has_thread : ℕ → Cells → Bool
has_thread pt [] = false
has_thread pt ((a, t) ∷ xs) = (t == pt) || has_thread pt xs

pub holds-drop_thread :
    (b pt : ℕ) (xs : Cells) → holds b xs ≡ false → holds b (drop_thread pt xs) ≡ false
unfolding drop_thread
holds-drop_thread b pt [] k = refl
holds-drop_thread b pt ((a, t) ∷ xs) k = ground (arith, holds-drop_thread b pt xs)

pub Distinct-drop_thread : (pt : ℕ) (xs : Cells) → Distinct xs → Distinct (drop_thread pt xs)
unfolding drop_thread
Distinct-drop_thread pt [] d = tt
Distinct-drop_thread pt ((a, t) ∷ xs) d = elim (Bool-cases (t == pt)) [
  | inl e ↦ rw e d.1
  | inr e ↦ rw e (holds-drop_thread a pt xs d.0, Distinct-drop_thread pt xs d.1)
]

pub Distinct-append :
    (xs ys : Cells)
    → Distinct (xs ++ ys)
    → Distinct ys × ((b : ℕ) → holds b ys ≡ true → holds b xs ≡ false)
Distinct-append [] ys d = (d, λ b k. refl)
Distinct-append ((a, t) ∷ xs) ys d =
    let (p, q) = Distinct-append xs ys d.1 in
    (p, λ b k. ground (arith, q b, d.0, holds-append a xs ys))

-- Where the search ends, and what the removal comes to.
pub record Found (fuel : ℕ) (h : Heap) (start : Ptr) (xs : Cells) (pt : ℕ) : Type 0 where
  pub before : Cells
  pub after : Cells
  pub addr : ℕ
  pub thread : ℕ
  pub split : xs ≡ before ++ (addr, thread) ∷ after
  pub found :
      find_thread fuel h (first_or xs none) pt
      ≡ some (addr, node thread (last_or start before) (first_or after none))
  pub dropped : drop_thread pt xs ≡ before ++ after

pub find_thread_lem :
    (fuel : ℕ) (h : Heap) (start : Ptr) (xs : Cells) (pt : ℕ)
    → length xs ≤ fuel
    → Linked h start xs none
    → has_thread pt xs ≡ true
    → Found fuel h start xs pt
unfolding find_thread has_thread drop_thread
find_thread_lem fuel h start [] pt n k w = absurd (ground arith)
find_thread_lem zero h start ((a, t) ∷ xs) pt n k w = absurd (omega arith)
find_thread_lem (suc fuel) h start ((a, t) ∷ xs) pt n k w = elim (Bool-cases (t == pt)) [
  | inl e ↦ record {
    before = [];
    after = xs;
    addr = a;
    thread = t;
    split = refl;
    found = ground (arith, k.0);
    dropped = ground arith;
  }
  | inr e ↦
      let f = find_thread_lem fuel h (some a) xs pt (omega arith) k.1 (ground arith) in
      record {
        before = (a, t) ∷ f.before;
        after = f.after;
        addr = f.addr;
        thread = f.thread;
        split = ap (◌∷◌ (a, t)) f.split;
        found = ground (arith, k.0, f.found);
        dropped = ground (arith, f.dropped);
      }
]
