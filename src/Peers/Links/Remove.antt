-- ===== src/Peers/Links/Remove.antt =====
-- The removal of a thread's node, on the heap.
use std.Path.{fun_ext}
use pire2pire.Base.{
  ℕ, ◌≡◌, refl, sym, ap, subst, ◌∙◌, true, false, Option, none, some, [], ◌∷◌, ◌++◌, ◌==◌, arith,
  inl, inr, ◌⊎◌,
}
use pire2pire.Peers.Links.{
  Ptr, Node, Heap, write, set_next, set_prev, set_prev_if, find_thread, unlink_request,
  remove_request, client_request_remove,
}
use pire2pire.Peers.Links.Chain.{
  Cells, node, first_or, last_or, holds, Distinct, Linked, IsList, Linked-append, append-Linked,
  Linked-write,
}
use pire2pire.Peers.Links.Search.{drop_thread, Distinct-drop_thread, Distinct-append, Found}

pub Snoc-cases :
    (xs : Cells) → (xs ≡ []) ⊎ ((ys : Cells) × (p : ℕ) × (s : ℕ) × (xs ≡ ys ++ (p, s) ∷ []))
Snoc-cases [] = inl refl
Snoc-cases (c ∷ xs) = elim (Snoc-cases xs) [
  | inl e ↦ inr ([], c.0, c.1, ap (◌∷◌ c) e)
  | inr (ys, p, s, e) ↦ inr (c ∷ ys, p, s, ap (◌∷◌ c) e)
]

last_or-snoc : (start : Ptr) (ys : Cells) (p s : ℕ) → last_or start (ys ++ (p, s) ∷ []) ≡ some p
last_or-snoc start [] p s = refl
last_or-snoc start ((a, t) ∷ ys) p s = last_or-snoc (some a) ys p s

-- The first node goes.
unlink_first :
    (h : Heap) (l : Ptr) (a t : ℕ) (zs : Cells)
    → Linked h (some a) zs none
    → Distinct zs
    → (h' : Heap) × (unlink_request h l (node t none (first_or zs none))
        ≡ some (h', first_or zs none))
      × Linked h' none zs none
unfolding unlink_request set_prev_if set_prev
unlink_first h l a t [] k d = (h, refl, tt)
unlink_first h l a t ((b, u) ∷ zs) k d = (
  write h b (some (node u none (first_or zs none))),
  ground (arith, k.0),
  (ground arith, Linked-write h (some b) zs none b (some (node u none (first_or zs none))) k.1 d.0),
)

-- The node behind `p` goes.
abbrev Apart : Cells → Cells → Type 0
Apart xs ys = (b : ℕ) → holds b ys ≡ true → holds b xs ≡ false

relink :
    (h : Heap) (ys zs : Cells) (p s : ℕ) (q : Ptr)
    → Linked h none ys (some p)
    → Linked h (some p) zs none
    → holds p ys ≡ false
    → holds p zs ≡ false
    → Linked
        (write h p (some (node s (last_or none ys) (first_or zs none))))
        none
        (ys ++ (p, s) ∷ zs)
        none
relink h ys zs p s q y z ny nz =
    append-Linked _ none ys ((p, s) ∷ zs) none
      (Linked-write h none ys (some p) p (some (node s (last_or none ys) (first_or zs none))) y ny)
      (
        ground arith,
        Linked-write h (some p) zs none p (some (node s (last_or none ys) (first_or zs none))) z nz,
      )

write_comm :
    (h : Heap) (a b : ℕ) (c d : Option Node)
    → (a == b) ≡ false
    → write (write h a c) b d ≡ write (write h b d) a c
write_comm h a b c d n = fun_ext (λ x. ground arith)

unlink_two :
    (h : Heap) (l : Ptr) (s t u p a b : ℕ) (before after : Ptr)
    → h p ≡ some (node s before (some a))
    → h b ≡ some (node u (some a) after)
    → (p == b) ≡ false
    → unlink_request h l (node t (some p) (some b))
      ≡ some (write (write h b (some (node u (some p) after))) p (some (node s before (some b))), l)
unfolding unlink_request set_prev_if set_next set_prev
unlink_two h l s t u p a b before after hp hb n =
    rw (sym (write_comm h p b (some (node s before (some b))) (some (node u (some p) after)) n))
      ground (arith, hp, hb)

unlink_later :
    (h : Heap) (l : Ptr) (ys zs : Cells) (p s a t : ℕ)
    → Linked h none (ys ++ (p, s) ∷ (a, t) ∷ zs) none
    → Distinct (ys ++ (p, s) ∷ (a, t) ∷ zs)
    → (h' : Heap) × (unlink_request h l (node t (some p) (first_or zs none)) ≡ some (h', l))
      × Linked h' none (ys ++ (p, s) ∷ zs) none
unfolding unlink_request set_prev_if set_next set_prev
unlink_later h l ys [] p s a t k d =
    let (y, r) = Linked-append h none ys ((p, s) ∷ (a, t) ∷ []) none k in
    let (dz, apart) = Distinct-append ys ((p, s) ∷ (a, t) ∷ []) d in
    (
      write h p (some (node s (last_or none ys) none)),
      ground (arith, r.0),
      relink h ys [] p s none y tt (apart p (ground arith)) refl,
    )
unlink_later h l ys ((b, u) ∷ zs) p s a t k d =
    let (y, r) = Linked-append h none ys ((p, s) ∷ (a, t) ∷ (b, u) ∷ zs) none k in
    let (dz, apart) = Distinct-append ys ((p, s) ∷ (a, t) ∷ (b, u) ∷ zs) d in
    (
      write (write h b (some (node u (some p) (first_or zs none)))) p
          (some (node s (last_or none ys) (some b))),
      unlink_two h l s t u p a b (last_or none ys) (first_or zs none) r.0 r.1.1.0
          (ground (arith, dz.0)),
      relink (write h b (some (node u (some p) (first_or zs none)))) ys ((b, u) ∷ zs) p s none
          (Linked-write h none ys (some p) b _ y (apart b (ground arith)))
          (ground arith, Linked-write h (some b) zs none b _ r.1.1.1 dz.1.1.0)
          (apart p (ground arith)) (ground (arith, dz.0)),
    )

snoc-append : (ys zs : Cells) (c : ℕ × ℕ) → (ys ++ c ∷ []) ++ zs ≡ ys ++ c ∷ zs
snoc-append [] zs c = refl
snoc-append (y ∷ ys) zs c = ap (◌∷◌ y) (snoc-append ys zs c)

first_or-behind :
    (ys zs zs' : Cells) (c : ℕ × ℕ)
    → first_or ((ys ++ c ∷ []) ++ zs) none ≡ first_or ((ys ++ c ∷ []) ++ zs') none
first_or-behind [] zs zs' c = refl
first_or-behind (y ∷ ys) zs zs' c = refl

-- The unlinking of the node between two parts of the list, whichever they are.
abbrev Unlinks : Heap → Ptr → Cells → ℕ → ℕ → Cells → Type 0
Unlinks h l zs a t ys =
    l ≡ first_or (ys ++ (a, t) ∷ zs) none
    → Linked h none (ys ++ (a, t) ∷ zs) none
    → Distinct (ys ++ (a, t) ∷ zs)
    → (h' : Heap) × (unlink_request h l (node t (last_or none ys) (first_or zs none))
        ≡ some (h', first_or (ys ++ zs) none))
      × Linked h' none (ys ++ zs) none

unlink_behind :
    (h : Heap) (l : Ptr) (ys zs : Cells) (p s a t : ℕ) → Unlinks h l zs a t (ys ++ (p, s) ∷ [])
unlink_behind h l ys zs p s a t e k d =
    let (h', u, k') =
      unlink_later h l ys zs p s a t
        (subst (λ xs. Linked h none xs none) (snoc-append ys ((a, t) ∷ zs) (p, s)) k)
        (subst Distinct (snoc-append ys ((a, t) ∷ zs) (p, s)) d) in
    (
      h',
      rw (last_or-snoc none ys p s)
          (u ∙ ap (λ z. some (h', z)) (e ∙ first_or-behind ys ((a, t) ∷ zs) zs (p, s))),
      subst (λ xs. Linked h' none xs none) (sym (snoc-append ys zs (p, s))) k',
    )

unlink_middle : (h : Heap) (l : Ptr) (ys zs : Cells) (a t : ℕ) → Unlinks h l zs a t ys
unlink_middle h l ys zs a t = elim (Snoc-cases ys) [
  | inl n ↦ subst (Unlinks h l zs a t) (sym n) (λ e k d. unlink_first h l a t zs k.1 d.1)
  | inr (ys', p, s, n) ↦ subst (Unlinks h l zs a t) (sym n) (unlink_behind h l ys' zs p s a t)
]

remove_step :
    (fuel : ℕ) (h : Heap) (l : Ptr) (pt a : ℕ) (n : Node) (r : Heap × Ptr)
    → find_thread fuel h l pt ≡ some (a, n)
    → unlink_request h l n ≡ some r
    → remove_request fuel h l pt ≡ some r
unfolding remove_request find_thread
remove_step fuel h none pt a n r f u = absurd (ground (arith, f))
remove_step fuel h (some l) pt a n r f u = rw f u

pub remove-Found :
    (fuel : ℕ) (h : Heap) (l : Ptr) (xs : Cells) (pt : ℕ)
    → IsList h l xs
    → Found fuel h none xs pt
    → (h' : Heap) × (client_request_remove fuel h l pt
        ≡ some (h', first_or (drop_thread pt xs) none))
      × IsList h' (first_or (drop_thread pt xs) none) (drop_thread pt xs)
unfolding client_request_remove
remove-Found fuel h l xs pt k f =
    let (h', u, k') =
      unlink_middle h l f.before f.after f.addr f.thread
        (k.head ∙ ap (λ ys. first_or ys none) f.split)
        (subst (λ ys. Linked h none ys none) f.split k.linked)
        (subst Distinct f.split k.distinct) in
    (
      h',
      rw f.dropped (
          remove_step fuel h l pt f.addr
            (node f.thread (last_or none f.before) (first_or f.after none))
            (h', first_or (f.before ++ f.after) none) (rw k.head f.found) u),
      record {
        head = refl;
        linked = rw f.dropped k';
        distinct = Distinct-drop_thread pt xs k.distinct;
      },
    )
