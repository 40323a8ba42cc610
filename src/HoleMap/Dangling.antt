-- ===== src/HoleMap/Dangling.antt =====
-- The range is the whole of a hole that is not the first: the recursive call frees that hole, and
-- what it returns is dropped, so that the hole before it still points to the freed node.
use pire2pire.Base.{
  ◌∙◌, ℕ, suc, ◌≤◌, ◌<◌, ◌≡◌, refl, true, false, ◌&&◌, inl, inr, ◌==◌, arith, Bool-cases, none,
  some,
}
use pire2pire.HoleMap.{
  HoleMap, null, hole, freed, filled, fault, unchanged, hole_map_fill_gap, hole_map_free, is_null,
  keep_next,
}
use pire2pire.HoleMap.Fill.{IsHoles, is_hole, is_later_hole}

-- The chain leads to a freed node through holes that lie below `limit`.
pub data Dangles (limit : ℕ) : HoleMap → Type 0 where
  here : Dangles limit freed
  next :
      {start end' : ℕ} {m : HoleMap}
      → start ≤ end'
      → end' < limit
      → Dangles limit m
      → Dangles limit (hole start end' m)

fill-skip :
    (start end' s e : ℕ) (m : HoleMap)
    → start ≤ end'
    → end' < s
    → is_null m ≡ false
    → hole_map_fill_gap (hole start end' m) s e ≡ keep_next start end' (hole_map_fill_gap m s e)
unfolding hole_map_fill_gap
fill-skip start end' s e m o b n = ground arith

Dangles-not_null : {limit : ℕ} {m : HoleMap} → Dangles limit m → is_null m ≡ false
unfolding is_null
Dangles-not_null here = refl
Dangles-not_null (next o b d) = refl

fill-Dangles :
    {limit : ℕ} {m : HoleMap} (s e : ℕ)
    → limit ≤ s
    → Dangles limit m
    → hole_map_fill_gap m s e ≡ fault
unfolding hole_map_fill_gap keep_next
fill-Dangles s e l here = refl
fill-Dangles s e l (next {start} {end'} {m} o b d) =
    fill-skip start end' s e m o (omega arith) (Dangles-not_null d) ∙ rw (fill-Dangles s e l d)

free-Dangles : {limit : ℕ} {m : HoleMap} → Dangles limit m → hole_map_free m ≡ none
unfolding hole_map_free
free-Dangles here = refl
free-Dangles (next o b d) = rw (free-Dangles d)

is_hole-above :
    (lo : ℕ) (m : HoleMap) (s e : ℕ)
    → IsHoles lo m
    → is_hole m s e ≡ true
    → (lo ≤ s) × (s ≤ e) × (is_null m ≡ false)
unfolding is_hole is_null
is_hole-above lo null s e h n = absurd (ground arith)
is_hole-above lo freed s e h n = absurd h
is_hole-above lo (hole start end' m) s e h n = elim (Bool-cases (start == s && end' == e)) [
  | inl whole ↦ (ground arith, ground arith, refl)
  | inr later ↦
      let (above, order, real) = is_hole-above (suc end') m s e h.2 (ground arith) in
      (omega arith, order, refl)
]

module _ (s e : ℕ) where
  fill-given_later :
      (lo start end' : ℕ) (m r g : HoleMap)
      → IsHoles lo (hole start end' m)
      → is_hole m s e ≡ true
      → hole_map_fill_gap m s e ≡ filled r g
      → Dangles (suc e) g
      → (hole_map_fill_gap (hole start end' m) s e ≡ unchanged (hole start end' g))
        × Dangles (suc e) (hole start end' g)
  unfolding keep_next
  fill-given_later lo start end' m r g h n q d =
      let (above, order, real) = is_hole-above (suc end') m s e h.2 n in
      (fill-skip start end' s e m h.1 above real ∙ rw (q, keep_next), next h.1 (omega arith) d)

  -- The pointer that was given, when the range is the whole of some hole.
  fill-given :
      (lo : ℕ) (m : HoleMap)
      → IsHoles lo m
      → is_hole m s e ≡ true
      → (r g : HoleMap) × (hole_map_fill_gap m s e ≡ filled r g) × Dangles (suc e) g
  unfolding is_hole hole_map_fill_gap
  fill-given lo null h n = absurd (ground arith)
  fill-given lo freed h n = absurd h
  fill-given lo (hole start end' m) h n = elim (Bool-cases (start == s && end' == e)) [
    | inl whole ↦ (m, freed, ground arith, here)
    | inr part ↦
        let later : is_hole m s e ≡ true = ground arith in
        let (r, g, q, d) = fill-given (suc end') m h.2 later in
        let (q', d') = fill-given_later lo start end' m r g h later q d in
        (hole start end' g, hole start end' g, q', d')
  ]

-- The defect: filling the whole of a hole that is not the first, where the holes are in order,
-- leaves a chain that leads to the freed node. Every later call for a range behind it reads freed
-- memory, and `hole_map_free` frees the node again.
pub fill_gap-dangles :
    (lo s e : ℕ) (m : HoleMap)
    → IsHoles lo m
    → is_later_hole m s e ≡ true
    → (r : HoleMap) × (hole_map_fill_gap m s e ≡ unchanged r)
      × ((s' e' : ℕ) → e < s' → hole_map_fill_gap r s' e' ≡ fault)
      × (hole_map_free r ≡ none)
fill_gap-dangles lo s e null h n = absurd (ground arith)
fill_gap-dangles lo s e freed h n = absurd h
fill_gap-dangles lo s e (hole start end' m) h n =
    let (r, g, q, d) = fill-given s e (suc end') m h.2 n in
    let (q', d') = fill-given_later s e lo start end' m r g h n q d in
    (hole start end' g, q', λ s' e' b. fill-Dangles s' e' b d', free-Dangles d')

-- With every hole allocated, `hole_map_free` gives each node back once.
pub nb_holes : HoleMap → ℕ
nb_holes null = 0
nb_holes freed = 0
nb_holes (hole start end' m) = suc (nb_holes m)

pub free-holes : (lo : ℕ) (m : HoleMap) → IsHoles lo m → hole_map_free m ≡ some (nb_holes m)
unfolding hole_map_free nb_holes
free-holes lo null h = refl
free-holes lo freed h = absurd h
free-holes lo (hole start end' m) h = rw (free-holes (suc end') m h.2)
