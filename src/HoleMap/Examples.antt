-- ===== src/HoleMap/Examples.antt =====
-- The map of missing ranges on a file of ten bytes and on one with two holes.
use pire2pire.Base.{ℕ, ◌<◌, ◌≡◌, refl, none, arith}
use pire2pire.HoleMap.{
  HoleMap, null, hole, filled, fault, unchanged, hole_map_fill_gap, hole_map_free,
}
use pire2pire.HoleMap.Fill.{is_hole, Punched, fill_gap-Punched}
use pire2pire.HoleMap.Dangling.{fill_gap-dangles}

fill_gap-Punched_example :
    (r g : HoleMap) × (hole_map_fill_gap (hole 0 9 null) 3 5 ≡ filled r g)
    × Punched 0 (hole 0 9 null) 3 5 r
unfolding is_hole
fill_gap-Punched_example =
    fill_gap-Punched 0 3 5 (hole 0 9 null) (omega arith) (omega arith, omega arith, tt) refl

fill_gap-dangles_example :
    (r : HoleMap) × (hole_map_fill_gap (hole 0 1 (hole 4 5 null)) 4 5 ≡ unchanged r)
    × ((s' e' : ℕ) → 5 < s' → hole_map_fill_gap r s' e' ≡ fault)
    × (hole_map_free r ≡ none)
unfolding is_hole
fill_gap-dangles_example =
    fill_gap-dangles 0 4 5 (hole 0 1 (hole 4 5 null))
      (omega arith, omega arith, (omega arith, omega arith, tt)) refl
