-- ===== src/HoleMap.antt =====
-- branches/block_by_block/daemon/hole_map.c and hole_map.h: the byte ranges of a file that are still
-- missing. A pointer is shown as what it leads to: `freed` is a node that has been given back to
-- `free`, and following it is a fault. Offsets are natural numbers: a file is not empty, and the
-- caller refuses negative bounds (daemon_request_ready.c).
pub mod Fill
pub mod Dangling
mod Examples
use pire2pire.Base.{
  ℕ, zero, suc, ◌+◌, ◌-◌, Bool, true, false, ◌&&◌, ◌||◌, Option, none, some, ◌==◌, ltb, leb,
  if◌then◌else◌,
}

pub data HoleMap : Type 0 where
  null : HoleMap
  hole : (start end' : ℕ) → HoleMap → HoleMap
  freed : HoleMap

pub hole_map_new : ℕ → ℕ → HoleMap
hole_map_new s e = hole s e null

-- What `hole_map_fill_gap` returns, and what the pointer that it was given leads to afterwards.
pub data Filled : Type 0 where
  filled : (returned given : HoleMap) → Filled
  fault : Filled

abbrev pub unchanged : HoleMap → Filled
unchanged m = filled m m

is_null : HoleMap → Bool
is_null null = true
is_null (hole s e next) = false
is_null freed = false

-- The recursive call's result is dropped: the node keeps its `next` pointer.
keep_next : ℕ → ℕ → Filled → Filled
keep_next start end' (filled returned given) = unchanged (hole start end' given)
keep_next start end' fault = fault

pub hole_map_fill_gap : HoleMap → ℕ → ℕ → Filled
unfolding is_null keep_next
hole_map_fill_gap null s e = unchanged null
hole_map_fill_gap freed s e = fault
hole_map_fill_gap (hole start end' next) s e =
    let deeper = keep_next start end' (hole_map_fill_gap next s e) in
    if ltb s start
    then unchanged (hole start end' next)
    else if ltb end' s && (if is_null next then false else true)
    then deeper
    else if s == start
    then (if ltb e end'
        then unchanged (hole (e + 1) end' next)
        else if e == end'
        then filled next freed
        else unchanged (hole start end' next))
    else if ltb e end'
    then unchanged (hole start (s - 1) (hole (e + 1) end' next))
    else if e == end'
    then unchanged (hole start (s - 1) next)
    else unchanged (hole start end' next)

-- The number of nodes freed; `none` is a second `free` of a node.
pub hole_map_free : HoleMap → Option ℕ
hole_map_free null = some 0
hole_map_free freed = none
hole_map_free (hole start end' next) = elim (hole_map_free next) [
  | none ↦ none
  | some n ↦ some (suc n)
]
