-- ===== src/HoleMap/Fill.antt =====
-- The missing bytes as a set, and `hole_map_fill_gap` as the removal of a range from it.
use native.Mathlib.Decide.{dec_lt}
use pire2pire.Base.{
  ℕ, suc, ◌+◌, ◌-◌, ◌≤◌, ◌<◌, ◌≡◌, refl, Bool, false, ◌&&◌, ◌||◌, inl, inr, ◌==◌, ltb, leb,
  if◌then◌else◌, arith, Bool-cases,
}
use pire2pire.HoleMap.{
  HoleMap, null, hole, freed, filled, unchanged, hole_map_new, hole_map_fill_gap,
}

-- Whether byte `x` is missing.
unfoldable pub missing : HoleMap → ℕ → Bool
missing null x = false
missing freed x = false
missing (hole start end' next) x = (leb start x && leb x end') || missing next x

-- Non-empty holes from `lo` on, in order and apart, none of them freed.
abbrev pub IsHoles : ℕ → HoleMap → Type 0
IsHoles lo null = Unit
IsHoles lo freed = ⊥
IsHoles lo (hole start end' next) = (lo ≤ start) × (start ≤ end') × IsHoles (suc end') next

-- Whether some hole holds the whole range.
unfoldable pub fits : HoleMap → ℕ → ℕ → Bool
fits null s e = false
fits freed s e = false
fits (hole start end' next) s e = (leb start s && leb e end') || fits next s e

-- Whether some hole is the range.
unfoldable pub is_hole : HoleMap → ℕ → ℕ → Bool
is_hole null s e = false
is_hole freed s e = false
is_hole (hole start end' next) s e = (start == s && end' == e) || is_hole next s e

abbrev pub is_later_hole : HoleMap → ℕ → ℕ → Bool
is_later_hole null s e = false
is_later_hole freed s e = false
is_later_hole (hole start end' next) s e = is_hole next s e

-- `r` is `m` less the range, if a hole of `m` holds the range, and `m` otherwise.
pub record Punched (lo : ℕ) (m : HoleMap) (s e : ℕ) (r : HoleMap) : Type 0 where
  pub holes : IsHoles lo r
  pub bytes :
      (x : ℕ) → missing r x ≡ (if fits m s e && (leb s x && leb x e) then false else missing m x)

fits-below : (lo : ℕ) (m : HoleMap) (s e : ℕ) → IsHoles lo m → s < lo → fits m s e ≡ false
unfolding fits
fits-below lo null s e h l = refl
fits-below lo freed s e h l = refl
fits-below lo (hole start end' next) s e h l = ground (arith, fits-below (suc end') next s e h.2)

missing-below : (lo : ℕ) (m : HoleMap) (x : ℕ) → IsHoles lo m → x < lo → missing m x ≡ false
unfolding missing
missing-below lo null x h l = refl
missing-below lo freed x h l = refl
missing-below lo (hole start end' next) x h l = ground (arith, missing-below (suc end') next x h.2)

IsHoles-mono : (lo lo' : ℕ) (m : HoleMap) → lo' ≤ lo → IsHoles lo m → IsHoles lo' m
IsHoles-mono lo lo' null l h = tt
IsHoles-mono lo lo' freed l h = h
IsHoles-mono lo lo' (hole start end' next) l h = (omega arith, h.1, h.2)

-- Where a range lies, seen from one hole.
data Position (start end' s e : ℕ) : Type 0 where
  before : s < start → Position start end' s e
  beyond : end' < s → Position start end' s e
  at_left : s ≡ start → e < end' → Position start end' s e
  exact : s ≡ start → e ≡ end' → Position start end' s e
  inside : start < s → e < end' → Position start end' s e
  at_right : start < s → s ≤ end' → e ≡ end' → Position start end' s e
  across : start ≤ s → s ≤ end' → end' < e → Position start end' s e

position : (start end' s e : ℕ) → s ≤ e → Position start end' s e
position start end' s e r = elim (dec_lt s start) [
  | yes a ↦ before a
  | no a ↦ elim (dec_lt end' s) [
    | yes b ↦ beyond b
    | no b ↦ elim (dec_lt end' e) [
      | yes c ↦ across (omega arith) (omega arith) c
      | no c ↦ elim (dec_lt start s) [
        | yes d ↦ elim (dec_lt e end') [
          | yes f ↦ inside d f
          | no f ↦ at_right d (omega arith) (omega arith)
        ]
        | no d ↦ elim (dec_lt e end') [
          | yes f ↦ at_left (omega arith) f
          | no f ↦ exact (omega arith) (omega arith)
        ]
      ]
    ]
  ]
]

module _ (s e : ℕ) (range : s ≤ e) where
  abbrev FillsTo : ℕ → HoleMap → Type 0
  FillsTo lo m = (r : HoleMap) × (hole_map_fill_gap m s e ≡ unchanged r) × Punched lo m s e r

  -- A call that goes on to the next hole.
  fill-beyond :
      (lo start end' : ℕ) (next : HoleMap)
      → IsHoles lo (hole start end' next)
      → end' < s
      → FillsTo (suc end') next
      → FillsTo lo (hole start end' next)
  unfolding hole_map_fill_gap missing fits
  fill-beyond lo start end' null h b f =
      (hole start end' null, ground arith, record { holes = h; bytes = λ x. ground arith })
  fill-beyond lo start end' freed h b f = absurd h.2
  fill-beyond lo start end' (hole start' end'' next) h b (r, q, p) = (
    hole start end' r,
    ground arith,
    record { holes = (h.0, h.1, p.holes); bytes = λ x. ground (arith, p.bytes x) },
  )

  -- Every range but the whole of this hole.
  fill-here :
      (lo start end' : ℕ) (next : HoleMap)
      → IsHoles lo (hole start end' next)
      → (start == s && end' == e) ≡ false
      → FillsTo (suc end') next
      → FillsTo lo (hole start end' next)
  unfolding hole_map_fill_gap missing fits
  fill-here lo start end' next h n f = elim (position start end' s e range) [
    | before a ↦ (
      hole start end' next,
      ground arith,
      record { holes = h; bytes = λ x. ground (arith, fits-below (suc end') next s e h.2) },
    )
    | beyond a ↦ fill-beyond lo start end' next h a f
    | at_left a b ↦ (
      hole (e + 1) end' next,
      ground arith,
      record {
        holes = (omega arith, omega arith, h.2);
        bytes = λ x. ground (arith, missing-below (suc end') next x h.2);
      },
    )
    | exact a b ↦ absurd (ground arith)
    | inside a b ↦ (
      hole start (s - 1) (hole (e + 1) end' next),
      ground arith,
      record {
        holes = (omega arith, omega arith, (omega arith, omega arith, h.2));
        bytes = λ x. ground (arith, missing-below (suc end') next x h.2);
      },
    )
    | at_right a b c ↦ (
      hole start (s - 1) next,
      ground arith,
      record {
        holes = (
          omega arith,
          omega arith,
          IsHoles-mono (suc end') (suc (s - 1)) next (omega arith) h.2,
        );
        bytes = λ x. ground (arith, missing-below (suc end') next x h.2);
      },
    )
    | across a b c ↦ (
      hole start end' next,
      ground arith,
      record { holes = h; bytes = λ x. ground (arith, fits-below (suc end') next s e h.2) },
    )
  ]

  fill-elsewhere : (lo : ℕ) (m : HoleMap) → IsHoles lo m → is_hole m s e ≡ false → FillsTo lo m
  unfolding hole_map_fill_gap missing fits is_hole
  fill-elsewhere lo null h n = (null, refl, record { holes = tt; bytes = λ x. refl })
  fill-elsewhere lo freed h n = absurd h
  fill-elsewhere lo (hole start end' next) h n =
      fill-here lo start end' next h (ground arith)
        (fill-elsewhere (suc end') next h.2 (ground arith))

  fill-exact :
      (lo : ℕ) (m : HoleMap)
      → IsHoles lo m
      → is_later_hole m s e ≡ false
      → (r g : HoleMap) × (hole_map_fill_gap m s e ≡ filled r g) × Punched lo m s e r
  unfolding hole_map_fill_gap missing fits is_hole
  fill-exact lo null h n = (null, null, refl, record { holes = tt; bytes = λ x. refl })
  fill-exact lo freed h n = absurd h
  fill-exact lo (hole start end' next) h n = elim (Bool-cases (start == s && end' == e)) [
    | inl whole ↦ (
      next,
      freed,
      ground arith,
      record {
        holes = IsHoles-mono (suc end') lo next (omega arith) h.2;
        bytes = λ x. ground (arith, missing-below (suc end') next x h.2);
      },
    )
    | inr part ↦
        let (r, q, p) = fill-elsewhere lo (hole start end' next) h (ground arith) in (r, r, q, p)
  ]

-- Filling a range that is not empty and not the whole of a later hole, where the holes are in
-- order: the call does not fault, and the holes that it returns are again in order, and miss
-- exactly the bytes that were missing less the range, if one hole holds the range, or all that
-- were missing, if none does.
pub fill_gap-Punched :
    (lo s e : ℕ) (m : HoleMap)
    → s ≤ e
    → IsHoles lo m
    → is_later_hole m s e ≡ false
    → (r g : HoleMap) × (hole_map_fill_gap m s e ≡ filled r g) × Punched lo m s e r
fill_gap-Punched lo s e m range h n = fill-exact s e range lo m h n

-- A new map of a file misses its bytes, and no others.
pub missing-new : (size x : ℕ) → 0 < size → missing (hole_map_new 0 (size - 1)) x ≡ ltb x size
unfolding missing hole_map_new
missing-new size x h = ground arith
