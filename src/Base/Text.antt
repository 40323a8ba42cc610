-- ===== src/Base/Text.antt =====
-- C strings: the bytes before the NUL, the comparisons of string.h, and literals.
use Prim.Native.Nat.{ℕ, ◌+◌, ◌-◌, ◌*◌, compare, Ordering}
use Prim.Native.Char.{code}
use Prim.Native.String.{String}
use mathlib.Core.Path.{◌≡◌, refl}
use mathlib.Core.Bool.{Bool, true, false, ◌&&◌}
use mathlib.Core.List.{List, [], ◌∷◌}
use mathlib.Core.Option.{Option, none, some}
use native.Mathlib.Omega.{arith}
use pire2pire.Base.Tests.{◌==◌, if◌then◌else◌, leb}

abbrev pub Bytes : Type 0
Bytes = List ℕ

-- The bytes of an ASCII literal.
abbrev pub codes : String → Bytes
codes String.[] = []
codes (String.◌∷◌ c s) = code c ∷ codes s

-- strcmp: lexicographic, the shorter string first.
unfoldable pub strcmp : Bytes → Bytes → Ordering
strcmp [] [] = Ordering.eq
strcmp [] (b ∷ bs) = Ordering.lt
strcmp (a ∷ as') [] = Ordering.gt
strcmp (a ∷ as') (b ∷ bs) = elim (compare a b) [
  | Ordering.lt ↦ Ordering.lt
  | Ordering.eq ↦ strcmp as' bs
  | Ordering.gt ↦ Ordering.gt
]

-- `strcmp (a, b) == 0`
unfoldable pub str_eq : Bytes → Bytes → Bool
str_eq [] [] = true
str_eq [] (b ∷ bs) = false
str_eq (a ∷ as') [] = false
str_eq (a ∷ as') (b ∷ bs) = (a == b) && str_eq as' bs

-- `strncmp (s, p, strlen (p)) == 0`
unfoldable pub starts_with : Bytes → Bytes → Bool
starts_with s [] = true
starts_with [] (p ∷ ps) = false
starts_with (c ∷ s) (p ∷ ps) = (c == p) && starts_with s ps

-- `strchr (s, c)`, for `c` not NUL: what stands before the first `c`, and what stands behind it.
unfoldable pub strchr : ℕ → Bytes → Option (Bytes × Bytes)
strchr c [] = none
strchr c (b ∷ bs) =
    let rest : Option (Bytes × Bytes) = elim (strchr c bs) [
      | none ↦ none
      | some (front, back) ↦ some (b ∷ front, back)
    ] in
    if b == c then some ([], bs) else rest

abbrev pub is_digit : ℕ → Bool
is_digit c = leb b'0' c && leb c b'9'

-- The number that leading digits write, from `acc`.
unfoldable pub digits_from : ℕ → Bytes → ℕ
digits_from acc [] = acc
digits_from acc (c ∷ cs) =
    let rest = digits_from (acc * 10 + (c - b'0')) cs in if is_digit c then rest else acc

pub strcmp_refl : (a : Bytes) → strcmp a a ≡ Ordering.eq
unfolding strcmp
strcmp_refl [] = refl
strcmp_refl (x ∷ xs) = ground (arith, strcmp_refl xs)

pub eq_of_strcmp : (a b : Bytes) → strcmp a b ≡ Ordering.eq → a ≡ b
unfolding strcmp
eq_of_strcmp [] [] h = refl
eq_of_strcmp [] (y ∷ ys) h = ground arith
eq_of_strcmp (x ∷ xs) [] h = ground arith
eq_of_strcmp (x ∷ xs) (y ∷ ys) h = ground (arith, eq_of_strcmp xs ys)

pub strcmp_lt_of_gt : (a b : Bytes) → strcmp a b ≡ Ordering.gt → strcmp b a ≡ Ordering.lt
unfolding strcmp
strcmp_lt_of_gt [] [] h = ground arith
strcmp_lt_of_gt [] (y ∷ ys) h = ground arith
strcmp_lt_of_gt (x ∷ xs) [] h = refl
strcmp_lt_of_gt (x ∷ xs) (y ∷ ys) h = ground (arith, strcmp_lt_of_gt xs ys)

pub strcmp_gt_of_lt : (a b : Bytes) → strcmp a b ≡ Ordering.lt → strcmp b a ≡ Ordering.gt
unfolding strcmp
strcmp_gt_of_lt [] [] h = ground arith
strcmp_gt_of_lt [] (y ∷ ys) h = refl
strcmp_gt_of_lt (x ∷ xs) [] h = ground arith
strcmp_gt_of_lt (x ∷ xs) (y ∷ ys) h = ground (arith, strcmp_gt_of_lt xs ys)

pub eq_of_str_eq : (a b : Bytes) → str_eq a b ≡ true → a ≡ b
unfolding str_eq
eq_of_str_eq [] [] h = refl
eq_of_str_eq [] (y ∷ ys) h = ground arith
eq_of_str_eq (x ∷ xs) [] h = ground arith
eq_of_str_eq (x ∷ xs) (y ∷ ys) h = ground (arith, eq_of_str_eq xs ys)

pub str_eq_refl : (a : Bytes) → str_eq a a ≡ true
unfolding str_eq
str_eq_refl [] = refl
str_eq_refl (x ∷ xs) = ground (arith, str_eq_refl xs)
