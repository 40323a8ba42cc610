-- ===== src/Base/Numbers.antt =====
-- Decimal numerals: atoi of stdlib.h on 64-bit longs and 32-bit ints, and the "%d" of printf for a
-- number that is not negative.
use Prim.Native.Nat.{ℕ, zero, suc, ◌+◌, ◌-◌, ◌*◌, ◌/◌, ◌%◌, ◌^◌, ◌≤◌, ◌<◌, min}
use mathlib.Core.Path.{◌≡◌, refl, ◌∙◌, ap}
use mathlib.Core.Logic.{inl, inr}
use mathlib.Core.Bool.{Bool, true, false, ◌&&◌, ◌||◌}
use mathlib.Core.List.{[], ◌∷◌}
use mathlib.Core.Option.{Option, none, some}
use native.Mathlib.Omega.{arith}
use pire2pire.Base.Tests.{◌==◌, if◌then◌else◌, leb, ltb, Bool-cases}
use pire2pire.Base.Text.{Bytes, is_digit, digits_from}
use pire2pire.Base.Lists.{All}

is_space : ℕ → Bool
is_space c = (c == b' ') || (leb 9 c && leb c 13)

skip_spaces : Bytes → Bytes
unfolding is_space
skip_spaces [] = []
skip_spaces (c ∷ cs) = let rest = skip_spaces cs in if is_space c then rest else c ∷ cs

-- strtol stops at 2^63 - 1 and at - 2^63.
positive : ℕ → ℕ
positive n = min n (2 ^ 63 - 1) % 2 ^ 32

negative : ℕ → ℕ
negative n = (2 ^ 32 - min n (2 ^ 63) % 2 ^ 32) % 2 ^ 32

signed : Bytes → ℕ
unfolding positive negative
signed [] = 0
signed (c ∷ cs) =
    if c == b'-'
    then negative (digits_from 0 cs)
    else if c == b'+'
    then positive (digits_from 0 cs)
    else positive (digits_from 0 (c ∷ cs))

-- The bit pattern of the int.
unfoldable pub atoi : Bytes → ℕ
unfolding signed skip_spaces
atoi s = signed (skip_spaces s)

unfoldable pub numeral : ℕ → ℕ → Bytes → Bytes
numeral zero n acc = acc
numeral (suc fuel) n acc =
    let more = numeral fuel (n / 10) ((48 + n % 10) ∷ acc) in
    if ltb n 10 then (48 + n) ∷ acc else more

-- A number has fewer digits than `n + 1` when it is `n`.
unfoldable pub decimal : ℕ → Bytes
unfolding numeral
decimal n = numeral (suc n) n []

-- All bytes of a numeral are digits, and the first one is there.
unfoldable pub IsNumeral : Bytes → Type 0
IsNumeral [] = false ≡ true
IsNumeral (c ∷ cs) = (is_digit c ≡ true) × All (λ d. is_digit d ≡ true) cs

is_digit-digit : (k : ℕ) → k < 10 → is_digit (48 + k) ≡ true
is_digit-digit k h = ground arith

digit-step :
    (a k : ℕ) (acc : Bytes) → k < 10 → digits_from a ((48 + k) ∷ acc) ≡ digits_from (a * 10 + k) acc
unfolding digits_from
digit-step a k acc h = rw (is_digit-digit k h) (ap (λ n. digits_from n acc) (omega arith))

digits_from-numeral :
    (fuel n : ℕ) (acc : Bytes) → n < fuel → digits_from 0 (numeral fuel n acc) ≡ digits_from n acc
unfolding numeral
digits_from-numeral zero n acc h = absurd (omega arith)
digits_from-numeral (suc fuel) n acc h = elim (Bool-cases (ltb n 10)) [
  | inl e ↦ rw e (digit-step 0 n acc (ground arith) ∙ ap (λ k. digits_from k acc) (omega arith))
  | inr e ↦
      let big : 10 ≤ n = ground arith in
      rw e (
        digits_from-numeral fuel (n / 10) ((48 + n % 10) ∷ acc) (omega arith)
        ∙ digit-step (n / 10) (n % 10) acc (omega arith)
        ∙ ap (λ k. digits_from k acc) (omega arith))
]

numeral-IsNumeral :
    (fuel n : ℕ) (acc : Bytes)
    → n < fuel
    → All (λ d. is_digit d ≡ true) acc
    → IsNumeral (numeral fuel n acc)
unfolding numeral IsNumeral
numeral-IsNumeral zero n acc h a = absurd (omega arith)
numeral-IsNumeral (suc fuel) n acc h a = elim (Bool-cases (ltb n 10)) [
  | inl e ↦ rw e (is_digit-digit n (ground arith), a)
  | inr e ↦
      let big : 10 ≤ n = ground arith in
      rw e (
        numeral-IsNumeral fuel (n / 10) ((48 + n % 10) ∷ acc) (omega arith)
          (is_digit-digit (n % 10) (omega arith), a))
]

pub decimal-IsNumeral : (n : ℕ) → IsNumeral (decimal n)
unfolding decimal
decimal-IsNumeral n = numeral-IsNumeral (suc n) n [] (omega arith) tt

atoi-numeral : (w : Bytes) → IsNumeral w → atoi w ≡ positive (digits_from 0 w)
unfolding atoi skip_spaces is_space signed IsNumeral
atoi-numeral [] h = absurd (ground arith)
atoi-numeral (c ∷ cs) h = ground (arith, h.0)

-- What printf writes for a port, atoi reads back.
pub atoi-decimal : (n : ℕ) → n < 2 ^ 31 → atoi (decimal n) ≡ n
unfolding decimal positive digits_from
atoi-decimal n h =
    atoi-numeral (decimal n) (decimal-IsNumeral n)
    ∙ ap positive (digits_from-numeral (suc n) n [] (omega arith))
    ∙ omega arith

starts_number : Bytes → Bool
starts_number [] = false
starts_number (c ∷ []) = is_digit c
starts_number (c ∷ d ∷ cs) = is_digit c || ((c == b'-' || c == b'+') && is_digit d)

-- `sscanf (s, "%d", &n)`: none when it returns less than 1.
unfoldable pub scan_int : Bytes → Option ℕ
unfolding atoi skip_spaces starts_number
scan_int s = if starts_number (skip_spaces s) then some (atoi s) else none

-- "%d" for the bit pattern of an int.
unfoldable pub print_int : ℕ → Bytes
print_int n = if ltb n (2 ^ 31) then decimal n else b'-' ∷ decimal (2 ^ 32 - n)

pub print_int-decimal : (n : ℕ) → n < 2 ^ 31 → print_int n ≡ decimal n
unfolding print_int
print_int-decimal n h = ground arith

positive_long : ℕ → ℕ
positive_long n = min n (2 ^ 63 - 1)

negative_long : ℕ → ℕ
negative_long n = (2 ^ 64 - min n (2 ^ 63)) % 2 ^ 64

signed_long : Bytes → ℕ
unfolding positive_long negative_long
signed_long [] = 0
signed_long (c ∷ cs) =
    if c == b'-'
    then negative_long (digits_from 0 cs)
    else if c == b'+'
    then positive_long (digits_from 0 cs)
    else positive_long (digits_from 0 (c ∷ cs))

-- atol: the bit pattern of the long.
unfoldable pub atol : Bytes → ℕ
unfolding signed_long skip_spaces
atol s = signed_long (skip_spaces s)

-- "%ld" for the bit pattern of a long.
unfoldable pub print_long : ℕ → Bytes
print_long n = if ltb n (2 ^ 63) then decimal n else b'-' ∷ decimal (2 ^ 64 - n)

atol-numeral : (w : Bytes) → IsNumeral w → atol w ≡ positive_long (digits_from 0 w)
unfolding atol skip_spaces is_space signed_long IsNumeral
atol-numeral [] h = absurd (ground arith)
atol-numeral (c ∷ cs) h = ground (arith, h.0)

pub atol-decimal : (n : ℕ) → n < 2 ^ 63 → atol (decimal n) ≡ n
unfolding decimal positive_long digits_from
atol-decimal n h =
    atol-numeral (decimal n) (decimal-IsNumeral n)
    ∙ ap positive_long (digits_from-numeral (suc n) n [] (omega arith))
    ∙ omega arith

atol-minus : (w : Bytes) → atol (b'-' ∷ w) ≡ negative_long (digits_from 0 w)
unfolding atol skip_spaces is_space signed_long
atol-minus w = refl

pub atol-negative : (n : ℕ) → 0 < n → n ≤ 2 ^ 63 → atol (b'-' ∷ decimal n) ≡ 2 ^ 64 - n
unfolding decimal negative_long digits_from
atol-negative n h l =
    atol-minus (decimal n)
    ∙ ap negative_long (digits_from-numeral (suc n) n [] (omega arith))
    ∙ omega arith

starts_number-numeral : (w : Bytes) → IsNumeral w → starts_number (skip_spaces w) ≡ true
unfolding IsNumeral skip_spaces is_space starts_number
starts_number-numeral [] h = absurd (ground (arith, h))
starts_number-numeral (c ∷ []) h = ground (arith, h.0)
starts_number-numeral (c ∷ d ∷ cs) h = ground (arith, h.0, h.1.0)

pub scan_int-decimal : (n : ℕ) → n < 2 ^ 31 → scan_int (decimal n) ≡ some n
unfolding scan_int
scan_int-decimal n h =
    rw (starts_number-numeral (decimal n) (decimal-IsNumeral n), atoi-decimal n h) refl
