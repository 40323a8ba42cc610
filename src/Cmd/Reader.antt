-- ===== src/Cmd/Reader.antt =====
-- The option reader: its position stays within `argv`, and its loop ends.
use pire2pire.Base.{
  ℕ, zero, suc, ◌+◌, ◌≤◌, ◌<◌, ◌≡◌, ◌≢◌, refl, Option-cases, Bool-cases, true, false, Option, none,
  some, List, [], ◌∷◌, Bytes, ◌==◌, length, get_elem?, arith, inl, inr,
}
use pire2pire.Cmd.{
  is_allowed_option, CmdOption, OptState, NextOption, fault, read_argument, read_option, at_word,
  cmd_get_next_option, skip_options, is_positive,
}

get_elem?-lt {ℓ} :
    {A : Type ℓ} (xs : List A) (i : ℕ) (x : A) → get_elem? xs i ≡ some x → i < length xs
get_elem?-lt [] i x h = absurd (ground arith)
get_elem?-lt (y ∷ ys) zero x h = omega arith
get_elem?-lt (y ∷ ys) (suc i) x h = omega (arith, get_elem?-lt ys i x h)

-- What a call does to the position.
pub IsStep : List Bytes → OptState → OptState × NextOption → Type 0
IsStep argv st r =
    (is_positive r.1 ≡ true → st.optind < r.0.optind) × (r.0.optind ≤ length argv) × (r.1 ≢ fault)

read_argument-IsStep :
    (st : OptState) (argv : List Bytes) (word : Bytes)
    → st.optind < length argv
    → IsStep argv st (read_argument st word (get_elem? argv (st.optind + 1)))
unfolding IsStep read_argument is_positive
read_argument-IsStep st argv word h = elim (Option-cases (get_elem? argv (st.optind + 1))) [
  | inl e ↦ rw e (λ k. absurd (ground arith), omega arith, λ k. ground arith)
  | inr (w, e) ↦
      let l = get_elem?-lt argv (st.optind + 1) w e in
      rw e (λ k. ground arith, ground arith, λ k. ground arith)
]

read_option-IsStep :
    (st : OptState) (argv : List Bytes) (options : List CmdOption) (word : Bytes)
    → st.optind < length argv
    → IsStep argv st (read_option st argv options word)
unfolding IsStep read_option is_positive
read_option-IsStep st argv options word h =
    let (a, b, c) = read_argument-IsStep st argv word h in
    (λ k. ground (arith, a), ground (arith, b), λ k. ground (arith, c))

get_elem?-some :
    {A : Type 0} (xs : List A) (i : ℕ) → i < length xs → (x : A) × (get_elem? xs i ≡ some x)
get_elem?-some [] i h = absurd (omega arith)
get_elem?-some (x ∷ xs) zero h = (x, refl)
get_elem?-some (x ∷ xs) (suc i) h = get_elem?-some xs i (omega arith)

-- A call with the position within `argv` leaves it there, never reads `argv` at NULL or behind it, and
-- moves the position on when it returns an option.
pub cmd_get_next_option-IsStep :
    (st : OptState) (argv : List Bytes) (options : List CmdOption)
    → st.optind ≤ length argv
    → IsStep argv st (cmd_get_next_option st argv options)
unfolding IsStep cmd_get_next_option at_word is_positive
cmd_get_next_option-IsStep st argv options h = elim (Bool-cases (st.optind == length argv)) [
  | inl e ↦ rw e (λ k. absurd (ground arith), h, λ k. ground arith)
  | inr e ↦
      let l : st.optind < length argv = ground arith in
      let (w, g) = get_elem?-some argv st.optind l in
      rw (e, g) (read_option-IsStep st argv options w l)
]

-- The loop of a handler over the options ends within as many rounds as there are words left, plus one,
-- and without a read at NULL: it stops at a word that is no option of the table, at an option whose
-- argument is missing, or at the end.
pub skip_options-ends :
    (fuel : ℕ) (st : OptState) (argv : List Bytes) (options : List CmdOption)
    → st.optind ≤ length argv
    → length argv < fuel + st.optind
    → ((skip_options fuel st argv options).1 ≢ fault)
      × ((skip_options fuel st argv options).0.optind ≤ length argv)
unfolding skip_options IsStep
skip_options-ends zero st argv options h f = absurd (omega arith)
skip_options-ends (suc fuel) st argv options h f =
    let (a, b, c) = cmd_get_next_option-IsStep st argv options h in
    elim (Bool-cases (is_positive (cmd_get_next_option st argv options).1)) [
      | inl e ↦ rw e (
          skip_options-ends fuel (cmd_get_next_option st argv options).0 argv options b
            (omega (arith, a e)))
      | inr e ↦ rw e (c, b)
    ]

empty_option :
    (st : OptState) (argv : List Bytes) (word : Bytes)
    → ((read_option st argv [] word).0 ≡ st) × (is_positive (read_option st argv [] word).1 ≡ false)
unfolding read_option is_allowed_option is_positive
empty_option st argv word = (ground arith, ground arith)

empty_word :
    (st : OptState) (argv : List Bytes) (w : Option Bytes)
    → ((at_word st argv [] w).0 ≡ st) × (is_positive (at_word st argv [] w).1 ≡ false)
unfolding at_word is_positive
empty_word st argv none = (refl, refl)
empty_word st argv (some word) = empty_option st argv word

empty_next :
    (st : OptState) (argv : List Bytes)
    → ((cmd_get_next_option st argv []).0 ≡ st)
      × (is_positive (cmd_get_next_option st argv []).1 ≡ false)
unfolding cmd_get_next_option is_positive
empty_next st argv = elim (Bool-cases (st.optind == length argv)) [
  | inl e ↦ rw e (refl, refl)
  | inr e ↦ rw e (empty_word st argv (get_elem? argv st.optind))
]

-- With an empty template the loop over the options leaves the state of the reader as it is.
pub skip_options-empty :
    (fuel : ℕ) (st : OptState) (argv : List Bytes) → (skip_options (suc fuel) st argv []).0 ≡ st
unfolding skip_options
skip_options-empty fuel st argv = let (s, p) = empty_next st argv in ground (arith, s, p)
