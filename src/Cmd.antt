-- ===== src/Cmd.antt =====
-- trunk/daemon/util/cmd.c and cmd.h: the splitting of a line into words at single spaces, and the
-- option reader whose position `optind` is a global that no function resets.
pub mod Split
pub mod Reader
use pire2pire.Base.{
  ℕ, zero, suc, ◌+◌, Bool, true, false, ◌||◌, not, Option, none, some, List, [], ◌∷◌, ◌++◌, Bytes,
  ◌==◌, if◌then◌else◌, str_eq, length, get_elem?, drop,
}

unfoldable pub is_a_delimiter : ℕ → Bool
is_a_delimiter c = c == b' ' || c == 0

-- The `for` loop: `piece` is what stands between `beginning` and `i`.
split_loop : Bytes → Bytes → List Bytes
split_loop piece [] = piece ∷ []
split_loop piece (c ∷ cs) =
    if is_a_delimiter c then piece ∷ split_loop [] cs else split_loop (piece ++ c ∷ []) cs

-- `argv` before its NULL; `argc` is its length.
pub cmd_to_argc_argv : Bytes → List Bytes
unfolding split_loop
cmd_to_argc_argv s = split_loop [] s

pub record CmdOption : Type 0 where
  pub short_name : Bytes
  pub has_arg : Bool

pub is_allowed_option : Bytes → List CmdOption → Bool
is_allowed_option o [] = false
is_allowed_option o (t ∷ ts) = if str_eq o t.short_name then true else is_allowed_option o ts

pub requires_argument : Bytes → List CmdOption → Bool
requires_argument o [] = false
requires_argument o (t ∷ ts) = if str_eq o t.short_name then t.has_arg else requires_argument o ts

-- The globals `optind` and `optarg`.
pub record OptState : Type 0 where
  pub optind : ℕ
  pub optarg : Option Bytes

-- What a call returns; `fault` is a read of `argv` at NULL or behind it.
pub data NextOption : Type 0 where
  end_of_options not_allowed_option missing_argument fault : NextOption
  opt : ℕ → NextOption

-- `word[i]`, where a word is read up to its NUL.
char_at : Bytes → ℕ → ℕ
char_at word i = elim (get_elem? word i) [ none ↦ 0 | some c ↦ c ]

read_argument : OptState → Bytes → Option Bytes → OptState × NextOption
unfolding char_at
read_argument st word none = (st, missing_argument)
read_argument st word (some next) =
    if char_at next 0 == b'-'
    then (st, missing_argument)
    else (record { optind = st.optind + 2; optarg = some next }, opt (char_at word 1))

read_option : OptState → List Bytes → List CmdOption → Bytes → OptState × NextOption
unfolding char_at read_argument
read_option st argv options word =
    if char_at word 0 == b'-'
    then (if is_allowed_option (drop 1 word) options
        then (if requires_argument (drop 1 word) options
            then read_argument st word (get_elem? argv (st.optind + 1))
            else (record st { optind = st.optind + 1 }, opt (char_at word 1)))
        else (st, not_allowed_option))
    else (st, end_of_options)

at_word : OptState → List Bytes → List CmdOption → Option Bytes → OptState × NextOption
unfolding read_option
at_word st argv options none = (st, fault)
at_word st argv options (some word) = read_option st argv options word

pub cmd_get_next_option : OptState → List Bytes → List CmdOption → OptState × NextOption
unfolding at_word
cmd_get_next_option st argv options =
    if st.optind == length argv
    then (st, end_of_options)
    else at_word st argv options (get_elem? argv st.optind)

-- `c > 0`: every other way to return stands for -1.
is_positive : NextOption → Bool
is_positive end_of_options = false
is_positive not_allowed_option = false
is_positive missing_argument = false
is_positive fault = false
is_positive (opt o) = not (o == 0)

-- `while ((c = cmd_get_next_option (argc, argv, options)) > 0);` as the handlers write it.
pub skip_options : ℕ → OptState → List Bytes → List CmdOption → OptState × NextOption
unfolding is_positive cmd_get_next_option
skip_options zero st argv options = (st, fault)
skip_options (suc fuel) st argv options =
    let next = cmd_get_next_option st argv options in
    let rest = skip_options fuel next.0 argv options in if is_positive next.1 then rest else next
