-- ===== src/CmdParser/Plain.antt =====
-- `cmd_parse` with no template, as the request handlers call it, and the round trip from a list of
-- words.

use mathlib.Core.List.{append_assoc, append-nil, reverse-cons, reverse-reverse}
use native.Mathlib.Nat.{zero-add}
use pire2pire.Base.{
  ℕ, suc, ◌+◌, ◌≡◌, ◌<◌, refl, sym, ap, ◌∙◌, Bool, true, false, ◌&&◌, ◌||◌, none, List, [], ◌∷◌,
  ◌++◌, inl, inr, Bytes, length, arith, if◌then◌else◌, All, Bool-cases, ◌==◌, reverse, replicate,
  length-reverse,
}
use pire2pire.CmdParser.{
  is_a_delimiter, ParseState, Parsed, parsed, failed, argument, unknown, unknown_option,
  empty_command, classify, add_arg, finish, finish_with, cmd_parse, initial_state, fill_argv,
}
use pire2pire.CmdParser.Words.{words, split, is_nonempty, parse_words, cmd_parse-parse_words}
use pire2pire.CmdParser.Argv.{fill_argv_lem}

-- A word that starts an option: "-x" and the like, and neither "-" nor "--".
unfoldable pub is_option : Bytes → Bool
is_option [] = false
is_option (c ∷ []) = false
is_option (c ∷ d ∷ []) = (c == b'-') && not_dash d
  where
    not_dash : ℕ → Bool
    not_dash d = if d == b'-' then false else true
is_option (c ∷ d ∷ e ∷ r) = c == b'-'

unfoldable pub any_option : List Bytes → Bool
any_option [] = false
any_option (w ∷ ws) = is_option w || any_option ws

unfoldable pub plain_outcome : List Bytes → Parsed
plain_outcome ws = if any_option ws then failed unknown_option else elim ws [
  | [] ↦ failed empty_command
  | w ∷ r ↦
      parsed (record { nb_template_options = 0; options = []; argc = length (w ∷ r); argv = w ∷ r })
]

classify-none : (w : Bytes) → classify none w ≡ (if is_option w then unknown else argument)
unfolding classify is_option
classify-none [] = refl
classify-none (c ∷ []) = ground arith
classify-none (c ∷ d ∷ []) = ground arith
classify-none (c ∷ d ∷ e ∷ r) = ground arith

parse_words-refused :
    (st : ParseState) (ws : List Bytes)
    → any_option ws ≡ true
    → parse_words none st ws ≡ failed unknown_option
unfolding parse_words any_option
parse_words-refused st [] h = cc
parse_words-refused st (w ∷ []) h = ground (arith, classify-none w)
parse_words-refused st (w ∷ v ∷ ws) h =
    ground (arith, classify-none w, parse_words-refused (add_arg st w) (v ∷ ws))

add_args : ParseState → List Bytes → ParseState
add_args st [] = st
add_args st (w ∷ ws) = add_args (add_arg st w) ws

parse_words-arguments :
    (st : ParseState) (ws : List Bytes)
    → any_option ws ≡ false
    → parse_words none st ws ≡ finish (add_args st ws)
unfolding parse_words any_option add_args
parse_words-arguments st [] h = refl
parse_words-arguments st (w ∷ []) h = ground (arith, classify-none w)
parse_words-arguments st (w ∷ v ∷ ws) h =
    ground (arith, classify-none w, parse_words-arguments (add_arg st w) (v ∷ ws))

add_args_lem :
    (st : ParseState) (ws : List Bytes)
    → add_args st ws ≡ record {
      options = st.options;
      argc = st.argc + length ws;
      arguments = reverse ws ++ st.arguments;
    }
unfolding add_args add_arg
add_args_lem st [] = ap (λ n. record st { argc = n }) (omega arith)
add_args_lem st (w ∷ ws) =
    add_args_lem (record st { arguments = w ∷ st.arguments; argc = st.argc + 1 }) ws ∙ λ i. record {
      options = st.options;
      argc = counted i;
      arguments = moved i;
    }
  where
    counted : st.argc + 1 + length ws ≡ st.argc + suc (length ws)
    counted = omega arith

    moved : reverse ws ++ w ∷ st.arguments ≡ reverse (w ∷ ws) ++ st.arguments
    moved = rw (reverse-cons w ws) (sym (append_assoc (reverse ws) (w ∷ []) st.arguments))

finish_with-parsed :
    (st : ParseState) (as' : List Bytes)
    → 0 < length as'
    → finish_with st as'
      ≡ parsed (record {
        nb_template_options = length st.options;
        options = st.options;
        argc = st.argc;
        argv = fill_argv st.argc 1 as' (replicate st.argc []);
      })
unfolding finish_with
finish_with-parsed st [] h = absurd (omega arith)
finish_with-parsed st (a ∷ as') h = refl

finish-arguments :
    (w : Bytes) (ws : List Bytes)
    → finish (add_args (initial_state none) (w ∷ ws))
      ≡ parsed
          (record { nb_template_options = 0; options = []; argc = length (w ∷ ws); argv = w ∷ ws })
unfolding finish initial_state
finish-arguments w ws = rw (add_args_lem (initial_state none) (w ∷ ws)) (
    finish_with-parsed
      (record { options = []; argc = 0 + length (w ∷ ws); arguments = reverse (w ∷ ws) ++ [] })
      (reverse (w ∷ ws) ++ []) (omega (arith, sizes))
    ∙ λ i. parsed (record {
      nb_template_options = 0;
      options = [];
      argc = zero-add (length (w ∷ ws)) i;
      argv = filled i;
    }))
  where
    sizes : length (reverse (w ∷ ws) ++ []) ≡ suc (length ws)
    sizes = rw (append-nil (reverse (w ∷ ws)), length-reverse (w ∷ ws))

    filled :
        fill_argv
          (0 + length (w ∷ ws))
          1
          (reverse (w ∷ ws) ++ [])
          (replicate (0 + length (w ∷ ws)) [])
        ≡ w ∷ ws
    filled = rw (append-nil (reverse (w ∷ ws))) (
        fill_argv_lem _ (reverse (w ∷ ws)) (omega (arith, length-reverse (w ∷ ws)))
        ∙ reverse-reverse (w ∷ ws))

plain_outcome-eq :
    (ws : List Bytes)
    → any_option ws ≡ false
    → finish (add_args (initial_state none) ws) ≡ plain_outcome ws
unfolding plain_outcome finish initial_state finish_with add_args any_option
plain_outcome-eq [] h = refl
plain_outcome-eq (w ∷ ws) h = rw h (finish-arguments w ws)

-- With no template, `cmd_parse` refuses a command in which some word starts an option, refuses a
-- command with no word, and otherwise returns the words themselves, with their number.
pub cmd_parse-plain : (cmd : Bytes) → cmd_parse cmd none ≡ plain_outcome (words cmd)
cmd_parse-plain cmd = cmd_parse-parse_words cmd none ∙ (elim (Bool-cases (any_option (words cmd))) [
  | inl bad ↦
      parse_words-refused (initial_state none) (words cmd) bad ∙ unfold plain_outcome in (rw bad)
  | inr good ↦
      parse_words-arguments (initial_state none) (words cmd) good
      ∙ plain_outcome-eq (words cmd) good
])

-- A word that `get_token` takes whole.
abbrev pub IsWord : Bytes → Type 0
IsWord w = (is_nonempty w ≡ true) × All (λ c. is_a_delimiter c ≡ false) w

-- The words with a space between neighbours.
unfoldable pub join : List Bytes → Bytes
join [] = []
join (w ∷ []) = w
join (w ∷ v ∷ ws) = w ++ b' ' ∷ join (v ∷ ws)

split-word : (w : Bytes) → All (λ c. is_a_delimiter c ≡ false) w → split w ≡ w ∷ []
unfolding split
split-word [] h = refl
split-word (c ∷ cs) h = ground (arith, split-word cs h.1)

split-word_then :
    (w rest : Bytes)
    → All (λ c. is_a_delimiter c ≡ false) w
    → split (w ++ b' ' ∷ rest) ≡ w ∷ split rest
unfolding split is_a_delimiter
split-word_then [] rest h = refl
split-word_then (c ∷ cs) rest h = ground (arith, split-word_then cs rest h.1)

words-join : (ws : List Bytes) → All IsWord ws → words (join ws) ≡ ws
unfolding words join
words-join [] h = unfold split in refl
words-join (w ∷ []) h = rw (split-word w h.0.1, h.0.0)
words-join (w ∷ v ∷ ws) h =
    rw (split-word_then w (join (v ∷ ws)) h.0.1, h.0.0) (ap (◌∷◌ w) (words-join (v ∷ ws) h.1))

-- Round trip: words that contain no delimiter and start no option, joined by spaces, are parsed back
-- to themselves.
pub cmd_parse-join :
    (w : Bytes) (ws : List Bytes)
    → All IsWord (w ∷ ws)
    → any_option (w ∷ ws) ≡ false
    → cmd_parse (join (w ∷ ws)) none
      ≡ parsed
          (record { nb_template_options = 0; options = []; argc = length (w ∷ ws); argv = w ∷ ws })
unfolding plain_outcome
cmd_parse-join w ws h o = cmd_parse-plain (join (w ∷ ws)) ∙ rw (words-join (w ∷ ws) h, o)
