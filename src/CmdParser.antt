-- ===== src/CmdParser.antt =====
-- trunk/daemon/util/cmd_parser.c and cmd_parser.h: the command-line parser of the daemon. The
-- cursor of `get_token` is what is left of the command; NULL is `none`.
pub mod Words
pub mod Argv
pub mod Options
pub mod Plain
mod Examples
use pire2pire.Base.{
  ℕ, zero, suc, ◌+◌, ◌-◌, Bool, true, false, ◌&&◌, ◌||◌, Option, none, some, List, [], ◌∷◌, reverse,
  Bytes, ◌==◌, if◌then◌else◌, str_eq, length, get_elem?, set, replicate, is_some, drop,
}

unfoldable pub is_a_delimiter : ℕ → Bool
is_a_delimiter c = c == b' ' || c == 10 || c == 0

pub skip_delimiters : Bytes → Bytes
skip_delimiters [] = []
skip_delimiters (c ∷ cs) = if is_a_delimiter c then skip_delimiters cs else c ∷ cs

-- The bytes up to the next delimiter, and the rest from it on.
pub span_token : Bytes → Bytes × Bytes
span_token [] = ([], [])
span_token (c ∷ cs) =
    let (front, back) = span_token cs in
    if is_a_delimiter c then ([], c ∷ cs) else (c ∷ front, back)

-- `if (cmd[*offset] != '\0') (*offset)++`
pub step_over : Bytes → Bytes
step_over [] = []
step_over (c ∷ cs) = cs

take_token : Bytes × Bytes → Option Bytes × Bytes
take_token ([], back) = (none, back)
take_token (c ∷ front, back) = (some (c ∷ front), step_over back)

pub get_token : Bytes → Option Bytes × Bytes
unfolding take_token
get_token cmd = take_token (span_token (skip_delimiters cmd))

pub data OptArg : Type 0 where
  arg_required no_arg : OptArg

pub record OptionTemplate : Type 0 where
  pub short_name : ℕ
  pub long_name : Bytes
  pub opt_arg : OptArg

pub record ParsedOption : Type 0 where
  pub is_in_cmd : Bool
  pub value : Option Bytes

pub record ParsedCmd : Type 0 where
  pub nb_template_options : ℕ
  pub options : List ParsedOption
  pub argc : ℕ
  pub argv : List Bytes

pub data ParseError : Type 0 where
  missing_argument unknown_option empty_command : ParseError

pub data Parsed : Type 0 where
  parsed : ParsedCmd → Parsed
  failed : ParseError → Parsed

-- The locals of `cmd_parse` that its loop changes; `arguments` holds the newest first.
pub record ParseState : Type 0 where
  pub options : List ParsedOption
  pub argc : ℕ
  pub arguments : List Bytes

-- A template is NULL, or the options before the terminating entry.
abbrev pub Template : Type 0
Template = Option (List OptionTemplate)

-- `calloc`: no option is set, every value is NULL.
abbrev pub blank_option : ParsedOption
blank_option = record { is_in_cmd = false; value = none }

pub initial_state : Template → ParseState
initial_state none = record { options = []; argc = 0; arguments = [] }
initial_state (some ts) = record {
  options = replicate (length ts) blank_option;
  argc = 0;
  arguments = [];
}

-- The two `for` loops over the template: the first entry that the test accepts, with its index.
pub find_option : (OptionTemplate → Bool) → List OptionTemplate → Option (ℕ × OptionTemplate)
find_option p [] = none
find_option p (t ∷ ts) =
    if p t
    then some (0, t)
    else elim (find_option p ts) [ none ↦ none | some (i, o) ↦ some (suc i, o) ]

-- What a token asks for: the tests of the loop's body.
pub data Action : Type 0 where
  argument : Action
  option : ℕ → OptionTemplate → Action
  unknown : Action

lookup_option : (OptionTemplate → Bool) → Template → Action
lookup_option p none = unknown
lookup_option p (some ts) = elim (find_option p ts) [ none ↦ unknown | some (i, t) ↦ option i t ]

classify_long : Template → Bytes → Action
classify_long template [] = argument
classify_long template (c ∷ name) = lookup_option (λ t. str_eq (c ∷ name) t.long_name) template

classify_short : Template → ℕ → Bytes → Action
classify_short template c [] = lookup_option (λ t. c == t.short_name) template
classify_short template c (d ∷ ds) = unknown

classify_dash : Template → Bytes → Action
classify_dash template [] = argument
classify_dash template (c ∷ cs) =
    if c == b'-' then classify_long template cs else classify_short template c cs

pub classify : Template → Bytes → Action
unfolding lookup_option classify_long classify_short classify_dash
classify template [] = argument
classify template (c ∷ cs) = if c == b'-' then classify_dash template cs else argument

-- A value that the option already has is dropped; otherwise the option becomes present.
pub mark_option : ParsedOption → ParsedOption
mark_option o =
    if o.is_in_cmd && is_some o.value
    then record o { value = none }
    else record o { is_in_cmd = true }

pub update_at : ℕ → (ParsedOption → ParsedOption) → List ParsedOption → List ParsedOption
update_at i f [] = []
update_at zero f (o ∷ os) = f o ∷ os
update_at (suc i) f (o ∷ os) = o ∷ update_at i f os

pub add_arg : ParseState → Bytes → ParseState
add_arg st token = record st { arguments = token ∷ st.arguments; argc = st.argc + 1 }

pub present : ParseState → ℕ → ParseState
present st i = record st { options = update_at i mark_option st.options }

pub present_with : ParseState → ℕ → Bytes → ParseState
present_with st i v = record st {
  options = update_at i (λ o. record (mark_option o) { value = some v }) st.options;
}

-- `argv[argc - argn] = tmp->text` for each link of the reversed list.
pub fill_argv : ℕ → ℕ → List Bytes → List Bytes → List Bytes
fill_argv argc argn [] argv = argv
fill_argv argc argn (text ∷ next) argv =
    fill_argv argc (argn + 1) next (set argv (argc - argn) text)

-- What follows the loop. The slots that `malloc` gives are empty until they are filled.
finish_with : ParseState → List Bytes → Parsed
finish_with st [] = failed empty_command
finish_with st (a ∷ as') = parsed (record {
  nb_template_options = length st.options;
  options = st.options;
  argc = st.argc;
  argv = fill_argv st.argc 1 (a ∷ as') (replicate st.argc []);
})

pub finish : ParseState → Parsed
unfolding finish_with
finish st = finish_with st st.arguments

-- The `while` loop. A round takes a byte at least, so `strlen (cmd) + 1` rounds are enough.
pub parse_loop : ℕ → Template → ParseState → Bytes → Parsed
parse_loop zero template st cursor = finish st
parse_loop (suc fuel) template st cursor =
    let (found, rest) = get_token cursor in
    let (next, rest') = get_token rest in
    elim found [
      | none ↦ finish st
      | some token ↦ elim (classify template token) [
        | argument ↦ parse_loop fuel template (add_arg st token) rest
        | unknown ↦ failed unknown_option
        | option i t ↦ elim t.opt_arg [
          | no_arg ↦ parse_loop fuel template (present st i) rest
          | arg_required ↦ elim next [
            | none ↦ failed missing_argument
            | some v ↦ parse_loop fuel template (present_with st i v) rest'
          ]
        ]
      ]
    ]

pub cmd_parse : Bytes → Template → Parsed
cmd_parse cmd template = parse_loop (length cmd + 1) template (initial_state template) cmd

pub cmd_parse_failed : Parsed → Bool
cmd_parse_failed (parsed p) = false
cmd_parse_failed (failed e) = true

-- The `while` loop, on the entries from `*option_index` on. It returns -1, here `none`, at the end.
pub next_opt_from : List OptionTemplate → List ParsedOption → ℕ → Option ℕ × ℕ
next_opt_from [] os i = (none, i)
next_opt_from (t ∷ ts) [] i = (none, i)
next_opt_from (t ∷ ts) (o ∷ os) i =
    let rest = next_opt_from ts os (i + 1) in
    if o.is_in_cmd then (some t.short_name, i + 1) else rest

-- The character and the new `*option_index`.
pub cmd_get_next_opt : ParsedCmd → Template → ℕ → Option ℕ × ℕ
cmd_get_next_opt pcmd none i = (none, i)
cmd_get_next_opt pcmd (some ts) i = next_opt_from (drop i ts) (drop i pcmd.options) i

value_unless_no_arg : Option OptionTemplate → Option ParsedOption → Option Bytes
value_unless_no_arg none o = none
value_unless_no_arg (some t) none = none
value_unless_no_arg (some t) (some o) = elim t.opt_arg [ no_arg ↦ none | arg_required ↦ o.value ]

-- `template[*option_index - 1]` and `options[*option_index - 1]`.
pub cmd_get_opt_value : ParsedCmd → Template → ℕ → Option Bytes
unfolding value_unless_no_arg
cmd_get_opt_value pcmd none i = none
cmd_get_opt_value pcmd (some ts) i =
    value_unless_no_arg (get_elem? ts (i - 1)) (get_elem? pcmd.options (i - 1))
