-- ===== src/CmdParser/Words.antt =====
-- What `cmd_parse` computes, with no cursor and no fuel: a recursion on the words of the command.
use pire2pire.Base.{
  ℕ, zero, suc, ◌+◌, ◌≤◌, ◌<◌, ◌≡◌, refl, sym, ap, ◌∙◌, Bool, true, false, none, some, List, [],
  ◌∷◌, ◌⊎◌, inl, inr, Bytes, if◌then◌else◌, length, keep, arith, Bool-cases,
}
use pire2pire.CmdParser.{
  is_a_delimiter, skip_delimiters, span_token, step_over, get_token, Template, ParseState, Parsed,
  failed, missing_argument, unknown_option, Action, argument, option, unknown, classify, add_arg,
  present, present_with, finish, parse_loop, cmd_parse, initial_state, no_arg, arg_required,
  OptionTemplate, OptArg,
}

cons_first : ℕ → List Bytes → List Bytes
cons_first c [] = (c ∷ []) ∷ []
cons_first c (w ∷ ws) = (c ∷ w) ∷ ws

-- The pieces between delimiters, the empty ones too.
unfoldable pub split : Bytes → List Bytes
unfolding cons_first
split [] = [] ∷ []
split (c ∷ cs) = if is_a_delimiter c then [] ∷ split cs else cons_first c (split cs)

abbrev pub is_nonempty : Bytes → Bool
is_nonempty [] = false
is_nonempty (c ∷ cs) = true

unfoldable pub words : Bytes → List Bytes
words cs = keep is_nonempty (split cs)

after_piece : Bytes → List Bytes
after_piece [] = []
after_piece (d ∷ r) = split r

split-span_token : (cs : Bytes) → split cs ≡ (span_token cs).0 ∷ after_piece (span_token cs).1
unfolding split span_token after_piece
split-span_token [] = refl
split-span_token (c ∷ cs) = ground (arith, split-span_token cs)

words-skip_delimiters : (cs : Bytes) → words (skip_delimiters cs) ≡ words cs
unfolding words split skip_delimiters
words-skip_delimiters [] = refl
words-skip_delimiters (c ∷ cs) = ground (arith, words-skip_delimiters cs)

words-step_over : (cs : Bytes) → words (step_over cs) ≡ keep is_nonempty (after_piece cs)
unfolding words split step_over after_piece
words-step_over [] = refl
words-step_over (d ∷ r) = refl

length-skip_delimiters : (cs : Bytes) → length (skip_delimiters cs) ≤ length cs
unfolding skip_delimiters
length-skip_delimiters [] = omega arith
length-skip_delimiters (c ∷ cs) = ground (arith, length-skip_delimiters cs)

length-span_token : (cs : Bytes) → length (span_token cs).0 + length (span_token cs).1 ≡ length cs
unfolding span_token
length-span_token [] = omega arith
length-span_token (c ∷ cs) = ground (arith, length-span_token cs)

length-step_over : (cs : Bytes) → length (step_over cs) ≤ length cs
unfolding step_over
length-step_over [] = omega arith
length-step_over (d ∷ r) = omega arith

-- `skip_delimiters` stops at the end or at a byte of a token.
skip_delimiters-cases :
    (cs : Bytes)
    → (skip_delimiters cs ≡ [])
      ⊎ ((c : ℕ) × (r : Bytes) × (skip_delimiters cs ≡ c ∷ r) × (is_a_delimiter c ≡ false))
unfolding skip_delimiters
skip_delimiters-cases [] = inl refl
skip_delimiters-cases (c ∷ cs) = elim (Bool-cases (is_a_delimiter c)) [
  | inl skip ↦ rw skip (skip_delimiters-cases cs)
  | inr stop ↦ rw stop (inr (c, cs, refl, stop))
]

abbrev HasToken : Bytes → Type 0
HasToken cs =
    (t : Bytes) × (r : Bytes) × (get_token cs ≡ (some t, r))
    × (words cs ≡ t ∷ words r)
    × (length r < length cs)

span_token-here :
    (c : ℕ) (r : Bytes)
    → is_a_delimiter c ≡ false
    → span_token (c ∷ r) ≡ (c ∷ (span_token r).0, (span_token r).1)
unfolding span_token
span_token-here c r stop = rw stop

words-here :
    (c : ℕ) (r : Bytes)
    → is_a_delimiter c ≡ false
    → words (c ∷ r) ≡ (c ∷ (span_token r).0) ∷ words (step_over (span_token r).1)
unfolding words
words-here c r stop =
    rw (split-span_token (c ∷ r), span_token-here c r stop)
      (ap (◌∷◌ (c ∷ (span_token r).0)) (sym (words-step_over (span_token r).1)))

get_token-here :
    (cs : Bytes) (c : ℕ) (r : Bytes)
    → skip_delimiters cs ≡ c ∷ r
    → is_a_delimiter c ≡ false
    → HasToken cs
unfolding get_token
get_token-here cs c r e stop = (
  c ∷ (span_token r).0,
  step_over (span_token r).1,
  rw (e, span_token-here c r stop),
  sym (words-skip_delimiters cs) ∙ ap words e ∙ words-here c r stop,
  omega (
    arith,
    length-skip_delimiters cs,
    ap length e,
    length-span_token r,
    length-step_over (span_token r).1,
  ),
)

get_token-end : (cs : Bytes) → skip_delimiters cs ≡ [] → ((get_token cs).0 ≡ none) × (words cs ≡ [])
unfolding get_token span_token words split
get_token-end cs e = (rw e, sym (words-skip_delimiters cs) ∙ ap words e)

-- `get_token` finds no token exactly where no word is left; otherwise it takes the first one.
pub get_token-cases : (cs : Bytes) → (((get_token cs).0 ≡ none) × (words cs ≡ [])) ⊎ HasToken cs
get_token-cases cs = elim (skip_delimiters-cases cs) [
  | inl e ↦ inl (get_token-end cs e)
  | inr (c, r, e, stop) ↦ inr (get_token-here cs c r e stop)
]

unfoldable pub parse_words : Template → ParseState → List Bytes → Parsed
parse_words template st [] = finish st
parse_words template st (w ∷ []) = elim (classify template w) [
  | argument ↦ finish (add_arg st w)
  | unknown ↦ failed unknown_option
  | option i t ↦ elim t.opt_arg [
    | no_arg ↦ finish (present st i)
    | arg_required ↦ failed missing_argument
  ]
]
parse_words template st (w ∷ v ∷ ws) = elim (classify template w) [
  | argument ↦ parse_words template (add_arg st w) (v ∷ ws)
  | unknown ↦ failed unknown_option
  | option i t ↦ elim t.opt_arg [
    | no_arg ↦ parse_words template (present st i) (v ∷ ws)
    | arg_required ↦ parse_words template (present_with st i v) ws
  ]
]

OptArg-cases : (o : OptArg) → (o ≡ no_arg) ⊎ (o ≡ arg_required)
OptArg-cases no_arg = inl refl
OptArg-cases arg_required = inr refl

pub Action-cases :
    (a : Action)
    → (a ≡ argument)
      ⊎ (a ≡ unknown)
      ⊎ ((i : ℕ) × (o : OptionTemplate) × (a ≡ option i o) × (o.opt_arg ≡ no_arg))
      ⊎ ((i : ℕ) × (o : OptionTemplate) × (a ≡ option i o) × (o.opt_arg ≡ arg_required))
Action-cases argument = inl refl
Action-cases unknown = inr (inl refl)
Action-cases (option i o) = elim (OptArg-cases o.opt_arg) [
  | inl e ↦ inr (inr (inl (i, o, refl, e)))
  | inr e ↦ inr (inr (inr (i, o, refl, e)))
]

parse_loop-parse_words :
    (fuel : ℕ) (template : Template) (st : ParseState) (cs : Bytes)
    → length cs < fuel
    → parse_loop fuel template st cs ≡ parse_words template st (words cs)
unfolding parse_loop parse_words
parse_loop-parse_words zero template st cs h = absurd (omega arith)
parse_loop-parse_words (suc fuel) template st cs h = elim (get_token-cases cs) [
  | inl (e, w) ↦ ground arith
  | inr (t, r, e, w, l) ↦ elim (get_token-cases r) [
    | inl (e', w') ↦ elim (Action-cases (classify template t)) [
      | inl a ↦ ground (arith, parse_loop-parse_words fuel template (add_arg st t) r)
      | inr (inl a) ↦ ground arith
      | inr (inr (inl (i, o, a, b))) ↦
          ground (arith, parse_loop-parse_words fuel template (present st i) r)
      | inr (inr (inr (i, o, a, b))) ↦ ground arith
    ]
    | inr (t', r', e', w', l') ↦
        rw (w, w')
          (elim (Action-cases (classify template t)) [
            | inl a ↦ ground (arith, parse_loop-parse_words fuel template (add_arg st t) r)
            | inr (inl a) ↦ ground arith
            | inr (inr (inl (i, o, a, b))) ↦
                ground (arith, parse_loop-parse_words fuel template (present st i) r)
            | inr (inr (inr (i, o, a, b))) ↦
                ground (arith, parse_loop-parse_words fuel template (present_with st i t') r')
          ])
  ]
]

-- `cmd_parse` is the recursion on the words of the command: what it returns depends on the command
-- through its words alone, and the rounds that its loop is given are enough.
pub cmd_parse-parse_words :
    (cmd : Bytes) (template : Template)
    → cmd_parse cmd template ≡ parse_words template (initial_state template) (words cmd)
unfolding cmd_parse
cmd_parse-parse_words cmd template =
    parse_loop-parse_words (length cmd + 1) template (initial_state template) cmd (omega arith)
