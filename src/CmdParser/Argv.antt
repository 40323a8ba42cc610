-- ===== src/CmdParser/Argv.antt =====
-- The argument vector and the options that `cmd_parse` returns.
use mathlib.Core.List.{reverse-cons, append_assoc, append-nil}
use pire2pire.Base.{
  ℕ, zero, suc, ◌+◌, ◌-◌, ◌<◌, ◌≡◌, refl, sym, ap, ◌∙◌, none, some, List, [], ◌∷◌, ◌++◌, reverse,
  inl, inr, Bytes, length, set, drop, replicate, arith, length-set, length-reverse,
}
use pire2pire.CmdParser.{
  Template, ParseState, ParsedCmd, ParsedOption, parsed, argument, option, unknown, classify,
  add_arg, present, present_with, fill_argv, finish, finish_with, cmd_parse, initial_state, no_arg,
  arg_required,
}
use pire2pire.CmdParser.Words.{words, parse_words, cmd_parse-parse_words, Action-cases}

drop-set {ℓ} :
    {A : Type ℓ} (xs : List A) (n : ℕ) (x : A)
    → n < length xs
    → drop n (set xs n x) ≡ x ∷ drop (suc n) xs
drop-set [] n x h = absurd (omega arith)
drop-set (y ∷ ys) zero x h = refl
drop-set (y ∷ ys) (suc n) x h = drop-set ys n x (omega arith)

drop-all {ℓ} : {A : Type ℓ} (xs : List A) → drop (length xs) xs ≡ []
drop-all [] = refl
drop-all (x ∷ xs) = drop-all xs

length-replicate {ℓ} : {A : Type ℓ} (n : ℕ) (a : A) → length (replicate n a) ≡ n
length-replicate zero a = refl
length-replicate (suc n) a = ap suc (length-replicate n a)

fill_argv-reverse :
    (argc argn : ℕ) (xs argv : List Bytes)
    → length argv ≡ argc
    → length xs + argn ≡ argc + 1
    → 0 < argn
    → fill_argv argc argn xs argv ≡ reverse xs ++ drop (length xs) argv
unfolding fill_argv
fill_argv-reverse argc argn [] argv l h pos = refl
fill_argv-reverse argc argn (x ∷ xs) argv l h pos =
    let place : argc - argn ≡ length xs = omega arith in
    rw (place, reverse-cons x xs)
      (fill_argv-reverse argc (argn + 1) xs (set argv (length xs) x)
          (length-set argv (length xs) x ∙ l) (omega arith) (omega arith)
        ∙ rw (drop-set argv (length xs) x (omega arith))
            (sym (append_assoc (reverse xs) (x ∷ []) _)))

pub fill_argv_lem :
    (n : ℕ) (xs : List Bytes) → n ≡ length xs → fill_argv n 1 xs (replicate n []) ≡ reverse xs
fill_argv_lem n xs e =
    fill_argv-reverse n 1 xs (replicate n []) (length-replicate n []) (omega arith) (omega arith)
    ∙ rw (← e) (ap (◌++◌ (reverse xs)) (all-dropped n) ∙ append-nil (reverse xs))
  where
    all-dropped : (n : ℕ) → drop n (replicate {A = Bytes} n []) ≡ []
    all-dropped zero = refl
    all-dropped (suc n) = all-dropped n

-- What a parse returns at its end, from the locals of the loop.
pub record Finished (st : ParseState) (args : List Bytes) (p : ParsedCmd) : Type 0 where
  pub arguments : p.argv ≡ reverse st.arguments ++ args
  pub counted : p.argc ≡ length p.argv
  pub some_argument : 0 < p.argc

abbrev Counted : ParseState → Type 0
Counted st = st.argc ≡ length st.arguments

finish_with-Finished :
    (st : ParseState) (as' : List Bytes) {p : ParsedCmd}
    → st.arguments ≡ as'
    → Counted st
    → finish_with st as' ≡ parsed p
    → Finished st [] p
unfolding finish_with
finish_with-Finished st [] e c h = cc
finish_with-Finished st (a ∷ as') {p} e c h = record {
  arguments = ground (arith, filled, append-nil (reverse (a ∷ as')));
  counted = ground (arith, filled, length-reverse (a ∷ as'));
  some_argument = ground arith;
}
  where
    filled : fill_argv st.argc 1 (a ∷ as') (replicate st.argc []) ≡ reverse (a ∷ as')
    filled = fill_argv_lem st.argc (a ∷ as') (c ∙ ap length e)

-- The words that are neither options nor the values of options, in order.
pub positionals : Template → List Bytes → List Bytes
positionals template [] = []
positionals template (w ∷ []) = elim (classify template w) [
  | argument ↦ w ∷ []
  | unknown ↦ []
  | option i t ↦ []
]
positionals template (w ∷ v ∷ ws) = elim (classify template w) [
  | argument ↦ w ∷ positionals template (v ∷ ws)
  | unknown ↦ []
  | option i t ↦ elim t.opt_arg [
    | no_arg ↦ positionals template (v ∷ ws)
    | arg_required ↦ positionals template ws
  ]
]

Finished-add_arg :
    (st : ParseState) (w : Bytes) (args : List Bytes) {p : ParsedCmd}
    → Finished (add_arg st w) args p
    → Finished st (w ∷ args) p
unfolding add_arg
Finished-add_arg st w args f = record {
  arguments =
      f.arguments
      ∙ rw (reverse-cons w st.arguments) (append_assoc (reverse st.arguments) (w ∷ []) args);
  counted = f.counted;
  some_argument = f.some_argument;
}

Finished-options :
    (st : ParseState) (os : List ParsedOption) (args : List Bytes) {p : ParsedCmd}
    → Finished (record st { options = os }) args p
    → Finished st args p
Finished-options st os args f = record {
  arguments = f.arguments;
  counted = f.counted;
  some_argument = f.some_argument;
}

module _ (template : Template) where
  finish-Finished :
      (st : ParseState) {p : ParsedCmd} → Counted st → finish st ≡ parsed p → Finished st [] p
  unfolding finish
  finish-Finished st c h = finish_with-Finished st st.arguments refl c h

  parse_words-Finished :
      (st : ParseState) (ws : List Bytes) {p : ParsedCmd}
      → Counted st
      → parse_words template st ws ≡ parsed p
      → Finished st (positionals template ws) p
  unfolding parse_words positionals add_arg present present_with
  parse_words-Finished st [] c h = finish-Finished st c h
  parse_words-Finished st (w ∷ []) c h = elim (Action-cases (classify template w)) [
    | inl a ↦
        rw (a, positionals)
          (Finished-add_arg st w []
            (finish-Finished (add_arg st w) (omega arith) (rw (a, parse_words) at h)))
    | inr (inl a) ↦ absurd (ground arith)
    | inr (inr (inl (i, o, a, b))) ↦
        rw (a, positionals)
          (Finished-options st _ []
            (finish-Finished (present st i) c (rw (a, b, parse_words) at h)))
    | inr (inr (inr (i, o, a, b))) ↦ absurd (ground arith)
  ]
  parse_words-Finished st (w ∷ v ∷ ws) c h = elim (Action-cases (classify template w)) [
    | inl a ↦
        rw (a, positionals)
          (Finished-add_arg st w _
            (parse_words-Finished (add_arg st w) (v ∷ ws) (omega arith) (rw (a, parse_words) at h)))
    | inr (inl a) ↦ absurd (ground arith)
    | inr (inr (inl (i, o, a, b))) ↦
        rw (a, b, positionals)
          (Finished-options st _ _
            (parse_words-Finished (present st i) (v ∷ ws) c (rw (a, b, parse_words) at h)))
    | inr (inr (inr (i, o, a, b))) ↦
        rw (a, b, positionals)
          (Finished-options st _ _
            (parse_words-Finished (present_with st i v) ws c (rw (a, b, parse_words) at h)))
  ]

initial_state-Finished :
    (template : Template) (args : List Bytes) {p : ParsedCmd}
    → Finished (initial_state template) args p
    → p.argv ≡ args
unfolding initial_state
initial_state-Finished none args f = f.arguments
initial_state-Finished (some ts) args f = f.arguments

initial_state-Counted : (template : Template) → Counted (initial_state template)
unfolding initial_state
initial_state-Counted none = refl
initial_state-Counted (some ts) = refl

-- Where `cmd_parse` succeeds, `argv` holds, in order, the words that are neither options nor values
-- of options, `argc` is their number, and there is at least one.
pub cmd_parse-positionals :
    (cmd : Bytes) (template : Template) (p : ParsedCmd)
    → cmd_parse cmd template ≡ parsed p
    → (p.argv ≡ positionals template (words cmd)) × (p.argc ≡ length p.argv) × (0 < p.argc)
cmd_parse-positionals cmd template p h =
    let f =
      parse_words-Finished template (initial_state template) (words cmd)
        (initial_state-Counted template) (sym (cmd_parse-parse_words cmd template) ∙ h) in
    (initial_state-Finished template _ f, f.counted, f.some_argument)
