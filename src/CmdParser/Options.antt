-- ===== src/CmdParser/Options.antt =====
-- The options that `cmd_parse` returns, and their enumeration by `cmd_get_next_opt` and
-- `cmd_get_opt_value`.
use native.Mathlib.Nat.{zero-add, suc-add}
use pire2pire.Base.{
  ℕ, zero, suc, ◌+◌, ◌-◌, ◌<◌, ◌≡◌, refl, sym, ap, ◌∙◌, true, Option, none, some, List, [], ◌∷◌,
  ◌⊎◌, inl, inr, Bytes, length-drop, length, get_elem?, drop, replicate, arith, if◌then◌else◌, All,
  Bool-cases,
}
use pire2pire.CmdParser.{
  Template, ParseState, ParsedCmd, ParsedOption, OptionTemplate, parsed, argument, option, unknown,
  classify, add_arg, present, present_with, finish, finish_with, cmd_parse, initial_state, no_arg,
  arg_required, update_at, mark_option, blank_option, next_opt_from, cmd_get_next_opt,
  cmd_get_opt_value,
}
use pire2pire.CmdParser.Words.{words, parse_words, cmd_parse-parse_words, Action-cases}

-- The options that the words set, in order, with the value that each is given.
pub settings : Template → List Bytes → List (ℕ × Option Bytes)
settings template [] = []
settings template (w ∷ []) = elim (classify template w) [
  | argument ↦ []
  | unknown ↦ []
  | option i t ↦ (i, none) ∷ []
]
settings template (w ∷ v ∷ ws) = elim (classify template w) [
  | argument ↦ settings template (v ∷ ws)
  | unknown ↦ []
  | option i t ↦ elim t.opt_arg [
    | no_arg ↦ (i, none) ∷ settings template (v ∷ ws)
    | arg_required ↦ (i, some v) ∷ settings template ws
  ]
]

-- Each setting overwrites what its option held.
pub apply_settings : List (ℕ × Option Bytes) → List ParsedOption → List ParsedOption
apply_settings [] os = os
apply_settings ((i, v) ∷ rest) os =
    apply_settings rest (update_at i (λ o. record { is_in_cmd = true; value = v }) os)

-- A value belongs to a present option.
abbrev Sane : ParsedOption → Type 0
Sane o = (o.value ≡ none) ⊎ (o.is_in_cmd ≡ true)

mark_option-Sane :
    (o : ParsedOption) → Sane o → mark_option o ≡ record { is_in_cmd = true; value = none }
unfolding mark_option
mark_option-Sane o s = ground arith

update_at-mark :
    (i : ℕ) (os : List ParsedOption)
    → All Sane os
    → update_at i mark_option os ≡ update_at i (λ o. record { is_in_cmd = true; value = none }) os
unfolding update_at
update_at-mark i [] s = refl
update_at-mark zero (o ∷ os) s = ap (λ x. x ∷ os) (mark_option-Sane o s.0)
update_at-mark (suc i) (o ∷ os) s = ap (◌∷◌ o) (update_at-mark i os s.1)

update_at-mark_with :
    (i : ℕ) (v : Bytes) (os : List ParsedOption)
    → All Sane os
    → update_at i (λ o. record (mark_option o) { value = some v }) os
      ≡ update_at i (λ o. record { is_in_cmd = true; value = some v }) os
unfolding update_at
update_at-mark_with i v [] s = refl
update_at-mark_with zero v (o ∷ os) s =
    ap (λ (x : ParsedOption). record x { value = some v } ∷ os) (mark_option-Sane o s.0)
update_at-mark_with (suc i) v (o ∷ os) s = ap (◌∷◌ o) (update_at-mark_with i v os s.1)

update_at-Sane :
    (i : ℕ) (v : Option Bytes) (os : List ParsedOption)
    → All Sane os
    → All Sane (update_at i (λ o. record { is_in_cmd = true; value = v }) os)
unfolding update_at
update_at-Sane i v [] s = tt
update_at-Sane zero v (o ∷ os) s = (inr refl, s.1)
update_at-Sane (suc i) v (o ∷ os) s = (s.0, update_at-Sane i v os s.1)

finish-options : (st : ParseState) {p : ParsedCmd} → finish st ≡ parsed p → p.options ≡ st.options
unfolding finish
finish-options st h = finish_with-options st.arguments h
  where
    finish_with-options :
        (as' : List Bytes) {p : ParsedCmd} → finish_with st as' ≡ parsed p → p.options ≡ st.options
    finish_with-options [] h = cc
    finish_with-options (a ∷ as') h = ground arith

module _ (template : Template) where
  parse_words-settings :
      (st : ParseState) (ws : List Bytes) {p : ParsedCmd}
      → All Sane st.options
      → parse_words template st ws ≡ parsed p
      → p.options ≡ apply_settings (settings template ws) st.options
  unfolding parse_words settings apply_settings add_arg present present_with
  parse_words-settings st [] s h = finish-options st h
  parse_words-settings st (w ∷ []) s h = elim (Action-cases (classify template w)) [
    | inl a ↦ rw (a, settings) (finish-options (add_arg st w) (rw (a, parse_words) at h))
    | inr (inl a) ↦ absurd (ground arith)
    | inr (inr (inl (i, o, a, b))) ↦
        rw (a, settings)
          (finish-options (present st i) (rw (a, b, parse_words) at h)
            ∙ update_at-mark i st.options s)
    | inr (inr (inr (i, o, a, b))) ↦ absurd (ground arith)
  ]
  parse_words-settings st (w ∷ v ∷ ws) s h = elim (Action-cases (classify template w)) [
    | inl a ↦
        rw (a, settings) (parse_words-settings (add_arg st w) (v ∷ ws) s (rw (a, parse_words) at h))
    | inr (inl a) ↦ absurd (ground arith)
    | inr (inr (inl (i, o, a, b))) ↦
        rw (a, b, settings, ← update_at-mark i st.options s)
          (parse_words-settings (present st i) (v ∷ ws)
            (rw (update_at-mark i st.options s) (update_at-Sane i none st.options s))
            (rw (a, b, parse_words) at h))
    | inr (inr (inr (i, o, a, b))) ↦
        rw (a, b, settings, ← update_at-mark_with i v st.options s)
          (parse_words-settings (present_with st i v) ws
            (rw (update_at-mark_with i v st.options s) (update_at-Sane i (some v) st.options s))
            (rw (a, b, parse_words) at h))
  ]

replicate-Sane : (n : ℕ) → All Sane (replicate n blank_option)
replicate-Sane zero = tt
replicate-Sane (suc n) = (inl refl, replicate-Sane n)

initial_state-Sane : (template : Template) → All Sane (initial_state template).options
unfolding initial_state
initial_state-Sane none = tt
initial_state-Sane (some ts) = replicate-Sane (length ts)

-- Where `cmd_parse` succeeds, each option holds what its last occurrence gave it (a value exactly if
-- it requires one), and options that do not occur are blank.
pub cmd_parse-settings :
    (cmd : Bytes) (template : Template) (p : ParsedCmd)
    → cmd_parse cmd template ≡ parsed p
    → p.options ≡ apply_settings (settings template (words cmd)) (initial_state template).options
cmd_parse-settings cmd template p h =
    parse_words-settings template (initial_state template) (words cmd) (initial_state-Sane template)
      (sym (cmd_parse-parse_words cmd template) ∙ h)

-- The calls that the header describes: `cmd_get_next_opt` until it returns -1, and after each the
-- value. A call moves the index on, so a round for each entry and one more are enough.
pub collect_opts : ℕ → ParsedCmd → Template → ℕ → List (ℕ × Option Bytes)
collect_opts zero pcmd template i = []
collect_opts (suc fuel) pcmd template i =
    let (c, j) = cmd_get_next_opt pcmd template i in
    elim c [
      | none ↦ []
      | some c' ↦ (c', cmd_get_opt_value pcmd template j) ∷ collect_opts fuel pcmd template j
    ]

pub value_of : OptionTemplate → ParsedOption → Option Bytes
value_of t o = elim t.opt_arg [ no_arg ↦ none | arg_required ↦ o.value ]

pub set_options : List OptionTemplate → List ParsedOption → List (ℕ × Option Bytes)
set_options [] os = []
set_options (t ∷ ts) [] = []
set_options (t ∷ ts) (o ∷ os) =
    if o.is_in_cmd then (t.short_name, value_of t o) ∷ set_options ts os else set_options ts os

abbrev NextOpt : List OptionTemplate → List ParsedOption → ℕ → Option ℕ × ℕ → Type 0
NextOpt ts os i r =
    ((r.0 ≡ none) × (set_options ts os ≡ []))
    ⊎ ((k : ℕ) × (t : OptionTemplate) × (o : ParsedOption) × (r ≡ (some t.short_name, i + k + 1))
        × (get_elem? ts k ≡ some t)
        × (get_elem? os k ≡ some o)
        × (k < length ts)
        × (set_options ts os
            ≡ (t.short_name, value_of t o) ∷ set_options (drop (suc k) ts) (drop (suc k) os)))

next_opt_from-NextOpt :
    (ts : List OptionTemplate) (os : List ParsedOption) (i : ℕ)
    → NextOpt ts os i (next_opt_from ts os i)
unfolding next_opt_from set_options
next_opt_from-NextOpt [] os i = inl (refl, refl)
next_opt_from-NextOpt (t ∷ ts) [] i = inl (refl, refl)
next_opt_from-NextOpt (t ∷ ts) (o ∷ os) i = elim (Bool-cases o.is_in_cmd) [
  | inl here ↦ inr (0, t, o, ground arith, refl, refl, omega arith, ground arith)
  | inr there ↦ elim (next_opt_from-NextOpt ts os (i + 1)) [
    | inl e ↦ inl (ground arith, ground arith)
    | inr (k, t', o', r, et, eo, l, s) ↦
        inr (suc k, t', o', ground arith, et, eo, omega arith, ground arith)
  ]
]

get_elem?-drop {ℓ} :
    {A : Type ℓ} (i k : ℕ) (xs : List A) → get_elem? (drop i xs) k ≡ get_elem? xs (i + k)
get_elem?-drop zero k xs = rw zero-add
get_elem?-drop (suc i) k [] = refl
get_elem?-drop (suc i) k (x ∷ xs) = rw suc-add (get_elem?-drop i k xs)

drop-nil {ℓ} : {A : Type ℓ} (k : ℕ) → drop {A = A} k [] ≡ []
drop-nil zero = refl
drop-nil (suc k) = refl

drop-drop {ℓ} : {A : Type ℓ} (i k : ℕ) (xs : List A) → drop k (drop i xs) ≡ drop (i + k) xs
drop-drop zero k xs = rw zero-add
drop-drop (suc i) k [] = rw (suc-add) (drop-nil k)
drop-drop (suc i) k (x ∷ xs) = rw suc-add (drop-drop i k xs)

module _ (p : ParsedCmd) (ts : List OptionTemplate) where
  -- One call at index `i`, when the value is read back.
  value-after :
      (i k : ℕ) (t : OptionTemplate) (o : ParsedOption)
      → get_elem? (drop i ts) k ≡ some t
      → get_elem? (drop i p.options) k ≡ some o
      → cmd_get_opt_value p (some ts) (i + k + 1) ≡ value_of t o
  unfolding cmd_get_opt_value value_of
  value-after i k t o et eo =
      let back : i + k + 1 - 1 ≡ i + k = omega arith in
      rw (back, ← get_elem?-drop i k ts, ← get_elem?-drop i k p.options, et, eo)

  collect_opts-step :
      (fuel i j c : ℕ)
      → cmd_get_next_opt p (some ts) i ≡ (some c, j)
      → collect_opts (suc fuel) p (some ts) i
        ≡ (c, cmd_get_opt_value p (some ts) j) ∷ collect_opts fuel p (some ts) j
  unfolding collect_opts
  collect_opts-step fuel i j c e =
      rw (e, collect_opts)
        (ap (λ (n : ℕ). (c, cmd_get_opt_value p (some ts) n) ∷ collect_opts fuel p (some ts) n)
          (ap (λ (r : Option ℕ × ℕ). r.1) e))

  collect_opts-end :
      (fuel i : ℕ)
      → (cmd_get_next_opt p (some ts) i).0 ≡ none
      → collect_opts (suc fuel) p (some ts) i ≡ []
  unfolding collect_opts
  collect_opts-end fuel i e = rw (e, collect_opts)

  collect_opts-from :
      (fuel i : ℕ)
      → length ts - i < fuel
      → collect_opts fuel p (some ts) i ≡ set_options (drop i ts) (drop i p.options)
  unfolding cmd_get_next_opt
  collect_opts-from zero i h = absurd (omega arith)
  collect_opts-from (suc fuel) i h = elim (next_opt_from-NextOpt (drop i ts) (drop i p.options) i) [
    | inl (e, s) ↦ collect_opts-end fuel i e ∙ sym s
    | inr (k, t, o, r, et, eo, l, s) ↦
        let e : i + suc k ≡ i + k + 1 = omega arith in
        rw (s, collect_opts-step fuel i (i + k + 1) t.short_name r, value-after i k t o et eo)
          (ap (◌∷◌ (t.short_name, value_of t o)) (
            collect_opts-from fuel (i + k + 1) (omega (arith, length-drop i ts))
            ∙ rw (drop-drop i (suc k) ts, drop-drop i (suc k) p.options, e)))
  ]

-- Calling `cmd_get_next_opt` from index 0 until it returns -1, and `cmd_get_opt_value` after each
-- call, gives exactly the options that are set, in the order of the template, with their values;
-- one call for each entry and a last one are enough.
pub collect_opts-set_options :
    (p : ParsedCmd) (ts : List OptionTemplate) (fuel : ℕ)
    → length ts < fuel
    → collect_opts fuel p (some ts) 0 ≡ set_options ts p.options
collect_opts-set_options p ts fuel h = collect_opts-from p ts fuel 0 (omega arith)
