-- ===== src/Cmd/Split.antt =====
-- `cmd_to_argc_argv` loses nothing: joined by spaces, the words are the line again.
use mathlib.Core.List.{append_assoc, append-nil}
use pire2pire.Base.{
  ℕ, suc, ◌+◌, ◌≡◌, refl, sym, ap, ◌∙◌, false, List, [], ◌∷◌, ◌++◌, Bytes, ◌==◌, if◌then◌else◌,
  length, All, Bool-cases, inl, inr, arith, eq_of_eqb,
}
use pire2pire.Cmd.{is_a_delimiter, split_loop, cmd_to_argc_argv}

-- The words with one space between neighbours.
unfoldable pub join_spaces : List Bytes → Bytes
join_spaces [] = []
join_spaces (w ∷ []) = w
join_spaces (w ∷ v ∷ ws) = w ++ b' ' ∷ join_spaces (v ∷ ws)

pub count_spaces : Bytes → ℕ
count_spaces [] = 0
count_spaces (c ∷ cs) = if c == b' ' then suc (count_spaces cs) else count_spaces cs

abbrev IsText : Bytes → Type 0
IsText = All (λ c. (c == 0) ≡ false)

split_loop-first :
    (piece s : Bytes) → (w : Bytes) × (ws : List Bytes) × (split_loop piece s ≡ w ∷ ws)
unfolding split_loop
split_loop-first piece [] = (piece, [], refl)
split_loop-first piece (c ∷ cs) = elim (Bool-cases (is_a_delimiter c)) [
  | inl e ↦ rw e (piece, split_loop [] cs, refl)
  | inr e ↦ rw e (split_loop-first (piece ++ c ∷ []) cs)
]

join_spaces-cons :
    (w : Bytes) (ws : List Bytes) (v : Bytes) (vs : List Bytes)
    → ws ≡ v ∷ vs
    → join_spaces (w ∷ ws) ≡ w ++ b' ' ∷ join_spaces ws
unfolding join_spaces
join_spaces-cons w ws v vs e = rw e refl

split_loop-join : (piece s : Bytes) → IsText s → join_spaces (split_loop piece s) ≡ piece ++ s
unfolding split_loop is_a_delimiter
split_loop-join piece [] h = unfold join_spaces in (sym (append-nil piece))
split_loop-join piece (c ∷ cs) h = elim (Bool-cases (c == b' ')) [
  | inl e ↦
      let (w, ws, first) = split_loop-first [] cs in
      rw e (
        join_spaces-cons piece (split_loop [] cs) w ws first
        ∙ ap (λ (r : Bytes). piece ++ b' ' ∷ r) (split_loop-join [] cs h.1)
        ∙ ap (λ (x : ℕ). piece ++ x ∷ cs) (sym (eq_of_eqb c b' ' e)))
  | inr e ↦ rw (e, h.0) (split_loop-join (piece ++ c ∷ []) cs h.1 ∙ append_assoc piece (c ∷ []) cs)
]

length-split_loop : (piece s : Bytes) → IsText s → length (split_loop piece s) ≡ count_spaces s + 1
unfolding split_loop is_a_delimiter count_spaces
length-split_loop piece [] h = omega arith
length-split_loop piece (c ∷ cs) h =
    ground (arith, length-split_loop [] cs h.1, length-split_loop (piece ++ c ∷ []) cs h.1)

-- Round trip: the words of a line, joined by single spaces, are the line, and their number is one
-- more than that of its spaces (so a double space gives an empty word).
pub join-cmd_to_argc_argv :
    (s : Bytes)
    → IsText s
    → (join_spaces (cmd_to_argc_argv s) ≡ s) × (length (cmd_to_argc_argv s) ≡ count_spaces s + 1)
unfolding cmd_to_argc_argv
join-cmd_to_argc_argv s h = (split_loop-join [] s h, length-split_loop [] s h)

abbrev pub IsPiece : Bytes → Type 0
IsPiece = All (λ c. is_a_delimiter c ≡ false)

split_loop-piece :
    (piece w rest : Bytes)
    → IsPiece w
    → split_loop piece (w ++ b' ' ∷ rest) ≡ (piece ++ w) ∷ split_loop [] rest
unfolding split_loop is_a_delimiter
split_loop-piece piece [] rest h = ap (λ p. p ∷ split_loop [] rest) (sym (append-nil piece))
split_loop-piece piece (c ∷ w) rest h =
    rw h.0 (split_loop-piece (piece ++ c ∷ []) w rest h.1)
    ∙ ap (λ p. p ∷ split_loop [] rest) (append_assoc piece (c ∷ []) w)

split_loop-last : (piece w : Bytes) → IsPiece w → split_loop piece w ≡ (piece ++ w) ∷ []
unfolding split_loop
split_loop-last piece [] h = ap (λ p. p ∷ []) (sym (append-nil piece))
split_loop-last piece (c ∷ w) h =
    rw h.0 (split_loop-last (piece ++ c ∷ []) w h.1)
    ∙ ap (λ p. p ∷ []) (append_assoc piece (c ∷ []) w)

-- Words without spaces, joined by spaces, are split into the same words.
pub cmd_to_argc_argv-join_spaces :
    (w : Bytes) (ws : List Bytes)
    → All IsPiece (w ∷ ws)
    → cmd_to_argc_argv (join_spaces (w ∷ ws)) ≡ w ∷ ws
unfolding cmd_to_argc_argv join_spaces
cmd_to_argc_argv-join_spaces w [] h = split_loop-last [] w h.0
cmd_to_argc_argv-join_spaces w (v ∷ ws) h =
    split_loop-piece [] w (join_spaces (v ∷ ws)) h.0
    ∙ ap (◌∷◌ w) (cmd_to_argc_argv-join_spaces v ws h.1)
