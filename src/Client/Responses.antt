-- ===== src/Client/Responses.antt =====
-- What the program prints.
use mathlib.Core.List.{append_assoc, append-nil}
use pire2pire.Base.{
  ◌≡◌, refl, sym, ap, ◌∙◌, Bool, true, ◌||◌, Bool-cases, inl, inr, List, [], ◌∷◌, ◌++◌, map, Bytes,
  All,
}
use pire2pire.Requests.Receive.{concat}
use pire2pire.Client.{ends_in, received, Screen, print_response, recv_resp}

-- What ends a response.
abbrev pub is_ended : Bytes → Bool
is_ended s = ends_in 10 s || ends_in 0 s || ends_in 13 s

abbrev pub Prints : Bytes → List Bytes → Screen → Type 0
Prints response cs s =
    (concat s.printed ++ s.response ≡ response ++ concat cs)
    × All (λ p. is_ended p ≡ true) s.printed
    × (s.running ≡ true)

recv_resp-Prints :
    (cs : List Bytes) (response : Bytes) → Prints response cs (recv_resp response (map received cs))
unfolding recv_resp print_response concat
recv_resp-Prints [] response = (sym (append-nil response), tt, refl)
recv_resp-Prints (c ∷ cs) response = elim (Bool-cases (is_ended (response ++ c))) [
  | inl e ↦
      let (k, p, r) = recv_resp-Prints cs [] in
      let s = recv_resp [] (map received cs) in
      rw e (
        append_assoc (response ++ c) (concat s.printed) s.response
            ∙ ap (◌++◌ (response ++ c)) k
            ∙ append_assoc response c (concat cs),
        (e, p),
        r,
      )
  | inr e ↦
      let (k, p, r) = recv_resp-Prints cs (response ++ c) in
      rw e (k ∙ append_assoc response c (concat cs), p, r)
]

-- However the bytes that the daemon sends are split, the program prints them all in order and keeps
-- what has no end yet; each piece that it prints ends in a newline, a carriage return or a NUL.
pub recv_resp-prints :
    (cs : List Bytes)
    → (concat (recv_resp [] (map received cs)).printed ++ (recv_resp [] (map received cs)).response
        ≡ concat cs)
      × All (λ p. is_ended p ≡ true) (recv_resp [] (map received cs)).printed
recv_resp-prints cs = let (k, p, r) = recv_resp-Prints cs [] in (k, p)
