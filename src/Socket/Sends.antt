-- ===== src/Socket/Sends.antt =====
-- The loop that sends a message, for every way in which `send` splits it.
use mathlib.Core.List.{append_assoc}
use pire2pire.Base.{
  ◌+◌, ◌≤◌, ◌<◌, ◌≡◌, refl, sym, ap, ◌∙◌, List, [], ◌∷◌, ◌++◌, Bytes, length, take, drop,
  take-append-drop, length-drop, All, arith,
}
use pire2pire.Socket.{Send, sent, send_failed, complete, send_loop}

-- Bytes go out in order and once: what went out is the message up to some point, and all of it if the
-- loop ends without an error.
pub send_loop-prefix :
    (msg : Bytes) (as' : List Send)
    → (unsent : Bytes) × (msg ≡ (send_loop msg as').wire ++ unsent)
      × ((send_loop msg as').status ≡ complete → unsent ≡ [])
unfolding send_loop
send_loop-prefix [] as' = ([], refl, λ h. refl)
send_loop-prefix (c ∷ cs) [] = (c ∷ cs, refl, λ h. absurd (ground arith))
send_loop-prefix (c ∷ cs) (send_failed ∷ as') = (c ∷ cs, refl, λ h. absurd (ground arith))
send_loop-prefix (c ∷ cs) (sent n ∷ as') =
    let (unsent, e, f) = send_loop-prefix (drop n (c ∷ cs)) as' in
    (
      unsent,
      sym (take-append-drop n (c ∷ cs))
          ∙ ap (◌++◌ (take n (c ∷ cs))) e
          ∙ sym (append_assoc (take n (c ∷ cs)) _ unsent),
      f,
    )

-- The answer of a `send` that takes some bytes.
abbrev pub IsProgress : Send → Type 0
IsProgress (sent n) = 0 < n
IsProgress send_failed = ⊥

-- If every `send` takes at least one byte, as many answers as the message has bytes are enough.
pub send_loop-complete :
    (msg : Bytes) (as' : List Send)
    → All IsProgress as'
    → length msg ≤ length as'
    → ((send_loop msg as').status ≡ complete) × ((send_loop msg as').wire ≡ msg)
unfolding send_loop
send_loop-complete [] as' p h = (refl, refl)
send_loop-complete (c ∷ cs) [] p h = absurd (omega arith)
send_loop-complete (c ∷ cs) (send_failed ∷ as') p h = absurd p.0
send_loop-complete (c ∷ cs) (sent n ∷ as') p h =
    let (s, w) =
      send_loop-complete (drop n (c ∷ cs)) as' p.1
        (omega (arith, length-drop n (c ∷ cs), p.0, h)) in
    (s, ap (◌++◌ (take n (c ∷ cs))) w ∙ take-append-drop n (c ∷ cs))

-- The answers that a loop leaves: it uses at most one for each byte.
pub send_loop-rest :
    (msg : Bytes) (as' : List Send)
    → All IsProgress as'
    → length msg ≤ length as'
    → All IsProgress (send_loop msg as').rest
      × (length as' ≤ length (send_loop msg as').rest + length msg)
unfolding send_loop
send_loop-rest [] as' p h = (p, omega arith)
send_loop-rest (c ∷ cs) [] p h = absurd (omega arith)
send_loop-rest (c ∷ cs) (send_failed ∷ as') p h = absurd p.0
send_loop-rest (c ∷ cs) (sent n ∷ as') p h =
    let d = length-drop n (c ∷ cs) in
    let (q, l) = send_loop-rest (drop n (c ∷ cs)) as' p.1 (omega (arith, d, p.0, h)) in
    (q, omega (arith, d, p.0, l))
