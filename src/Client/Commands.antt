-- ===== src/Client/Commands.antt =====
-- What the user types, until "quit", and what goes to the daemon.
use mathlib.Core.List.{append_assoc}
use pire2pire.Base.{
  ℕ, zero, suc, replicate, ◌+◌, ◌≤◌, ◌≡◌, refl, sym, ap, ◌∙◌, Bool, true, false, Option, none, some,
  List, [], ◌∷◌, ◌++◌, map, Bytes, codes, starts_with, length, All, arith,
}
use pire2pire.Requests.Receive.{concat, total}
use pire2pire.Socket.{Send, send_loop}
use pire2pire.Socket.Sends.{IsProgress, send_loop-complete, send_loop-rest}
use pire2pire.Client.{
  Read, interrupted, end_of_input, line, prompt_loop, prompt, finished, faulted, send_cmd,
}

abbrev pub is_quit : Bytes → Bool
is_quit w = starts_with w (codes "quit")

send_cmd-step :
    (w : Bytes) (more : List (Option Bytes)) (as' : List Send)
    → All IsProgress as'
    → length w ≤ length as'
    → is_quit w ≡ false
    → send_cmd (some w ∷ more) as' ≡ record {
      wire = w ++ (send_cmd more (send_loop w as').rest).wire;
      status = (send_cmd more (send_loop w as').rest).status;
    }
unfolding send_cmd
send_cmd-step w more as' p h q =
    let (s, e) = send_loop-complete w as' p h in ground (arith, s, e, q)

send_cmd-quit :
    (w : Bytes) (more : List (Option Bytes)) (as' : List Send)
    → All IsProgress as'
    → length w ≤ length as'
    → is_quit w ≡ true
    → send_cmd (some w ∷ more) as' ≡ record { wire = w; status = finished }
unfolding send_cmd
send_cmd-quit w more as' p h q =
    let (s, e) = send_loop-complete w as' p h in ground (arith, s, e, q)

abbrev pub IsCommand : Bytes → Type 0
IsCommand w = is_quit w ≡ false

-- Commands of the user that do not start with "quit", and then one that does, whatever would come
-- after it: with a daemon that keeps taking bytes, what goes out is those lines in order, each whole,
-- the last one included, and then the program is done.
pub send_cmd-finished :
    (ws : List Bytes) (quit : Bytes) (more : List (Option Bytes)) (as' : List Send)
    → All IsCommand ws
    → is_quit quit ≡ true
    → All IsProgress as'
    → total ws + length quit ≤ length as'
    → send_cmd (map some ws ++ some quit ∷ more) as'
      ≡ record { wire = concat ws ++ quit; status = finished }
unfolding total concat
send_cmd-finished [] quit more as' c q p h = send_cmd-quit quit more as' p (omega (arith, h)) q
send_cmd-finished (w ∷ ws) quit more as' c q p h =
    let (p', l) = send_loop-rest w as' p (omega (arith, h)) in
    send_cmd-step w (map some ws ++ some quit ∷ more) as' p (omega (arith, h)) c.0
    ∙ ap (λ s. record { wire = w ++ s.wire; status = s.status })
        (send_cmd-finished ws quit more (send_loop w as').rest c.1 q p' (omega (arith, h, l)))
    ∙ ap (λ b. record { wire = b; status = finished }) (sym (append_assoc w (concat ws) quit))

prompt_loop-interrupted :
    (n : ℕ) (line_read : Option Bytes) (rs : List Read)
    → prompt_loop line_read (replicate n interrupted ++ rs) ≡ prompt_loop line_read rs
unfolding prompt_loop
prompt_loop-interrupted zero line_read rs = refl
prompt_loop-interrupted (suc n) line_read rs = prompt_loop-interrupted n line_read rs

-- The defect: at the end of the input, however often a signal interrupts the read before it, `prompt`
-- returns NULL, as nothing was typed since the last line, and `send_cmd` reads its length.
pub prompt-end_of_input :
    (n : ℕ) (rs : List Read) (more : List (Option Bytes)) (as' : List Send)
    → (prompt (replicate n interrupted ++ end_of_input ∷ rs) ≡ line none rs)
      × (send_cmd (none ∷ more) as' ≡ record { wire = []; status = faulted })
unfolding prompt prompt_loop send_cmd
prompt-end_of_input n rs more as' = (prompt_loop-interrupted n none (end_of_input ∷ rs), refl)
