-- ===== src/Pooled/Bind/Retry.antt =====
-- The port that `socket_init` ends on.
use mathlib.Core.List.{append-nil}
use pire2pire.Base.{
  ℕ, zero, suc, Bool, ◌==◌, if◌then◌else◌, ◌+◌, ◌%◌, ◌^◌, ◌<◌, ◌≡◌, refl, ap, ◌∙◌, sym, true,
  Option, none, some, List, [], ◌∷◌, ◌++◌, map, arith,
}
use pire2pire.Pooled.Bind.{
  Errno, addr_in_use, other_error, Bind, bound, failed, opened, trying, bound_port, next_port,
  bind_loop, socket_init,
}

-- How many ports were in use.
unfoldable pub count_in_use : List Errno → ℕ
count_in_use [] = 0
count_in_use (addr_in_use ∷ es) = suc (count_in_use es)
count_in_use (other_error ∷ es) = count_in_use es

shift : (n k : ℕ) → (n % 2 ^ 16 + k) % 2 ^ 16 ≡ (n + k) % 2 ^ 16
shift n k = omega arith

bind_loop-next_port :
    (listens : Bool) (port : ℕ) (e : Option Errno) (bs : List Bind)
    → bind_loop listens port e bs ≡ bind_loop listens (next_port port e) none bs
unfolding bind_loop next_port
bind_loop-next_port listens port e [] = refl
bind_loop-next_port listens port e (bound k ∷ bs) = refl
bind_loop-next_port listens port e (failed d ∷ bs) = refl

bind_loop-failed :
    (listens : Bool) (es : List Errno) (port : ℕ) (bs : List Bind)
    → port < 2 ^ 16
    → bind_loop listens port none (map failed es ++ bs)
      ≡ bind_loop listens ((port + count_in_use es) % 2 ^ 16) none bs
unfolding bind_loop count_in_use
bind_loop-failed listens [] port bs h = ap (λ p. bind_loop listens p none bs) (omega (arith, h))
bind_loop-failed listens (addr_in_use ∷ es) port bs h =
    bind_loop-next_port listens port (some addr_in_use) (map failed es ++ bs)
    ∙ bind_loop-failed listens es ((port + 1) % 2 ^ 16) bs (omega arith)
    ∙ ap (λ p. bind_loop listens p none bs) (shift (port + 1) (count_in_use es) ∙ omega arith)
bind_loop-failed listens (other_error ∷ es) port bs h =
    bind_loop-next_port listens port (some other_error) (map failed es ++ bs)
    ∙ bind_loop-failed listens es port bs h

bound_port_lem :
    (port ephemeral : ℕ) → bound_port port ephemeral ≡ (if port == 0 then ephemeral else port)
unfolding bound_port
bound_port_lem zero ephemeral = refl
bound_port_lem (suc port) ephemeral = ground arith

-- From a port below 2^16, after any failures of `bind`, the next port tried is as many above the first,
-- modulo 2^16, as ports were in use. A success binds the socket to it, or to a port that the kernel
-- chooses where that is 0, and the socket is returned whether `listen` succeeds or not. Without a
-- success the loop still tries: an error of another kind is met by the same port again, so that it
-- never ends the loop.
pub socket_init-failed :
    (listens : Bool) (es : List Errno) (port ephemeral : ℕ) (bs : List Bind)
    → port < 2 ^ 16
    → (socket_init true listens port (map failed es ++ bound ephemeral ∷ bs)
        ≡ opened
            (if (port + count_in_use es) % 2 ^ 16 == 0
              then ephemeral
              else (port + count_in_use es) % 2 ^ 16)
            listens)
      × (socket_init true listens port (map failed es) ≡ trying ((port + count_in_use es) % 2 ^ 16))
unfolding socket_init bind_loop
socket_init-failed listens es port ephemeral bs h = (
  bind_loop-failed listens es port (bound ephemeral ∷ bs) h
      ∙ ap (λ p. opened p listens) (bound_port_lem ((port + count_in_use es) % 2 ^ 16) ephemeral),
  ap (bind_loop listens port none) (sym (append-nil (map failed es)))
      ∙ bind_loop-failed listens es port [] h,
)
