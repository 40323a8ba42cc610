-- ===== src/Requests/Raw/Forwards.antt =====
-- Which commands are forwarded, and to whom.
use pire2pire.Base.{
  ℕ, ◌+◌, ◌^◌, ◌≤◌, ◌<◌, ◌≡◌, refl, ◌∙◌, Bool, true, false, ◌||◌, Bool-cases, ◌&&◌, not, inl, inr,
  some, List, [], ◌∷◌, ◌++◌, Bytes, codes, ◌==◌, strchr, starts_with, scan_int-decimal, decimal,
  decimal-IsNumeral, All-append, is_digit, length, get_elem?, All, arith,
}
use pire2pire.Cmd.{is_a_delimiter, OptState, cmd_to_argc_argv}
use pire2pire.Cmd.Reader.{skip_options-empty}
use pire2pire.Cmd.Split.{join_spaces, IsPiece, cmd_to_argc_argv-join_spaces}
use pire2pire.Handler.Identify.{Peer, newline}
use pire2pire.Handler.Identify.Address.{IsAddress, endpoint, strchr-endpoint}
use pire2pire.Requests.Ready.Announced.{numeral-IsPiece, address-IsPiece}
use pire2pire.Requests.Raw.{
  Raw, forwarded, crashed, told, find_peer, second_tail, send_raw, to_peer, with_port, with_couple,
  with_word, few_arguments, client_request_raw,
}

abbrev pub is_forwarded : Raw → Bool
is_forwarded crashed = false
is_forwarded (told line) = false
is_forwarded (forwarded line d command) = true

-- Only a local client can have a command forwarded: its address starts with 127.0.0.1.
raw-local :
    (st : OptState) (other : Bytes) (ds : List Peer) (cmd : Bytes)
    → (is_forwarded (client_request_raw st other ds cmd)
        && not (starts_with other (codes "127.0.0.1")))
      ≡ false
unfolding client_request_raw
raw-local st other ds cmd = elim (Bool-cases (starts_with other (codes "127.0.0.1"))) [
  | inl t ↦ ground (arith, t)
  | inr f ↦ ground (arith, f)
]

no_space : (w rest : Bytes) → IsPiece w → strchr b' ' (w ++ b' ' ∷ rest) ≡ some (w, rest)
unfolding strchr is_a_delimiter
no_space [] rest h = refl
no_space (c ∷ w) rest h = ground (arith, h.0, no_space w rest h.1)

abbrev pub raw_words : Bytes → ℕ → List Bytes → List Bytes
raw_words ip port ws = codes "raw" ∷ endpoint ip port ∷ ws

digits_of : (ip : Bytes) → IsAddress ip → All (λ c. (is_digit c || c == b'.') ≡ true) ip
unfolding IsAddress
digits_of [] a = tt
digits_of (c ∷ ip) a = a

endpoint-IsPiece : (ip : Bytes) (port : ℕ) → IsAddress ip → IsPiece (endpoint ip port)
unfolding is_a_delimiter
endpoint-IsPiece ip port a =
    All-append (λ c. is_a_delimiter c ≡ false) ip (b':' ∷ decimal port) (address-IsPiece ip a)
      (refl, numeral-IsPiece (decimal port) (decimal-IsNumeral port))

abbrev forward : Peer → Bytes → Raw
forward d command =
    forwarded (codes " < raw: Sent raw command successfully" ++ newline) d (command ++ newline)

with_couple_lem :
    (ds : List Peer) (ip : Bytes) (port : ℕ) (command : Bytes) (d : Peer)
    → IsAddress ip
    → port < 2 ^ 31
    → find_peer ip port ds ≡ some d
    → with_word ds (codes "raw " ++ (endpoint ip port ++ b' ' ∷ command)) (some (endpoint ip port))
      ≡ forward d command
unfolding with_word with_couple with_port to_peer second_tail send_raw strchr
with_couple_lem ds ip port command d a p f =
    rw (strchr-endpoint ip (decimal port) (digits_of ip a), scan_int-decimal port p, f)
      (rw (no_space (endpoint ip port) command (endpoint-IsPiece ip port a)) refl)

raw_argv :
    (ip : Bytes) (port : ℕ) (w : Bytes) (ws : List Bytes)
    → IsAddress ip
    → All IsPiece (w ∷ ws)
    → cmd_to_argc_argv (join_spaces (raw_words ip port (w ∷ ws))) ≡ raw_words ip port (w ∷ ws)
unfolding is_a_delimiter
raw_argv ip port w ws a h =
    cmd_to_argc_argv-join_spaces (codes "raw") (endpoint ip port ∷ w ∷ ws)
      ((refl, (refl, (refl, tt))), (endpoint-IsPiece ip port a, h))

raw_step :
    (st : OptState) (addr : Bytes) (ds : List Peer) (cmd : Bytes) (argv : List Bytes)
    (couple : Bytes)
    → cmd_to_argc_argv cmd ≡ argv
    → st.optind + 2 ≤ length argv
    → starts_with addr (codes "127.0.0.1") ≡ true
    → get_elem? argv 1 ≡ some couple
    → client_request_raw st addr ds cmd ≡ with_word ds cmd (some couple)
unfolding client_request_raw few_arguments
raw_step st addr ds cmd argv couple e n t g =
    rw e (rw (skip_options-empty (length argv) st argv) ground (arith, n, t, g))

-- A local client's "raw IP:PORT CMD ...", of words without spaces, with IP a dotted address, PORT below
-- 2^31, and `optind` at most 1: when a daemon with that address and port is connected, the first one
-- is sent exactly "CMD ..." and a newline. And whatever the line, a command is forwarded only for a
-- client whose address starts with 127.0.0.1.
pub client_request_raw-join_spaces :
    (st : OptState) (addr ip : Bytes) (port : ℕ) (w : Bytes) (ws : List Bytes) (ds : List Peer)
    (d : Peer) (cmd other : Bytes)
    → starts_with addr (codes "127.0.0.1") ≡ true
    → IsAddress ip
    → port < 2 ^ 31
    → All IsPiece (w ∷ ws)
    → st.optind ≤ 1
    → find_peer ip port ds ≡ some d
    → (client_request_raw st addr ds (join_spaces (raw_words ip port (w ∷ ws)))
        ≡ forwarded
            (codes " < raw: Sent raw command successfully" ++ newline)
            d
            (join_spaces (w ∷ ws) ++ newline))
      × ((is_forwarded (client_request_raw st other ds cmd)
            && not (starts_with other (codes "127.0.0.1")))
          ≡ false)
unfolding join_spaces
client_request_raw-join_spaces st addr ip port w ws ds d cmd other t a p h o f = (
  raw_step st addr ds (join_spaces (raw_words ip port (w ∷ ws))) (raw_words ip port (w ∷ ws))
        (endpoint ip port) (raw_argv ip port w ws a h) (omega (arith, o)) t refl
      ∙ with_couple_lem ds ip port (join_spaces (w ∷ ws)) d a p f,
  raw-local st other ds cmd,
)
