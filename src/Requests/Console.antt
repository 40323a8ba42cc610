-- ===== src/Requests/Console.antt =====
-- The short answers to clients and daemons: trunk/daemon/client_requests/client_request_unknown.c,
-- client_request_set.c, client_request_info.c and client_request_list.c, and
-- trunk/daemon/daemon_requests/daemon_request_unknown.c.
use pire2pire.Base.{
  ℕ, suc, ◌+◌, ◌-◌, ◌<◌, ◌≡◌, Option, none, some, List, [], ◌∷◌, ◌++◌, map, Bytes, codes, ◌==◌,
  if◌then◌else◌, ltb, length, length-append, get_elem?, print_int, arith,
}
use pire2pire.Cmd.{OptState, NextOption, not_allowed_option, fault, cmd_to_argc_argv, skip_options}
use pire2pire.Handler.Identify.{Peer, newline}

-- `overflow`: `sprintf` past the 256 bytes of `answer`, or a read behind `argv`.
pub data Answered : Type 0 where
  overflow nothing : Answered
  answers : List Bytes → Answered

answer : Bytes → Answered
answer line = if ltb (length line) 256 then answers (line ∷ []) else overflow

unknown_line : Bytes → Bytes
unknown_line cmd = codes " < Unknown command '" ++ cmd ++ codes "'" ++ newline

error_line : Bytes → Bytes
error_line cmd = codes "error " ++ cmd ++ codes " unknown command" ++ newline

pub client_request_unknown : Bytes → Answered
unfolding answer unknown_line
client_request_unknown cmd = answer (unknown_line cmd)

pub daemon_request_unknown : Bytes → Answered
unfolding answer error_line
daemon_request_unknown cmd = answer (error_line cmd)

set_argument : Option Bytes → Answered
unfolding answer
set_argument none = overflow
set_argument (some word) = answer (codes " < Should have set " ++ word ++ newline)

-- `argc - optind`, an int: neither is negative, and it is when `optind` is the larger.
set_words : ℕ → List Bytes → Answered
unfolding set_argument answer
set_words optind argv =
    if length argv == optind
    then answer (codes " < No arguments, should display all available options" ++ newline)
    else if length argv == optind + 1
    then set_argument (get_elem? argv optind)
    else answer (codes " < You shall only set one option at a time..." ++ newline)

set_parsed : List Bytes → OptState × NextOption → Answered
unfolding set_words
set_parsed argv (st, not_allowed_option) = nothing
set_parsed argv (st, fault) = overflow
set_parsed argv (st, c) = set_words st.optind argv

-- The options are an empty template; `st` is the state of the option reader at the call.
pub client_request_set : OptState → Bytes → Answered
unfolding set_parsed
client_request_set st cmd =
    let argv = cmd_to_argc_argv cmd in set_parsed argv (skip_options (suc (length argv)) st argv [])

there_are : ℕ → Bytes → Bytes
there_are count kind =
    codes " < INFO : there "
    ++ (if ltb 1 count then codes "are " else codes "is ")
    ++ print_int count
    ++ b' ' ∷ kind
    ++ (if ltb 1 count then codes "s" else [])
    ++ codes " connected."
    ++ newline

you_have : ℕ → Bytes
you_have count =
    codes " < INFO : You have "
    ++ print_int count
    ++ codes " request"
    ++ (if ltb 1 count then codes "s" else [])
    ++ codes " currently running."
    ++ newline

request_line : ℕ → Bytes → Bytes
request_line n cmd = codes " < INFO : " ++ print_int n ++ codes " - " ++ cmd ++ newline

request_lines : ℕ → List Bytes → Option (List Bytes)
unfolding request_line
request_lines n [] = some []
request_lines n (cmd ∷ cmds) =
    if ltb (length (request_line n cmd)) 256
    then (elim (request_lines (n + 1) cmds) [
      | none ↦ none
      | some lines ↦ some (request_line n cmd ∷ lines)
    ])
    else none

with_counts : ℕ → ℕ → ℕ → Option (List Bytes) → Answered
unfolding there_are you_have
with_counts nb_clients nb_daemons count none = overflow
with_counts nb_clients nb_daemons count (some lines) = answers (
    there_are nb_clients (codes "client")
    ∷ there_are nb_daemons (codes "daemon")
    ∷ you_have count
    ∷ lines)

-- Without DEBUG. The first three lines fit for every int.
pub client_request_info : ℕ → ℕ → List Bytes → Answered
unfolding with_counts request_lines
client_request_info nb_clients nb_daemons requests =
    with_counts nb_clients nb_daemons (length requests) (request_lines 1 requests)

-- What is sent to each daemon.
pub client_request_list : List Peer → List (Peer × Bytes)
client_request_list ds = map (λ d. (d, codes "list" ++ newline)) ds

answer-length :
    (line : Bytes) (n k : ℕ)
    → length line ≡ n + k
    → k < 256
    → answer line ≡ (if ltb n (256 - k) then answers (line ∷ []) else overflow)
unfolding answer
answer-length line n k e h = ground (arith, e, h)

length-unknown_line : (cmd : Bytes) → length (unknown_line cmd) ≡ length cmd + 22
unfolding unknown_line
length-unknown_line cmd =
    omega (arith, length-append (cmd ++ codes "'") newline, length-append cmd (codes "'"))

length-error_line : (cmd : Bytes) → length (error_line cmd) ≡ length cmd + 23
unfolding error_line
length-error_line cmd = omega (
  arith,
  length-append (cmd ++ codes " unknown command") newline,
  length-append cmd (codes " unknown command"),
)

-- The defect: an unknown command of 234 bytes or more from a client, and one of 233 or more from a
-- daemon, is written past the end of `answer`; every shorter one is answered by one line.
pub unknown-overflow :
    (cmd : Bytes)
    → (line line' : Bytes) × (client_request_unknown cmd
        ≡ (if ltb (length cmd) 234 then answers (line ∷ []) else overflow))
      × (daemon_request_unknown cmd
          ≡ (if ltb (length cmd) 233 then answers (line' ∷ []) else overflow))
unfolding client_request_unknown daemon_request_unknown
unknown-overflow cmd = (
  unknown_line cmd,
  error_line cmd,
  answer-length (unknown_line cmd) (length cmd) 22 (length-unknown_line cmd) (omega arith),
  answer-length (error_line cmd) (length cmd) 23 (length-error_line cmd) (omega arith),
)
