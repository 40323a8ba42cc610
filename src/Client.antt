-- ===== src/Client.antt =====
-- The program of a client, trunk/client: main.c with its arguments, util/prompt.c which reads what the
-- user types, send_cmd.c which sends it, and recv_resp.c which prints what the daemon answers. What
-- `read`, `recv` and `send` return is a list, and a list that runs out is a call still waiting. Memory
-- is taken to suffice.
pub mod Commands
pub mod Ports
pub mod Responses
use pire2pire.Base.{
  ℕ, ◌%◌, ◌^◌, Bool, true, false, ◌||◌, Option, none, some, List, [], ◌∷◌, ◌++◌, Bytes, codes, ◌==◌,
  if◌then◌else◌, ltb, leb, atoi, starts_with,
}
use pire2pire.Socket.{Send, SendResult, complete, broken, pending, send_loop}

-- Where `main` connects to; `sin_port` is in the order of the host.
pub data Target : Type 0 where
  usage invalid_address invalid_port : Target
  connect_to : (addr : ℕ) → (sin_port : ℕ) → Target

-- The bit pattern of an int that is not from `low` to `high`, for `low` not negative and `high` less
-- than 2^31.
outside : ℕ → ℕ → ℕ → Bool
outside low high n = leb (2 ^ 31) n || ltb n low || ltb high n

check_port : ℕ → ℕ → Target
unfolding outside
check_port addr port =
    if outside 1024 49151 port then invalid_port else connect_to addr (port % 2 ^ 16)

check_addr : Option ℕ → Bytes → Target
unfolding check_port
check_addr none port = invalid_address
check_addr (some addr) port = check_port addr (atoi port)

-- `localhost` is what `inet_aton` makes of "127.0.0.1".
pub target : (Bytes → Option ℕ) → ℕ → List Bytes → Target
unfolding check_addr
target inet_aton localhost (name ∷ []) = connect_to localhost (1337 % 2 ^ 16)
target inet_aton localhost (name ∷ ip ∷ port ∷ []) = check_addr (inet_aton ip) port
target inet_aton localhost argv = usage

-- What `read` gives; no byte is the end of the input. The user types no NUL.
pub data Read : Type 0 where
  typed : Bytes → Read
  interrupted read_failed end_of_input : Read

pub data Prompted : Type 0 where
  line : Option Bytes → List Read → Prompted
  exited waiting : Prompted

-- `line_read[buffer_offset - 1] == '\n'`
pub ends_in : ℕ → Bytes → Bool
ends_in c [] = false
ends_in c (b ∷ []) = b == c
ends_in c (b ∷ d ∷ bs) = ends_in c (d ∷ bs)

pub append_read : Option Bytes → Bytes → Bytes
append_read none bs = bs
append_read (some line_read) bs = line_read ++ bs

pub prompt_loop : Option Bytes → List Read → Prompted
unfolding ends_in append_read
prompt_loop line_read [] = waiting
prompt_loop line_read (interrupted ∷ rs) = prompt_loop line_read rs
prompt_loop line_read (read_failed ∷ rs) = exited
prompt_loop line_read (end_of_input ∷ rs) = line line_read rs
prompt_loop line_read (typed bs ∷ rs) =
    let more = prompt_loop (some (append_read line_read bs)) rs in
    if ends_in 10 (append_read line_read bs)
    then line (some (append_read line_read bs)) rs
    else more

pub prompt : List Read → Prompted
unfolding prompt_loop
prompt rs = prompt_loop none rs

-- `faulted`: `strlen` of NULL.
pub data Status : Type 0 where
  finished failed faulted blocked : Status

pub record Session : Type 0 where
  pub wire : Bytes
  pub status : Status

-- What `prompt` returns each time, and what `send` answers.
pub send_cmd : List (Option Bytes) → List Send → Session
send_cmd [] as' = record { wire = []; status = blocked }
send_cmd (none ∷ more) as' = record { wire = []; status = faulted }
send_cmd (some user_input ∷ more) as' =
    let r = send_loop user_input as' in
    let s = send_cmd more r.rest in
    elim r.status [
      | complete ↦
          if starts_with user_input (codes "quit")
          then record { wire = r.wire; status = finished }
          else record { wire = r.wire ++ s.wire; status = s.status }
      | broken ↦ record { wire = r.wire; status = failed }
      | pending ↦ record { wire = r.wire; status = blocked }
    ]

-- What `recv` gives; the daemon sends no NUL.
pub data Recv : Type 0 where
  received : Bytes → Recv
  disconnected recv_failed : Recv

pub record Screen : Type 0 where
  pub printed : List Bytes
  pub response : Bytes
  pub running : Bool

print_response : Bytes → Screen → Screen
print_response response s = record s { printed = response ∷ s.printed }

-- Both loops; `response` is what was received since the last `printf`.
pub recv_resp : Bytes → List Recv → Screen
unfolding print_response ends_in
recv_resp response [] = record { printed = []; response = response; running = true }
recv_resp response (recv_failed ∷ rs) = record {
  printed = [];
  response = response;
  running = false;
}
recv_resp response (disconnected ∷ rs) = record {
  printed = [];
  response = response;
  running = false;
}
recv_resp response (received bs ∷ rs) =
    let whole = response ++ bs in
    let next = recv_resp [] rs in
    let more = recv_resp whole rs in
    if ends_in 10 whole || ends_in 0 whole || ends_in 13 whole
    then print_response whole next
    else more
