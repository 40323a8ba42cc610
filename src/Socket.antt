-- ===== src/Socket.antt =====
-- trunk/daemon/util/socket.c and trunk/util/string.c: lines over a socket. What `recv`, `select` and
-- `send` answer is a list, consumed from the front; a list that runs out is a call still waiting.
-- `realloc` is taken to succeed.
pub mod Lines
pub mod Sends
use pire2pire.Base.{
  ℕ, zero, suc, Bool, true, false, Option, none, some, List, [], ◌∷◌, ◌++◌, Bytes, ◌==◌,
  if◌then◌else◌, strchr, take, drop,
}

-- One `recv` of one byte.
pub data Recv : Type 0 where
  byte : ℕ → Recv
  closed failed : Recv

-- A line or NULL, with what the socket holds then; or a `recv` that has not returned.
pub data Line : Type 0 where
  got : Option Bytes → List Recv → Line
  waiting : Line

append_byte : Option Bytes → ℕ → Bytes
append_byte none c = c ∷ []
append_byte (some message) c = message ++ c ∷ []

getline_loop : Option Bytes → List Recv → Line
unfolding append_byte
getline_loop message [] = waiting
getline_loop message (failed ∷ es) = got none es
getline_loop message (closed ∷ es) = got message es
getline_loop message (byte c ∷ es) =
    let rest = getline_loop (some (append_byte message c)) es in
    if c == 10 then got (some (append_byte message c)) es else rest

pub socket_getline_with_trailer : List Recv → Line
unfolding getline_loop
socket_getline_with_trailer es = getline_loop none es

-- A buffer read as a C string: it ends at the first NUL that was received.
pub c_string : Bytes → Bytes
c_string [] = []
c_string (c ∷ cs) = if c == 0 then [] else c ∷ c_string cs

-- `*strchr (msg, c) = '\0'`, if `c` occurs.
cut_at : ℕ → Bytes → Bytes
cut_at c msg = elim (strchr c msg) [ none ↦ msg | some (front, back) ↦ front ]

pub string_remove_trailer : Bytes → Bytes
unfolding cut_at
string_remove_trailer msg = cut_at 10 (cut_at 13 (c_string msg))

remove_trailer_of : Line → Line
remove_trailer_of waiting = waiting
remove_trailer_of (got none es) = got none es
remove_trailer_of (got (some msg) es) = got (some (string_remove_trailer msg)) es

pub socket_getline : List Recv → Line
unfolding remove_trailer_of
socket_getline es = remove_trailer_of (socket_getline_with_trailer es)

-- What `select` with a timeout answers.
pub data Select : Type 0 where
  ready timeout select_failed : Select

pub socket_try_getline : Select → List Recv → Line
socket_try_getline ready es = socket_getline es
socket_try_getline timeout es = got none es
socket_try_getline select_failed es = got none es

-- One `send`: how many bytes went out, or an error.
pub data Send : Type 0 where
  sent : ℕ → Send
  send_failed : Send

pub data SendStatus : Type 0 where
  complete broken pending : SendStatus

-- What went out, how the loop ended, and the answers not used.
pub record SendResult : Type 0 where
  pub wire : Bytes
  pub status : SendStatus
  pub rest : List Send

-- The loop over `nb_sent_sum`; the first argument is what is not yet sent.
pub send_loop : Bytes → List Send → SendResult
send_loop [] as' = record { wire = []; status = complete; rest = as' }
send_loop (c ∷ cs) [] = record { wire = []; status = pending; rest = [] }
send_loop (c ∷ cs) (send_failed ∷ as') = record { wire = []; status = broken; rest = as' }
send_loop (c ∷ cs) (sent n ∷ as') =
    let r = send_loop (drop n (c ∷ cs)) as' in
    record { wire = take n (c ∷ cs) ++ r.wire; status = r.status; rest = r.rest }

-- The function returns nothing: a failed `send` is only logged.
pub socket_sendline : Bytes → List Send → SendResult
socket_sendline msg as' = send_loop msg as'
