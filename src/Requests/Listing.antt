-- ===== src/Requests/Listing.antt =====
-- trunk/daemon/daemon_requests/daemon_request_list.c, which offers every file of the shared folder, and
-- the key of a file, which daemon_request_get.c computes in the same way.
pub mod Accepted
pub mod Key
pub mod Offers
mod Examples
use pire2pire.Base.{
  ℕ, ◌+◌, ◌-◌, ◌/◌, ◌%◌, ◌^◌, Bool, true, false, Option, none, some, List, [], ◌∷◌, ◌++◌, Bytes,
  codes, if◌then◌else◌, ltb, length, print_int,
}
use pire2pire.Handler.Identify.{newline}

-- What `readdir`, `stat`, MDFile and `malloc` say of an entry: `size` is none when `stat` fails,
-- `digest` has the 16 bytes of the MD5 sum.
pub record DirEntry : Type 0 where
  pub is_regular : Bool
  pub name : Bytes
  pub size : Option ℕ
  pub digest : Bytes
  pub has_memory : Bool

hex_digit : ℕ → ℕ
hex_digit n = if ltb n 10 then n + 48 else n + 87

-- "%02x" of an unsigned char.
hex_byte : ℕ → Bytes
unfolding hex_digit
hex_byte b = hex_digit (b / 16) ∷ hex_digit (b % 16) ∷ []

unfoldable pub hex : Bytes → Bytes
unfolding hex_byte
hex [] = []
hex (b ∷ bs) = hex_byte b ++ hex bs

unfoldable pub get_md5 : DirEntry → Option Bytes
unfolding hex
get_md5 e = if e.has_memory then some (hex e.digest) else none

-- `(int) entry_stat.st_size`, as its bit pattern.
pub int_of_size : ℕ → ℕ
int_of_size size = size % 2 ^ 32

unfoldable pub full_path : Bytes → DirEntry → Bytes
full_path folder e = folder ++ b'/' ∷ e.name

pub answer : Bytes → ℕ → DirEntry → Bytes → ℕ → Bytes
unfolding int_of_size
answer my_ip port e key size =
    codes "file "
    ++ e.name
    ++ b' ' ∷ key
    ++ b' ' ∷ print_int (int_of_size size)
    ++ b' ' ∷ my_ip
    ++ b':' ∷ print_int port
    ++ newline

-- `overflow`: `entry_full_path` or `answer` is written past its end.
pub data Step : Type 0 where
  skip overflow : Step
  send : (line : Bytes) → Step

offer : Bytes → ℕ → DirEntry → Option ℕ → Option Bytes → Step
unfolding answer
offer my_ip port e none key = skip
offer my_ip port e (some size) none = skip
offer my_ip port e (some size) (some key) =
    if ltb (length (answer my_ip port e key size)) 512
    then send (answer my_ip port e key size)
    else overflow

pub list_entry : Bytes → Bytes → ℕ → DirEntry → Step
unfolding full_path offer get_md5
list_entry folder my_ip port e =
    if e.is_regular
    then (if ltb (length (full_path folder e)) 256
        then offer my_ip port e e.size (get_md5 e)
        else overflow)
    else skip

-- The lines sent, or none when a buffer overflows.
pub list_entries : Bytes → Bytes → ℕ → List DirEntry → Option (List Bytes)
unfolding list_entry
list_entries folder my_ip port [] = some []
list_entries folder my_ip port (e ∷ es) = elim (list_entry folder my_ip port e) [
  | skip ↦ list_entries folder my_ip port es
  | overflow ↦ none
  | send line ↦ elim (list_entries folder my_ip port es) [
    | none ↦ none
    | some lines ↦ some (line ∷ lines)
  ]
]

-- `dir` is none when `opendir` fails. A daemon that cannot be sent to is only logged.
pub daemon_request_list : Bytes → Bytes → ℕ → Option (List DirEntry) → Option (List Bytes)
unfolding list_entries
daemon_request_list folder my_ip port none = some []
daemon_request_list folder my_ip port (some es) = list_entries folder my_ip port es
