-- ===== src/Requests/Listing/Offers.antt =====
-- What a daemon offers by `daemon_request_list`, as another daemon reads it.
use mathlib.Core.List.{append_assoc}
use pire2pire.Base.{
  ℕ, ◌^◌, ◌<◌, ◌≡◌, refl, true, false, some, [], ◌∷◌, ◌++◌, Bytes, decimal, decimal-IsNumeral,
  IsNumeral, print_int-decimal, length, All, All-map, arith,
}
use pire2pire.CmdParser.{is_a_delimiter}
use pire2pire.CmdParser.Plain.{IsWord, join, any_option, is_option}
use pire2pire.Handler.Identify.{newline}
use pire2pire.Handler.Identify.Address.{
  IsAddress, endpoint-IsWord, endpoint-no_option, numeral-no_delimiter,
}
use pire2pire.Requests.Files.Offered.{file_command}
use pire2pire.Requests.Listing.{
  DirEntry, get_md5, int_of_size, answer, offer, full_path, list_entry, send,
}
use pire2pire.Requests.Listing.Key.{is_hex}

hex-no_delimiter : (c : ℕ) → is_hex c ≡ true → is_a_delimiter c ≡ false
unfolding is_a_delimiter
hex-no_delimiter c h = ground arith

pub key-IsWord : (key : Bytes) → length key ≡ 32 → All (λ c. is_hex c ≡ true) key → IsWord key
key-IsWord [] n h = absurd (omega (arith, n))
key-IsWord (c ∷ key) n h = (refl, All-map hex-no_delimiter (c ∷ key) h)

pub key-no_option :
    (key : Bytes) → length key ≡ 32 → All (λ c. is_hex c ≡ true) key → is_option key ≡ false
unfolding is_option
key-no_option [] n h = absurd (omega (arith, n))
key-no_option (c ∷ []) n h = refl
key-no_option (c ∷ d ∷ []) n h = absurd (omega (arith, n))
key-no_option (c ∷ d ∷ e ∷ key) n h = ground (arith, h.0)

pub numeral-IsWord : (w : Bytes) → IsNumeral w → IsWord w
unfolding IsNumeral
numeral-IsWord [] h = absurd (ground (arith, h))
numeral-IsWord (c ∷ cs) h = (refl, numeral-no_delimiter (c ∷ cs) h)

pub numeral-no_option : (w : Bytes) → IsNumeral w → is_option w ≡ false
unfolding is_option IsNumeral
numeral-no_option [] h = refl
numeral-no_option (c ∷ []) h = refl
numeral-no_option (c ∷ d ∷ []) h = ground (arith, h.0)
numeral-no_option (c ∷ d ∷ e ∷ cs) h = ground (arith, h.0)

-- What `file_command` needs of its words.
pub file_command-words :
    (name key : Bytes) (size : ℕ) (ip : Bytes) (port : ℕ)
    → IsWord name
    → is_option name ≡ false
    → length key ≡ 32
    → All (λ c. is_hex c ≡ true) key
    → IsAddress ip
    → All IsWord (file_command name key size ip port)
      × (any_option (file_command name key size ip port) ≡ false)
unfolding file_command any_option is_a_delimiter is_option
file_command-words name key size ip port w o n h a = (
  (
    (refl, (refl, (refl, (refl, (refl, tt))))),
    (
      w,
      (
        key-IsWord key n h,
        (numeral-IsWord (decimal size) (decimal-IsNumeral size), (endpoint-IsWord ip port a, tt)),
      ),
    ),
  ),
  rw
      (
        o,
        key-no_option key n h,
        numeral-no_option (decimal size) (decimal-IsNumeral size),
        endpoint-no_option ip port a,
      )
      refl,
)

int_of_size-small : (size : ℕ) → size < 2 ^ 31 → int_of_size size ≡ size
unfolding int_of_size
int_of_size-small size z = omega arith

answer-join :
    (e : DirEntry) (key : Bytes) (size : ℕ) (ip : Bytes) (port : ℕ)
    → port < 2 ^ 31
    → size < 2 ^ 31
    → answer ip port e key size ≡ join (file_command e.name key size ip port) ++ newline
unfolding answer join file_command
answer-join e key size ip port p z =
    rw (int_of_size-small size z, print_int-decimal size z, print_int-decimal port p) simp
      append_assoc

-- The line that is sent for an entry.
pub list_entry-answer :
    (folder : Bytes) (e : DirEntry) (key : Bytes) (size : ℕ) (ip : Bytes) (port : ℕ)
    → e.is_regular ≡ true
    → e.size ≡ some size
    → get_md5 e ≡ some key
    → length (full_path folder e) < 256
    → length (join (file_command e.name key size ip port) ++ newline) < 512
    → port < 2 ^ 31
    → size < 2 ^ 31
    → list_entry folder ip port e ≡ send (join (file_command e.name key size ip port) ++ newline)
unfolding list_entry offer
list_entry-answer folder e key size ip port r s k f l p z =
    let same = answer-join e key size ip port p z in rw (r, s, k) ground (arith, f, l, same)
