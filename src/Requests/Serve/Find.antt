-- ===== src/Requests/Serve/Find.antt =====
-- The search of `daemon_request_get` for a key, and the line that it announces.
use mathlib.Core.List.{append_assoc}
use pire2pire.Base.{
  ℕ, ◌^◌, ◌<◌, ◌≡◌, refl, ◌∙◌, Bool, true, false, ◌||◌, ◌⊎◌, inl, inr, Bool-cases, Option-cases,
  none, some, List, [], ◌∷◌, ◌++◌, Bytes, codes, if◌then◌else◌, str_eq, eq_of_str_eq, decimal,
  decimal-IsNumeral, print_long, length, All, arith,
}
use pire2pire.CmdParser.{is_a_delimiter, cmd_parse, parsed}
use pire2pire.CmdParser.Plain.{cmd_parse-join, join, any_option, is_option}
use pire2pire.Handler.Identify.{newline}
use pire2pire.Requests.Listing.{DirEntry, get_md5, hex, full_path}
use pire2pire.Requests.Listing.Key.{is_hex}
use pire2pire.Requests.Listing.Offers.{key-IsWord, key-no_option, numeral-IsWord, numeral-no_option}
use pire2pire.Requests.Serve.{
  found, compare_key, look_at, find_entry, Calls, find_file, announced, announce, ready_line,
  serve_found, serve_words, serve_parsed, daemon_request_get,
}

-- What `find_file` can handle: the path fits into its buffer, and `get_md5` gets its memory.
abbrev pub IsReadable : Bytes → DirEntry → Type 0
IsReadable folder e = (length (full_path folder e) < 512) × (e.has_memory ≡ true)

-- A file that can be served under the key.
abbrev pub offers : Bytes → DirEntry → Bool
offers wanted e = elim (get_md5 e) [
  | none ↦ false
  | some key ↦ elim e.size [
    | none ↦ false
    | some s ↦ if e.is_regular then str_eq key wanted else false
  ]
]

abbrev pub offered_by : Bytes → List DirEntry → Bool
offered_by wanted [] = false
offered_by wanted (e ∷ es) = offers wanted e || offered_by wanted es

-- The size of some file of the folder with the key.
abbrev pub HasSize : Bytes → ℕ → List DirEntry → Type 0
HasSize wanted size [] = false ≡ true
HasSize wanted size (e ∷ es) =
    ((offers wanted e ≡ true) × (e.size ≡ some size)) ⊎ HasSize wanted size es

find_entry-miss :
    (folder wanted : Bytes) (e : DirEntry) (es : List DirEntry)
    → IsReadable folder e
    → offers wanted e ≡ false
    → find_entry folder wanted (e ∷ es) ≡ find_entry folder wanted es
unfolding find_entry look_at compare_key get_md5
find_entry-miss folder wanted e es r o = ground (arith, r.0, r.1)

offers-size : (wanted : Bytes) (e : DirEntry) → offers wanted e ≡ true → (s : ℕ) × (e.size ≡ some s)
offers-size wanted e o = elim (Option-cases e.size) [
  | inl n ↦ absurd (ground (arith, get_md5))
  | inr s ↦ s
]

find_entry-hit :
    (folder wanted : Bytes) (e : DirEntry) (es : List DirEntry) (s : ℕ)
    → IsReadable folder e
    → offers wanted e ≡ true
    → e.size ≡ some s
    → find_entry folder wanted (e ∷ es) ≡ found s wanted
unfolding find_entry look_at compare_key get_md5
find_entry-hit folder wanted e es s r o z =
    ground (arith, r.0, r.1, eq_of_str_eq (hex e.digest) wanted)

find_entry_lem :
    (folder wanted : Bytes) (es : List DirEntry)
    → All (IsReadable folder) es
    → offered_by wanted es ≡ true
    → (s : ℕ) × HasSize wanted s es × (find_entry folder wanted es ≡ found s wanted)
find_entry_lem folder wanted [] r o = absurd (ground (arith, o))
find_entry_lem folder wanted (e ∷ es) r o = elim (Bool-cases (offers wanted e)) [
  | inl t ↦
      let (s, z) = offers-size wanted e t in
      (s, inl (t, z), find_entry-hit folder wanted e es s r.0 t z)
  | inr t ↦
      let (s, h, f) = find_entry_lem folder wanted es r.1 (ground (arith, t, o)) in
      (s, inr h, find_entry-miss folder wanted e es r.0 t ∙ f)
]

print_long-decimal : (n : ℕ) → n < 2 ^ 63 → print_long n ≡ decimal n
unfolding print_long
print_long-decimal n h = ground arith

-- The words that a client's request for a whole file has.
abbrev pub get_command : Bytes → ℕ → List Bytes
get_command key size = codes "get" ∷ key ∷ codes "0" ∷ decimal size ∷ []

get_command-parsed :
    (key : Bytes) (size : ℕ)
    → length key ≡ 32
    → All (λ c. is_hex c ≡ true) key
    → cmd_parse (join (get_command key size)) none
      ≡ parsed
          (record { nb_template_options = 0; options = []; argc = 4; argv = get_command key size })
unfolding any_option is_option is_a_delimiter
get_command-parsed key size n h =
    cmd_parse-join (codes "get") (key ∷ codes "0" ∷ decimal size ∷ [])
      (
        (refl, (refl, (refl, (refl, tt)))),
        (
          key-IsWord key n h,
          ((refl, (refl, tt)), (numeral-IsWord (decimal size) (decimal-IsNumeral size), tt)),
        ),
      )
      (rw (key-no_option key n h, numeral-no_option (decimal size) (decimal-IsNumeral size)) refl)

find_file_lem :
    (folder : Bytes) (calls : Calls) (wanted : Bytes) (es : List DirEntry) (s : ℕ)
    → calls.dir ≡ some es
    → calls.closedir_succeeds ≡ true
    → find_entry folder wanted es ≡ found s wanted
    → find_file folder calls wanted ≡ found s wanted
unfolding find_file
find_file_lem folder calls wanted es s d c f = ground (arith, d, f, c)

announce_lem :
    (my_ip : Bytes) (calls : Calls) (key begin end' : Bytes) (w : Bytes) (s port : ℕ)
    → calls.open_succeeds ≡ true
    → calls.listen_port ≡ some port
    → length (ready_line key my_ip port begin end') < 512
    → serve_found my_ip calls (w ∷ key ∷ begin ∷ end' ∷ []) (found s key)
      ≡ announced (ready_line key my_ip port begin end') s
unfolding serve_found announce
announce_lem my_ip calls key begin end' w s port o p l = rw (o, p) ground (arith, l)

-- The line by which `client_request_get` asks for a file of less than 2^63 bytes whose key has 32 digits
-- or letters from a to f, given to `daemon_request_get` of a daemon whose shared folder has a regular
-- file with that key: the folder, the file and a listening socket can be opened, the folder can be
-- closed, paths fit and there is memory for keys, and the answer has less than 512 bytes. Then the daemon
-- sends one line, with that key, its own address and port, and the beginning and end that it was
-- asked for; and the file that waits for a connection is one with the key, of which it keeps the size.
pub daemon_request_get-get_command :
    (folder my_ip : Bytes) (calls : Calls) (es : List DirEntry) (key : Bytes) (size port : ℕ)
    → length key ≡ 32
    → All (λ c. is_hex c ≡ true) key
    → calls.dir ≡ some es
    → calls.closedir_succeeds ≡ true
    → calls.open_succeeds ≡ true
    → calls.listen_port ≡ some port
    → All (IsReadable folder) es
    → offered_by key es ≡ true
    → length (ready_line key my_ip port (codes "0") (decimal size)) < 512
    → size < 2 ^ 63
    → (s : ℕ) × HasSize key s es
      × (codes "get " ++ key ++ codes " 0 " ++ print_long size ++ newline
          ≡ join (get_command key size) ++ newline)
      × (daemon_request_get folder my_ip calls (join (get_command key size))
          ≡ announced (ready_line key my_ip port (codes "0") (decimal size)) s)
unfolding daemon_request_get serve_parsed serve_words join
daemon_request_get-get_command folder my_ip calls es key size port n h d c o p r k l z =
    let (s, has, f) = find_entry_lem folder key es r k in
    (
      s,
      has,
      rw (print_long-decimal size z) simp append_assoc,
      rw (get_command-parsed key size n h, find_file_lem folder calls key es s d c f)
          (announce_lem my_ip calls key (codes "0") (decimal size) (codes "get") s port o p l),
    )
