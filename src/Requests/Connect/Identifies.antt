-- ===== src/Requests/Connect/Identifies.antt =====
-- The request to connect, up to the line by which the other daemon knows this one.
use pire2pire.Base.{
  ℕ, ◌^◌, ◌<◌, ◌≡◌, refl, ap, ◌∙◌, true, false, ◌||◌, none, some, List, [], ◌∷◌, ◌++◌, Bytes, codes,
  str_eq, strchr, is_digit, atoi, decimal, decimal-IsNumeral, atoi-decimal, IsNumeral,
  print_int-decimal, length, All, arith,
}
use pire2pire.CmdParser.{is_a_delimiter, ParsedCmd, parsed, cmd_parse}
use pire2pire.CmdParser.Plain.{cmd_parse-join, IsWord, join, any_option, is_option}
use pire2pire.Handler.Identify.{Peer, newline, accepted, identify}
use pire2pire.Handler.Identify.Address.{
  IsAddress, endpoint, endpoint-IsWord, endpoint-no_option, strchr-endpoint,
}
use pire2pire.Handler.Identify.Accepts.{identify-endpoint}
use pire2pire.Requests.Connect.{
  Self, Network, connected, identification, success, client_request_connect, all_digits,
  ip_and_port, is_valid_ip_port, couple, connect_parsed, connect_argument, connect_couple,
  open_connection, succeed,
}

-- The socket opens, the other daemon takes the connection, and there is memory.
abbrev pub reachable : Network
reachable = record { socket_error = none; connect_error = none; daemon_allocated = true }

all_digits-lem : (w : Bytes) → All (λ d. is_digit d ≡ true) w → all_digits w ≡ true
unfolding all_digits
all_digits-lem [] h = refl
all_digits-lem (c ∷ cs) h = ground (arith, h.0, all_digits-lem cs h.1)

ip_and_port-numeral :
    (c : ℕ) (ip w : Bytes) → IsNumeral w → ip_and_port (c ∷ ip) w ≡ couple (c ∷ ip) (atoi w)
unfolding ip_and_port IsNumeral all_digits
ip_and_port-numeral c ip [] h = absurd (ground arith)
ip_and_port-numeral c ip (d ∷ ds) h = ground (arith, h.0, all_digits-lem ds h.1)

is_valid_ip_port-split :
    (foo ip port : Bytes)
    → strchr b':' foo ≡ some (ip, port)
    → is_valid_ip_port foo ≡ ip_and_port ip port
unfolding is_valid_ip_port
is_valid_ip_port-split foo ip port h = ground arith

-- `is_valid_ip_port` reads back a dotted address and a port that are written with a colon between.
pub is_valid_ip_port-endpoint :
    (ip : Bytes) (port : ℕ)
    → IsAddress ip
    → port < 2 ^ 31
    → is_valid_ip_port (endpoint ip port) ≡ couple ip port
unfolding is_valid_ip_port IsAddress
is_valid_ip_port-endpoint [] port a h = absurd (ground arith)
is_valid_ip_port-endpoint (c ∷ cs) port a h =
    is_valid_ip_port-split (endpoint (c ∷ cs) port) (c ∷ cs) (decimal port)
      (strchr-endpoint (c ∷ cs) (decimal port) a)
    ∙ ip_and_port-numeral c cs (decimal port) (decimal-IsNumeral port)
    ∙ ap (couple (c ∷ cs)) (atoi-decimal port h)

couple_command : Bytes → ParsedCmd
couple_command word = record {
  nb_template_options = 0;
  options = [];
  argc = length (codes "connect" ∷ word ∷ []);
  argv = codes "connect" ∷ word ∷ [];
}

connect-IsWord : IsWord (codes "connect")
unfolding is_a_delimiter
connect-IsWord = (refl, (refl, (refl, (refl, (refl, (refl, (refl, (refl, tt))))))))

connect-parse :
    (word : Bytes)
    → IsWord word
    → is_option word ≡ false
    → cmd_parse (codes "connect " ++ word) none ≡ parsed (couple_command word)
unfolding join couple_command any_option is_option
connect-parse word w o =
    cmd_parse-join (codes "connect") (word ∷ []) (connect-IsWord, (w, tt)) (rw o refl)

connect_parsed-couple :
    (me : Self) (net : Network) (ds : List Peer) (word : Bytes)
    → connect_parsed me net ds (parsed (couple_command word))
      ≡ connect_couple me net ds (is_valid_ip_port word)
unfolding connect_parsed connect_argument couple_command
connect_parsed-couple me net ds word = refl

connect_couple-other :
    (me : Self) (ds : List Peer) (ip : Bytes) (port : ℕ)
    → (str_eq ip me.my_ip || str_eq ip (codes "127.0.0.1")) ≡ false
    → length (success ip) < 256
    → connect_couple me reachable ds (couple ip port)
      ≡ connected
          (identification me ++ newline)
          (record { addr = ip; port = port } ∷ ds)
          (success ip)
unfolding connect_couple open_connection succeed
connect_couple-other me ds ip port h l = ground arith

-- A client's "connect IP:PORT", with a dotted address that is neither this daemon's own nor
-- 127.0.0.1 and ports below 2^31, connects when the system allows it and the answer fits its
-- buffer: the daemon joins the list with that address and port. The line that is sent is the
-- identification that the other daemon accepts from this daemon's dotted address, with this
-- daemon's port.
pub client_request_connect-identified :
    (me : Self) (ds : List Peer) (ip : Bytes) (port : ℕ)
    → IsAddress ip
    → IsAddress me.my_ip
    → port < 2 ^ 31
    → me.daemon_port < 2 ^ 31
    → (str_eq ip me.my_ip || str_eq ip (codes "127.0.0.1")) ≡ false
    → length (success ip) < 256
    → (client_request_connect me reachable ds (codes "connect " ++ endpoint ip port)
        ≡ connected
            (identification me ++ newline)
            (record { addr = ip; port = port } ∷ ds)
            (success ip))
      × (identify me.my_ip (some (identification me)) ≡ accepted me.daemon_port)
unfolding client_request_connect identification
client_request_connect-identified me ds ip port a b p q n l = (
  ap (connect_parsed me reachable ds) (
        connect-parse (endpoint ip port) (endpoint-IsWord ip port a) (endpoint-no_option ip port a))
      ∙ connect_parsed-couple me reachable ds (endpoint ip port)
      ∙ ap (connect_couple me reachable ds) (is_valid_ip_port-endpoint ip port a p)
      ∙ connect_couple-other me ds ip port n l,
  ap (λ w. identify me.my_ip (some (codes "neighbour " ++ me.my_ip ++ b':' ∷ w)))
        (print_int-decimal me.daemon_port q)
      ∙ identify-endpoint me.my_ip me.daemon_port b q,
)
