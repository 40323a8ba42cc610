-- ===== src/Handler/Identify/Accepts.antt =====
-- When a daemon that connects is accepted.
use pire2pire.Base.{
  ℕ, ◌^◌, ◌<◌, ◌≤◌, ◌≢◌, ◌+◌, ◌==◌, ◌≡◌, refl, sym, ap, ◌∙◌, Bool, true, false, Option, none, some,
  List, [], ◌∷◌, ◌++◌, Bytes, codes, str_eq, eq_of_str_eq, Option-cases, inl, inr, str_eq_refl,
  strchr, atoi, decimal, atoi-decimal, length, arith,
}
use pire2pire.CmdParser.{is_a_delimiter, ParsedCmd, parsed, cmd_parse}
use pire2pire.CmdParser.Plain.{
  cmd_parse-join, IsWord, join, any_option, is_option, cmd_parse-plain, plain_outcome,
}
use pire2pire.CmdParser.Words.{words}
use pire2pire.Handler.Identify.{
  Peer, Identified, accepted, refused, overflow, without_memory, identify, check_command,
  check_words, check_address, joined, handle_daemon, admit, daemon_numbers, max_daemons,
}
use pire2pire.Handler.Identify.Address.{
  IsAddress, endpoint, endpoint-IsWord, endpoint-no_option, strchr-endpoint,
}

check_address-own :
    (addr : Bytes) (port : ℕ)
    → IsAddress addr
    → port < 2 ^ 31
    → check_address addr (strchr b':' (endpoint addr port)) ≡ accepted port
unfolding check_address IsAddress
check_address-own [] port a h = absurd (ground arith)
check_address-own (c ∷ cs) port a h =
    ap (check_address (c ∷ cs)) (strchr-endpoint (c ∷ cs) (decimal port) a)
    ∙ rw (str_eq_refl (c ∷ cs)) (ap accepted (atoi-decimal port h))

unfoldable pub couple_command : Bytes → ParsedCmd
couple_command couple = record {
  nb_template_options = 0;
  options = [];
  argc = length (codes "neighbour" ∷ couple ∷ []);
  argv = codes "neighbour" ∷ couple ∷ [];
}

check-couple :
    (addr couple : Bytes)
    → check_command addr (parsed (couple_command couple)) ≡ check_address addr (strchr b':' couple)
unfolding check_command check_words couple_command str_eq
check-couple addr couple = refl

neighbour-IsWord : IsWord (codes "neighbour")
unfolding is_a_delimiter
neighbour-IsWord =
    (refl, (refl, (refl, (refl, (refl, (refl, (refl, (refl, (refl, (refl, tt))))))))))

pub neighbour-parse :
    (couple : Bytes)
    → IsWord couple
    → is_option couple ≡ false
    → cmd_parse (codes "neighbour " ++ couple) none ≡ parsed (couple_command couple)
unfolding join couple_command any_option is_option
neighbour-parse couple w o =
    cmd_parse-join (codes "neighbour") (couple ∷ []) (neighbour-IsWord, (w, tt)) (rw o refl)

-- A line "neighbour ADDR:PORT" is accepted, with that port, when ADDR is the dotted address that the
-- daemon connects from.
pub identify-endpoint :
    (addr : Bytes) (port : ℕ)
    → IsAddress addr
    → port < 2 ^ 31
    → identify addr (some (codes "neighbour " ++ endpoint addr port)) ≡ accepted port
unfolding identify
identify-endpoint addr port a h =
    ap (check_command addr) (
      neighbour-parse (endpoint addr port) (endpoint-IsWord addr port a)
        (endpoint-no_option addr port a))
    ∙ check-couple addr (endpoint addr port)
    ∙ check_address-own addr port a h

strchr-split :
    (c : ℕ) (s front back : Bytes) → strchr c s ≡ some (front, back) → s ≡ front ++ c ∷ back
unfolding strchr
strchr-split c [] front back h = absurd (ground arith)
strchr-split c (x ∷ xs) front back h = elim (Option-cases (strchr c xs)) [
  | inl e ↦ ground arith
  | inr ((f, b), e) ↦ let ih = strchr-split c xs f b e in ground arith
]

check_address_sound :
    (addr word : Bytes) (port : ℕ)
    → check_address addr (strchr b':' word) ≡ accepted port
    → (digits : Bytes) × (word ≡ addr ++ b':' ∷ digits) × (port ≡ atoi digits)
unfolding check_address
check_address_sound addr word port h = elim (Option-cases (strchr b':' word)) [
  | inl e ↦ absurd (ground arith)
  | inr ((ip, digits), e) ↦
      let s = strchr-split b':' word ip digits e in
      (digits, ground (arith, eq_of_str_eq ip addr), ground arith)
]

plain_outcome-accepted :
    (addr : Bytes) (ws : List Bytes) (port : ℕ)
    → check_command addr (plain_outcome ws) ≡ accepted port
    → (couple : Bytes) × (r : List Bytes) × (ws ≡ codes "neighbour" ∷ couple ∷ r)
      × (check_address addr (strchr b':' couple) ≡ accepted port)
unfolding check_command check_words plain_outcome
plain_outcome-accepted addr [] port h = absurd (ground arith)
plain_outcome-accepted addr (w ∷ []) port h = absurd (ground arith)
plain_outcome-accepted addr (w ∷ c ∷ r) port h =
    (c, r, ground (arith, eq_of_str_eq w (codes "neighbour")), ground arith)

-- A daemon that is accepted has sent the word "neighbour" and then a word of its own address, a colon
-- and a text that `atoi` reads as the port: none is accepted under an address that it does not connect
-- from.
pub identify_sound :
    (addr m : Bytes) (port : ℕ)
    → identify addr (some m) ≡ accepted port
    → (digits : Bytes) × (ws : List Bytes) × (words m
        ≡ codes "neighbour" ∷ (addr ++ b':' ∷ digits) ∷ ws)
      × (port ≡ atoi digits)
unfolding identify
identify_sound addr m port h =
    let (couple, r, e, c) =
      plain_outcome-accepted addr (words m) port
        (sym (ap (check_command addr) (cmd_parse-plain m)) ∙ h) in
    let (digits, s, p) = check_address_sound addr couple port c in
    (digits, r, e ∙ ap (λ w. codes "neighbour" ∷ w ∷ r) s, p)

numbers-cons : (d : Peer) (ds : List Peer) → daemon_numbers (d ∷ ds) ≡ daemon_numbers ds + 1
unfolding daemon_numbers
numbers-cons d ds = refl

without_memory-stays : (ds ds' : List Peer) → without_memory ds ≢ joined ds'
unfolding without_memory
without_memory-stays [] ds' h = ground arith
without_memory-stays (d ∷ ds) ds' h = ground arith

admit-joined :
    (ds ds' : List Peer) (allocated : Bool) (addr : Bytes) (i : Identified)
    → admit ds allocated addr i ≡ joined ds'
    → (port : ℕ) × (i ≡ accepted port) × (ds' ≡ record { addr = addr; port = port } ∷ ds)
unfolding admit
admit-joined ds ds' true addr (accepted port) h = (port, refl, ground arith)
admit-joined ds ds' false addr (accepted port) h = absurd (without_memory-stays ds ds' h)
admit-joined ds ds' allocated addr (refused answer) h = absurd (ground arith)
admit-joined ds ds' allocated addr overflow h = absurd (ground arith)

-- The daemons in the list are never more than ten: a daemon joins only when there is room, only when
-- its line identifies it, and then at the head of the list with its own address.
pub handle_daemon-joins :
    (ds ds' : List Peer) (allocated : Bool) (addr : Bytes) (ident_msg : Option Bytes)
    → daemon_numbers ds ≤ max_daemons
    → handle_daemon ds allocated addr ident_msg ≡ joined ds'
    → (daemon_numbers ds' ≤ max_daemons)
      × (port : ℕ) × (identify addr ident_msg ≡ accepted port)
      × (ds' ≡ record { addr = addr; port = port } ∷ ds)
unfolding handle_daemon
handle_daemon-joins ds ds' allocated addr ident_msg n h =
    let room : (daemon_numbers ds == max_daemons) ≡ false = ground arith in
    let (port, e, d) =
      admit-joined ds ds' allocated addr (identify addr ident_msg) (ground arith) in
    (
      ground (arith, ap daemon_numbers d, numbers-cons (record { addr = addr; port = port }) ds),
      port,
      e,
      d,
    )
