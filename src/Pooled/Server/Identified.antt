-- ===== src/Pooled/Server/Identified.antt =====
-- A daemon that connects by the line of `client_request_connect`.
use pire2pire.Base.{
  ℕ, ◌+◌, ◌^◌, ◌<◌, ◌≡◌, refl, ap, ◌∙◌, true, false, some, [], ◌∷◌, ◌++◌, Bytes, codes, str_eq,
  strchr, atoi, decimal, atoi-decimal, print_int-decimal, ltb, arith,
}
use pire2pire.CmdParser.{parsed}
use pire2pire.Handler.Identify.Address.{
  IsAddress, endpoint, endpoint-IsWord, endpoint-no_option, strchr-endpoint,
}
use pire2pire.Handler.Identify.Accepts.{neighbour-parse, couple_command}
use pire2pire.Pooled.Server.{
  Limits, Server, port_is, identity, ident_parsed, ident_words, queue_daemon, handle_new_daemon,
  accept_daemon,
}
use pire2pire.Requests.Connect.{Self, identification}

ident_words-couple :
    (couple ip port : Bytes)
    → strchr b':' couple ≡ some (ip, port)
    → ident_words (some (codes "neighbour")) (some couple) ≡ port_is (atoi port)
unfolding ident_words str_eq
ident_words-couple couple ip port e = rw e refl

ident_parsed-couple :
    (couple ip port : Bytes)
    → strchr b':' couple ≡ some (ip, port)
    → ident_parsed (parsed (couple_command couple)) ≡ port_is (atoi port)
unfolding ident_parsed couple_command
ident_parsed-couple couple ip port e = ident_words-couple couple ip port e

strchr-address :
    (ip : Bytes) (port : ℕ)
    → IsAddress ip
    → strchr b':' (endpoint ip port) ≡ some (ip, decimal port)
unfolding IsAddress
strchr-address [] port a = absurd (ground (arith, a))
strchr-address (c ∷ cs) port a = strchr-endpoint (c ∷ cs) (decimal port) a

identity-endpoint :
    (ip : Bytes) (port : ℕ)
    → IsAddress ip
    → port < 2 ^ 31
    → identity (some (codes "neighbour " ++ endpoint ip port)) ≡ port_is port
unfolding identity
identity-endpoint ip port a h =
    ap ident_parsed (
      neighbour-parse (endpoint ip port) (endpoint-IsWord ip port a) (endpoint-no_option ip port a))
    ∙ ident_parsed-couple (endpoint ip port) ip (decimal port) (strchr-address ip port a)
    ∙ ap port_is (atoi-decimal port h)

-- The line by which a daemon with a dotted address and a port below 2^31 identifies itself is taken from
-- any address: when there is room and memory, the daemon is queued with the address that it connects
-- from and with its own port, and takes a slot; nothing is sent to it.
pub accept_daemon-identification :
    (l : Limits) (s : Server) (me : Self) (addr : Bytes)
    → IsAddress me.my_ip
    → me.daemon_port < 2 ^ 31
    → s.nb_daemons < l.max_daemons
    → accept_daemon l s (some (identification me)) (some addr) true true ≡ record {
      server = record s {
        nb_daemons = s.nb_daemons + 1;
        daemons = record { addr = addr; port = me.daemon_port } ∷ s.daemons;
      };
      sent = [];
      closed = false;
    }
unfolding accept_daemon identification
accept_daemon-identification l s me addr a h room =
    rw (print_int-decimal me.daemon_port h, identity-endpoint me.my_ip me.daemon_port a h)
      (let e : ltb s.nb_daemons l.max_daemons ≡ true = ground arith in
        rw (e, handle_new_daemon, queue_daemon) refl)
