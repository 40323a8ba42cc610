-- ===== src/Pooled/Conf/Usable.antt =====
-- The bounds that every configuration of branches/block_by_block/daemon/conf.c keeps.
use pire2pire.Base.{
  All, ◌≡◌, refl, Bool, true, false, if◌then◌else◌, str_eq, codes, ℕ, ◌^◌, ◌<◌, Option, none, some,
  List, [], ◌∷◌, Bytes, arith,
}
use pire2pire.Conf.{is_allowed_port}
use pire2pire.Pooled.Conf.{
  Scan, matched, key_only, Retrieved, retrieved, fits_buffer, Prefs, default_prefs, port_or,
  number_or, set_pref, set_prefs, conf_retrieve,
}

-- A port beyond the privileged ones.
abbrev IsPort : ℕ → Type 0
IsPort n = (1024 < n) × (n < 2 ^ 31)

-- Room for two of a kind at least.
abbrev IsCount : ℕ → Type 0
IsCount n = (1 < n) × (n < 2 ^ 31)

port_or-IsPort : (old : ℕ) (value : Bytes) → IsPort old → IsPort (port_or old value)
unfolding port_or is_allowed_port
port_or-IsPort old value h = (ground (arith, h.0), ground (arith, h.1))

number_or-IsCount : (old : ℕ) (value : Bytes) → IsCount old → IsCount (number_or old value)
unfolding number_or
number_or-IsCount old value h = (ground (arith, h.0), ground (arith, h.1))

pub record IsUsable (p : Prefs) : Type 0 where
  pub client_port : IsPort p.client_port
  pub daemon_port : IsPort p.daemon_port
  pub nb_proc : IsCount p.nb_proc
  pub max_clients : IsCount p.max_clients
  pub max_requests_per_client : IsCount p.max_requests_per_client
  pub max_daemons : IsCount p.max_daemons
  pub max_requests_per_daemon : IsCount p.max_requests_per_daemon

either : (c : Bool) (p q : Prefs) → IsUsable p → IsUsable q → IsUsable (if c then p else q)
either true p q h k = h
either false p q h k = k

-- The bounds say nothing of the preferences that are texts.
texts-IsUsable :
    (p : Prefs) (folder interface' log lock : Bytes)
    → IsUsable p
    → IsUsable (record p {
      shared_folder = folder;
      interface = interface';
      log_file = log;
      lock_file = lock;
    })
texts-IsUsable p folder interface' log lock h = record {
  client_port = h.client_port;
  daemon_port = h.daemon_port;
  nb_proc = h.nb_proc;
  max_clients = h.max_clients;
  max_requests_per_client = h.max_requests_per_client;
  max_daemons = h.max_daemons;
  max_requests_per_daemon = h.max_requests_per_daemon;
}

set_pref-IsUsable : (p : Prefs) (kv : Bytes × Bytes) → IsUsable p → IsUsable (set_pref p kv)
unfolding set_pref
set_pref-IsUsable p (key, value) h =
    (either (str_eq key (codes "client_port")) _ _ (h_client_port) (
      either (str_eq key (codes "daemon_port")) _ _ (h_daemon_port) (
        either (str_eq key (codes "shared_folder")) _ _
          (texts-IsUsable p value p.interface p.log_file p.lock_file h)
          (either (str_eq key (codes "interface")) _ _
            (texts-IsUsable p p.shared_folder value p.log_file p.lock_file h)
            (either (str_eq key (codes "nb_proc")) _ _ (h_nb_proc) (
              either (str_eq key (codes "max_clients")) _ _ (h_max_clients) (
                either (str_eq key (codes "max_daemons")) _ _ (h_max_daemons) (
                  either (str_eq key (codes "max_requests_per_client")) _ _
                    (h_max_requests_per_client)
                    (either (str_eq key (codes "max_requests_per_daemon")) _ _
                      (h_max_requests_per_daemon)
                      (either (str_eq key (codes "log_file")) _ _
                        (texts-IsUsable p p.shared_folder p.interface value p.lock_file h)
                        (either (str_eq key (codes "lock_file")) _ _
                          (texts-IsUsable p p.shared_folder p.interface p.log_file value h)
                          h)))))))))))
  where
    h_client_port : IsUsable (record p { client_port = port_or p.client_port value })
    h_client_port = record {
      client_port = port_or-IsPort p.client_port value h.client_port;
      daemon_port = h.daemon_port;
      nb_proc = h.nb_proc;
      max_clients = h.max_clients;
      max_requests_per_client = h.max_requests_per_client;
      max_daemons = h.max_daemons;
      max_requests_per_daemon = h.max_requests_per_daemon;
    }

    h_daemon_port : IsUsable (record p { daemon_port = port_or p.daemon_port value })
    h_daemon_port = record {
      client_port = h.client_port;
      daemon_port = port_or-IsPort p.daemon_port value h.daemon_port;
      nb_proc = h.nb_proc;
      max_clients = h.max_clients;
      max_requests_per_client = h.max_requests_per_client;
      max_daemons = h.max_daemons;
      max_requests_per_daemon = h.max_requests_per_daemon;
    }

    h_nb_proc : IsUsable (record p { nb_proc = number_or p.nb_proc value })
    h_nb_proc = record {
      client_port = h.client_port;
      daemon_port = h.daemon_port;
      nb_proc = number_or-IsCount p.nb_proc value h.nb_proc;
      max_clients = h.max_clients;
      max_requests_per_client = h.max_requests_per_client;
      max_daemons = h.max_daemons;
      max_requests_per_daemon = h.max_requests_per_daemon;
    }

    h_max_clients : IsUsable (record p { max_clients = number_or p.max_clients value })
    h_max_clients = record {
      client_port = h.client_port;
      daemon_port = h.daemon_port;
      nb_proc = h.nb_proc;
      max_clients = number_or-IsCount p.max_clients value h.max_clients;
      max_requests_per_client = h.max_requests_per_client;
      max_daemons = h.max_daemons;
      max_requests_per_daemon = h.max_requests_per_daemon;
    }

    h_max_requests_per_client :
        IsUsable (record p { max_requests_per_client = number_or p.max_requests_per_client value })
    h_max_requests_per_client = record {
      client_port = h.client_port;
      daemon_port = h.daemon_port;
      nb_proc = h.nb_proc;
      max_clients = h.max_clients;
      max_requests_per_client =
          number_or-IsCount p.max_requests_per_client value h.max_requests_per_client;
      max_daemons = h.max_daemons;
      max_requests_per_daemon = h.max_requests_per_daemon;
    }

    h_max_daemons : IsUsable (record p { max_daemons = number_or p.max_daemons value })
    h_max_daemons = record {
      client_port = h.client_port;
      daemon_port = h.daemon_port;
      nb_proc = h.nb_proc;
      max_clients = h.max_clients;
      max_requests_per_client = h.max_requests_per_client;
      max_daemons = number_or-IsCount p.max_daemons value h.max_daemons;
      max_requests_per_daemon = h.max_requests_per_daemon;
    }

    h_max_requests_per_daemon :
        IsUsable (record p { max_requests_per_daemon = number_or p.max_requests_per_daemon value })
    h_max_requests_per_daemon = record {
      client_port = h.client_port;
      daemon_port = h.daemon_port;
      nb_proc = h.nb_proc;
      max_clients = h.max_clients;
      max_requests_per_client = h.max_requests_per_client;
      max_daemons = h.max_daemons;
      max_requests_per_daemon =
          number_or-IsCount p.max_requests_per_daemon value h.max_requests_per_daemon;
    }

-- Both tokens fit their buffers.
abbrev Fits : Scan → Type 0
Fits (matched key value) = (fits_buffer key ≡ true) × (fits_buffer value ≡ true)
Fits (key_only key) = fits_buffer key ≡ true

Usable : Retrieved → Type 0
Usable o = (p : Prefs) × (o ≡ retrieved p) × IsUsable p

set_prefs-Usable :
    (p : Prefs) (value : Bytes) (ss : List Scan)
    → All Fits ss
    → IsUsable p
    → Usable (set_prefs p (some value) ss)
unfolding set_prefs Usable
set_prefs-Usable p value [] f h = (p, refl, h)
set_prefs-Usable p value (matched k v ∷ ss) f h =
    rw (f.0.0, f.0.1) (set_prefs-Usable (set_pref p (k, v)) v ss f.1 (set_pref-IsUsable p (k, v) h))
set_prefs-Usable p value (key_only k ∷ ss) f h =
    rw f.0
      (set_prefs-Usable (set_pref p (k, value)) value ss f.1 (set_pref-IsUsable p (k, value) h))

default_prefs-IsUsable : IsUsable default_prefs
unfolding default_prefs
default_prefs-IsUsable = record {
  client_port = (omega arith, omega arith);
  daemon_port = (omega arith, omega arith);
  nb_proc = (omega arith, omega arith);
  max_clients = (omega arith, omega arith);
  max_requests_per_client = (omega arith, omega arith);
  max_daemons = (omega arith, omega arith);
  max_requests_per_daemon = (omega arith, omega arith);
}

-- The file cannot be opened, or it is empty, or it starts with a key and its value, and all its tokens
-- have less than 256 bytes.
pub data IsReadable : Option (List Scan) → Type 0 where
  no_file : IsReadable none
  empty : IsReadable (some [])
  tokens :
      (key value : Bytes) (ss : List Scan)
      → All Fits (matched key value ∷ ss)
      → IsReadable (some (matched key value ∷ ss))

-- Where the configuration file cannot be opened, is empty, or starts with a key and its value and has
-- only tokens of less than 256 bytes: the preferences are retrieved, both ports are above 1024, the
-- number of threads and each limit are at least 2, and all of them are below 2^31, whatever else the
-- file holds.
pub conf_retrieve-IsUsable :
    (file : Option (List Scan))
    → IsReadable file
    → (p : Prefs) × (conf_retrieve file ≡ retrieved p) × IsUsable p
unfolding conf_retrieve set_prefs Usable
conf_retrieve-IsUsable file no_file = (default_prefs, refl, default_prefs-IsUsable)
conf_retrieve-IsUsable file empty = (default_prefs, refl, default_prefs-IsUsable)
conf_retrieve-IsUsable file (tokens k v ss f) =
    rw (f.0.0, f.0.1)
      (set_prefs-Usable (set_pref default_prefs (k, v)) v ss f.1
        (set_pref-IsUsable default_prefs (k, v) default_prefs-IsUsable))
