-- ===== src/Pooled/Conf.antt =====
-- branches/block_by_block/daemon/conf.c: the preferences of a daemon with a pool, from what each call of
-- `fscanf` reads.
mod Usable
mod Examples
use pire2pire.Base.{
  ℕ, ◌^◌, Bool, ◌&&◌, ◌||◌, length, Option, none, some, List, [], ◌∷◌, Bytes, codes, if◌then◌else◌,
  ltb, str_eq, atoi,
}
use pire2pire.Conf.{is_allowed_port}

-- struct prefs; a number is the bit pattern of the int.
pub record Prefs : Type 0 where
  pub client_port : ℕ
  pub daemon_port : ℕ
  pub shared_folder : Bytes
  pub interface : Bytes
  pub nb_proc : ℕ
  pub max_clients : ℕ
  pub max_requests_per_client : ℕ
  pub max_daemons : ℕ
  pub max_requests_per_daemon : ℕ
  pub log_file : Bytes
  pub lock_file : Bytes

pub default_prefs : Prefs
default_prefs = record {
  client_port = 1337;
  daemon_port = 7331;
  shared_folder = codes "/tmp";
  interface = codes "eth0";
  nb_proc = 2;
  max_clients = 3;
  max_requests_per_client = 10;
  max_daemons = 10;
  max_requests_per_daemon = 10;
  log_file = codes "/tmp/default_log_file";
  lock_file = codes "/tmp/default_lock_file";
}

-- `if (num_val > MIN_PORT)`, and what the port is otherwise.
unfoldable pub port_or : ℕ → Bytes → ℕ
unfolding is_allowed_port
port_or old value = if is_allowed_port (atoi value) then atoi value else old

-- `if (num_val > 1)`, between ints, and what the preference is otherwise.
unfoldable pub number_or : ℕ → Bytes → ℕ
number_or old value = if ltb 1 (atoi value) && ltb (atoi value) (2 ^ 31) then atoi value else old

-- The body of the `while` loop.
pub set_pref : Prefs → Bytes × Bytes → Prefs
unfolding port_or number_or
set_pref p (key, value) =
    if str_eq key (codes "client_port")
    then record p { client_port = port_or p.client_port value }
    else if str_eq key (codes "daemon_port")
    then record p { daemon_port = port_or p.daemon_port value }
    else if str_eq key (codes "shared_folder")
    then record p { shared_folder = value }
    else if str_eq key (codes "interface")
    then record p { interface = value }
    else if str_eq key (codes "nb_proc")
    then record p { nb_proc = number_or p.nb_proc value }
    else if str_eq key (codes "max_clients")
    then record p { max_clients = number_or p.max_clients value }
    else if str_eq key (codes "max_daemons")
    then record p { max_daemons = number_or p.max_daemons value }
    else if str_eq key (codes "max_requests_per_client")
    then record p { max_requests_per_client = number_or p.max_requests_per_client value }
    else if str_eq key (codes "max_requests_per_daemon")
    then record p { max_requests_per_daemon = number_or p.max_requests_per_daemon value }
    else if str_eq key (codes "log_file")
    then record p { log_file = value }
    else if str_eq key (codes "lock_file")
    then record p { lock_file = value }
    else p

-- What a call of `fscanf` reads: a key and a value, or a key behind which no `=` and no value is. The
-- value is then what the last call left.
pub data Scan : Type 0 where
  matched : (key value : Bytes) → Scan
  key_only : (key : Bytes) → Scan

-- `overrun`: a write past the end of `key[256]` or `value[256]`. `uninitialised`: a read of `value` to
-- which nothing was written.
pub data Retrieved : Type 0 where
  retrieved : Prefs → Retrieved
  overrun uninitialised : Retrieved

-- With the byte that ends it.
unfoldable pub fits_buffer : Bytes → Bool
fits_buffer token = ltb (length token) 256

pub is_key : Bytes → Bool
is_key key =
    str_eq key (codes "client_port")
    || str_eq key (codes "daemon_port")
    || str_eq key (codes "shared_folder")
    || str_eq key (codes "interface")
    || str_eq key (codes "nb_proc")
    || str_eq key (codes "max_clients")
    || str_eq key (codes "max_daemons")
    || str_eq key (codes "max_requests_per_client")
    || str_eq key (codes "max_requests_per_daemon")
    || str_eq key (codes "log_file")
    || str_eq key (codes "lock_file")

-- The `while` loop, with what `value` holds.
pub set_prefs : Prefs → Option Bytes → List Scan → Retrieved
unfolding fits_buffer is_key
set_prefs p old [] = retrieved p
set_prefs p old (matched key value ∷ ss) =
    let rest = set_prefs (set_pref p (key, value)) (some value) ss in
    if fits_buffer key && fits_buffer value then rest else overrun
set_prefs p none (key_only key ∷ ss) =
    let rest = set_prefs p none ss in
    if fits_buffer key then (if is_key key then uninitialised else rest) else overrun
set_prefs p (some value) (key_only key ∷ ss) =
    let rest = set_prefs (set_pref p (key, value)) (some value) ss in
    if fits_buffer key then rest else overrun

-- `none`: the file cannot be opened; otherwise the calls up to the end of the file.
pub conf_retrieve : Option (List Scan) → Retrieved
unfolding default_prefs set_prefs
conf_retrieve none = retrieved default_prefs
conf_retrieve (some ss) = set_prefs default_prefs none ss
