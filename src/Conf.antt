-- ===== src/Conf.antt =====
-- trunk/daemon/conf.c: the preferences of a daemon, from the `key = value` pairs that `fscanf` reads.
use pire2pire.Base.{
  ℕ, ◌^◌, ◌<◌, ◌≡◌, refl, sym, ap, ◌∙◌, Bool, ◌&&◌, Option, none, some, List, [], ◌∷◌, Bytes, codes,
  if◌then◌else◌, ltb, str_eq, eq_of_str_eq, Bool-cases, inl, inr, subst, atoi, arith,
}

abbrev pub default_client_port : ℕ
default_client_port = 1337

abbrev pub default_daemon_port : ℕ
default_daemon_port = 7331

abbrev pub min_port : ℕ
min_port = 1024

-- struct prefs; a port is the bit pattern of the int.
pub record Prefs : Type 0 where
  pub client_port : ℕ
  pub daemon_port : ℕ
  pub shared_folder : Bytes
  pub interface : Bytes

pub default_prefs : Prefs
default_prefs = record {
  client_port = default_client_port;
  daemon_port = default_daemon_port;
  shared_folder = codes "/tmp";
  interface = codes "eth0";
}

-- `port > min_port`, between ints.
unfoldable pub is_allowed_port : ℕ → Bool
is_allowed_port port = ltb min_port port && ltb port (2 ^ 31)

-- The body of the `while` loop.
pub set_pref : Prefs → Bytes × Bytes → Prefs
unfolding is_allowed_port
set_pref p (key, value) =
    if str_eq key (codes "client_port")
    then (if is_allowed_port (atoi value) then record p { client_port = atoi value } else p)
    else if str_eq key (codes "daemon_port")
    then (if is_allowed_port (atoi value) then record p { daemon_port = atoi value } else p)
    else if str_eq key (codes "shared_folder")
    then record p { shared_folder = value }
    else if str_eq key (codes "interface")
    then record p { interface = value }
    else p

pub set_prefs : Prefs → List (Bytes × Bytes) → Prefs
set_prefs p [] = p
set_prefs p (kv ∷ kvs) = set_prefs (set_pref p kv) kvs

-- `none`: the file cannot be opened; otherwise the pairs up to the end of the file.
pub conf_retrieve : Option (List (Bytes × Bytes)) → Prefs
unfolding default_prefs set_prefs
conf_retrieve none = default_prefs
conf_retrieve (some kvs) = set_prefs default_prefs kvs

pub read_port : Bytes → Option ℕ
unfolding is_allowed_port
read_port value = if is_allowed_port (atoi value) then some (atoi value) else none

pub or_else {ℓ} : {A : Type ℓ} → A → Option A → A
or_else d none = d
or_else d (some a) = a

-- The value of the last pair with `key` whose value is acceptable, or `d` when there is none.
pub last_value {ℓ} : {A : Type ℓ} → (Bytes → Option A) → Bytes → A → List (Bytes × Bytes) → A
unfolding or_else
last_value read key d [] = d
last_value read key d ((k, v) ∷ kvs) =
    last_value read key (if str_eq k key then or_else d (read v) else d) kvs

pub last_prefs : Prefs → List (Bytes × Bytes) → Prefs
last_prefs p kvs = record {
  client_port = last_value read_port (codes "client_port") p.client_port kvs;
  daemon_port = last_value read_port (codes "daemon_port") p.daemon_port kvs;
  shared_folder = last_value some (codes "shared_folder") p.shared_folder kvs;
  interface = last_value some (codes "interface") p.interface kvs;
}

abbrev SetsOwn : Prefs → Bytes → Bytes → Type 0
SetsOwn p value key = last_prefs p ((key, value) ∷ []) ≡ set_pref p (key, value)

client_port-own : (p : Prefs) (value : Bytes) → SetsOwn p value (codes "client_port")
unfolding set_pref last_prefs last_value read_port or_else str_eq
client_port-own p value = ground arith

daemon_port-own : (p : Prefs) (value : Bytes) → SetsOwn p value (codes "daemon_port")
unfolding set_pref last_prefs last_value read_port or_else str_eq
daemon_port-own p value = ground arith

shared_folder-own : (p : Prefs) (value : Bytes) → SetsOwn p value (codes "shared_folder")
unfolding set_pref last_prefs last_value read_port or_else str_eq
shared_folder-own p value = refl

set_pref-key : (p : Prefs) (key value : Bytes) → SetsOwn p value key
unfolding set_pref last_prefs last_value read_port or_else
set_pref-key p key value = elim (Bool-cases (str_eq key (codes "client_port"))) [
  | inl e ↦
      subst (SetsOwn p value) (sym (eq_of_str_eq key (codes "client_port") e))
        (client_port-own p value)
  | inr n1 ↦ elim (Bool-cases (str_eq key (codes "daemon_port"))) [
    | inl e ↦
        subst (SetsOwn p value) (sym (eq_of_str_eq key (codes "daemon_port") e))
          (daemon_port-own p value)
    | inr n2 ↦ elim (Bool-cases (str_eq key (codes "shared_folder"))) [
      | inl e ↦
          subst (SetsOwn p value) (sym (eq_of_str_eq key (codes "shared_folder") e))
            (shared_folder-own p value)
      | inr n3 ↦ ground arith
    ]
  ]
]

set_prefs-last : (p : Prefs) (kvs : List (Bytes × Bytes)) → set_prefs p kvs ≡ last_prefs p kvs
unfolding set_prefs last_prefs last_value
set_prefs-last p [] = refl
set_prefs-last p ((k, v) ∷ kvs) =
    set_prefs-last (set_pref p (k, v)) kvs ∙ ap (λ q. last_prefs q kvs) (sym (set_pref-key p k v))

-- A configuration file sets each preference to the last value that the file gives under its own key,
-- where a port of 1024 or less is passed over, and leaves a preference at its default otherwise; no
-- key touches another preference.
pub conf_retrieve-last :
    (kvs : List (Bytes × Bytes)) → conf_retrieve (some kvs) ≡ last_prefs default_prefs kvs
unfolding conf_retrieve
conf_retrieve-last kvs = set_prefs-last default_prefs kvs

set_prefs-ports :
    (p : Prefs) (kvs : List (Bytes × Bytes))
    → (min_port < p.client_port) × (min_port < p.daemon_port)
    → (min_port < (set_prefs p kvs).client_port) × (min_port < (set_prefs p kvs).daemon_port)
unfolding set_prefs set_pref
set_prefs-ports p [] h = h
set_prefs-ports p ((k, v) ∷ kvs) h =
    set_prefs-ports (set_pref p (k, v)) kvs (ground (arith, h.0, h.1))

-- Whatever the configuration file holds, and when there is none, both ports are above 1024.
pub conf_retrieve-ports :
    (file : Option (List (Bytes × Bytes)))
    → (min_port < (conf_retrieve file).client_port) × (min_port < (conf_retrieve file).daemon_port)
unfolding conf_retrieve default_prefs
conf_retrieve-ports none = (omega arith, omega arith)
conf_retrieve-ports (some kvs) = set_prefs-ports default_prefs kvs (omega arith, omega arith)
