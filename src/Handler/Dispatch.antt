-- ===== src/Handler/Dispatch.antt =====
-- The choice of the request's function, from `strncmp` with each name in the order of the code, in
-- trunk/daemon/client_handler.c and daemon_handler.c.
use pire2pire.Base.{
  ℕ, ◌≡◌, ◌≢◌, refl, true, false, [], ◌∷◌, ◌++◌, Bytes, codes, if◌then◌else◌, starts_with, subst,
  arith, ◌↔◌,
}

pub data Callback : Type 0 where
  connect download get help info list raw set bar unknown : Callback

unfoldable pub client_callback : Bytes → Callback
client_callback m =
    if starts_with m (codes "connect")
    then connect
    else if starts_with m (codes "download")
    then download
    else if starts_with m (codes "get")
    then get
    else if starts_with m (codes "help")
    then help
    else if starts_with m (codes "info")
    then info
    else if starts_with m (codes "list")
    then list
    else if starts_with m (codes "raw")
    then raw
    else if starts_with m (codes "set")
    then set
    else if starts_with m (codes "bar")
    then bar
    else unknown

pub data DaemonCallback : Type 0 where
  list get file neighbourhood neighbour ready unknown : DaemonCallback

unfoldable pub daemon_callback : Bytes → DaemonCallback
daemon_callback m =
    if starts_with m (codes "list")
    then DaemonCallback.list
    else if starts_with m (codes "get")
    then DaemonCallback.get
    else if starts_with m (codes "file")
    then file
    else if starts_with m (codes "neighbourhood")
    then neighbourhood
    else if starts_with m (codes "neighbour")
    then neighbour
    else if starts_with m (codes "ready")
    then ready
    else DaemonCallback.unknown

-- The name of each request as the user types it; `unknown` has none.
unfoldable pub client_name : Callback → Bytes
client_name connect = codes "connect"
client_name download = codes "download"
client_name Callback.get = codes "get"
client_name help = codes "help"
client_name info = codes "info"
client_name Callback.list = codes "list"
client_name raw = codes "raw"
client_name set = codes "set"
client_name bar = codes "bar"
client_name Callback.unknown = []

pub daemon_name : DaemonCallback → Bytes
daemon_name DaemonCallback.list = codes "list"
daemon_name DaemonCallback.get = codes "get"
daemon_name file = codes "file"
daemon_name neighbourhood = codes "neighbourhood"
daemon_name neighbour = codes "neighbour"
daemon_name ready = codes "ready"
daemon_name DaemonCallback.unknown = []

starts_with-nil : (m : Bytes) → starts_with m [] ≡ true
unfolding starts_with
starts_with-nil [] = refl
starts_with-nil (x ∷ m) = refl

client_callback-starts : (m : Bytes) → starts_with m (client_name (client_callback m)) ≡ true
unfolding client_callback client_name
client_callback-starts m = ground (arith, starts_with-nil m)

first_of : (p : ℕ) (ps : Bytes) (y : ℕ) (w : Bytes) → starts_with (y ∷ w) (p ∷ ps) ≡ true → p ≡ y
unfolding starts_with
first_of p ps y w e = ground arith

not_empty : (p : ℕ) (ps : Bytes) → starts_with [] (p ∷ ps) ≢ true
unfolding starts_with
not_empty p ps e = ground arith

client_callback-starts_with :
    (m : Bytes) (c : Callback)
    → c ≢ Callback.unknown
    → starts_with m (client_name c) ≡ true
    → client_callback m ≡ c
unfolding client_callback client_name starts_with
client_callback-starts_with [] Callback.connect n h = absurd (not_empty b'c' (codes "onnect") h)
client_callback-starts_with (x ∷ m) Callback.connect n h =
    subst
      (λ y.
        starts_with (y ∷ m) (codes "connect") ≡ true → client_callback (y ∷ m) ≡ Callback.connect)
      (first_of b'c' (codes "onnect") x m h) (λ e. ground arith) h
client_callback-starts_with [] Callback.download n h = absurd (not_empty b'd' (codes "ownload") h)
client_callback-starts_with (x ∷ m) Callback.download n h =
    subst
      (λ y.
        starts_with (y ∷ m) (codes "download") ≡ true → client_callback (y ∷ m) ≡ Callback.download)
      (first_of b'd' (codes "ownload") x m h) (λ e. ground arith) h
client_callback-starts_with [] Callback.get n h = absurd (not_empty b'g' (codes "et") h)
client_callback-starts_with (x ∷ m) Callback.get n h =
    subst (λ y. starts_with (y ∷ m) (codes "get") ≡ true → client_callback (y ∷ m) ≡ Callback.get)
      (first_of b'g' (codes "et") x m h) (λ e. ground arith) h
client_callback-starts_with [] Callback.help n h = absurd (not_empty b'h' (codes "elp") h)
client_callback-starts_with (x ∷ m) Callback.help n h =
    subst (λ y. starts_with (y ∷ m) (codes "help") ≡ true → client_callback (y ∷ m) ≡ Callback.help)
      (first_of b'h' (codes "elp") x m h) (λ e. ground arith) h
client_callback-starts_with [] Callback.info n h = absurd (not_empty b'i' (codes "nfo") h)
client_callback-starts_with (x ∷ m) Callback.info n h =
    subst (λ y. starts_with (y ∷ m) (codes "info") ≡ true → client_callback (y ∷ m) ≡ Callback.info)
      (first_of b'i' (codes "nfo") x m h) (λ e. ground arith) h
client_callback-starts_with [] Callback.list n h = absurd (not_empty b'l' (codes "ist") h)
client_callback-starts_with (x ∷ m) Callback.list n h =
    subst (λ y. starts_with (y ∷ m) (codes "list") ≡ true → client_callback (y ∷ m) ≡ Callback.list)
      (first_of b'l' (codes "ist") x m h) (λ e. ground arith) h
client_callback-starts_with [] Callback.raw n h = absurd (not_empty b'r' (codes "aw") h)
client_callback-starts_with (x ∷ m) Callback.raw n h =
    subst (λ y. starts_with (y ∷ m) (codes "raw") ≡ true → client_callback (y ∷ m) ≡ Callback.raw)
      (first_of b'r' (codes "aw") x m h) (λ e. ground arith) h
client_callback-starts_with [] Callback.set n h = absurd (not_empty b's' (codes "et") h)
client_callback-starts_with (x ∷ m) Callback.set n h =
    subst (λ y. starts_with (y ∷ m) (codes "set") ≡ true → client_callback (y ∷ m) ≡ Callback.set)
      (first_of b's' (codes "et") x m h) (λ e. ground arith) h
client_callback-starts_with [] Callback.bar n h = absurd (not_empty b'b' (codes "ar") h)
client_callback-starts_with (x ∷ m) Callback.bar n h =
    subst (λ y. starts_with (y ∷ m) (codes "bar") ≡ true → client_callback (y ∷ m) ≡ Callback.bar)
      (first_of b'b' (codes "ar") x m h) (λ e. ground arith) h
client_callback-starts_with m Callback.unknown n h = absurd (n refl)

-- A line goes to a client's request, other than the unknown one, exactly when it starts with the name
-- of that request: no request shadows another one.
pub client_callback-names :
    (m : Bytes) (c : Callback)
    → c ≢ Callback.unknown
    → (client_callback m ≡ c) ↔ (starts_with m (client_name c) ≡ true)
client_callback-names m c n = (
  λ e. subst (λ d. starts_with m (client_name d) ≡ true) e (client_callback-starts m),
  λ h. client_callback-starts_with m c n h,
)

starts_with-own : (p : Bytes) (rest : Bytes) → starts_with (p ++ rest) p ≡ true
unfolding starts_with
starts_with-own [] rest = starts_with-nil rest
starts_with-own (x ∷ p) rest = ground (arith, starts_with-own p rest)

-- Between daemons a line that starts with "neighbourhood" starts that request, and a line that starts
-- with "neighbour", and does not go on with "hood", starts the other: the longer name is tried first.
pub daemon_callback-neighbours :
    (rest : Bytes)
    → (daemon_callback (codes "neighbourhood" ++ rest) ≡ neighbourhood)
      × (starts_with rest (codes "hood") ≡ false
          → daemon_callback (codes "neighbour" ++ rest) ≡ neighbour)
unfolding daemon_callback starts_with
daemon_callback-neighbours rest = (refl, λ h. ground arith)
