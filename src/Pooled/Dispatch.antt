-- ===== src/Pooled/Dispatch.antt =====
-- branches/block_by_block/daemon: the macro IS_CMD of is_cmd.h, and the choice of a request's function
-- and of its pool in client_handler.c and daemon_handler.c.
mod Examples
use pire2pire.Base.{
  ℕ, ◌≡◌, ◌≢◌, refl, sym, ap, ◌∙◌, Bool, true, false, ◌&&◌, ◌⊎◌, inl, inr, [], ◌∷◌, Bytes, codes,
  ◌==◌, if◌then◌else◌, starts_with, str_eq, eq_of_str_eq, Bool-cases, arith, ◌↔◌, All, drop, length,
}
use pire2pire.Handler.Dispatch.{
  Callback, connect, download, help, info, raw, set, DaemonCallback, daemon_callback, client_name,
}

pub data PoolName : Type 0 where
  fast slow : PoolName

-- What stands behind the name in the message: nothing, or a space.
ends_word : Bytes → Bool
ends_word [] = true
ends_word (c ∷ cs) = c == b' '

pub is_cmd : Bytes → Bytes → Bool
unfolding ends_word
is_cmd msg cmd = starts_with msg cmd && ends_word (drop (length cmd) msg)

unfoldable pub client_handler : Bytes → Callback
unfolding is_cmd
client_handler m =
    if is_cmd m (codes "connect")
    then connect
    else if is_cmd m (codes "download")
    then download
    else if is_cmd m (codes "get")
    then Callback.get
    else if is_cmd m (codes "help")
    then help
    else if is_cmd m (codes "info")
    then info
    else if is_cmd m (codes "list")
    then Callback.list
    else if is_cmd m (codes "raw")
    then raw
    else if is_cmd m (codes "set")
    then set
    else Callback.unknown

unfoldable pub client_pool : Callback → PoolName
client_pool connect = slow
client_pool c = fast

unfoldable pub daemon_pool : DaemonCallback → PoolName
daemon_pool DaemonCallback.list = slow
daemon_pool c = fast

-- What stands before the first space.
pub first_word : Bytes → Bytes
first_word [] = []
first_word (c ∷ cs) = if c == b' ' then [] else c ∷ first_word cs

abbrev no_space : Bytes → Bool
no_space [] = true
no_space (c ∷ cs) = if c == b' ' then false else no_space cs

is_cmd-first_word : (m w : Bytes) → no_space w ≡ true → is_cmd m w ≡ str_eq (first_word m) w
unfolding is_cmd ends_word first_word starts_with str_eq
is_cmd-first_word [] [] h = refl
is_cmd-first_word [] (d ∷ ds) h = refl
is_cmd-first_word (c ∷ cs) [] h = ground arith
is_cmd-first_word (c ∷ cs) (d ∷ ds) h = ground (arith, is_cmd-first_word cs ds)

-- The commands that a client may give.
pub data IsServed : Callback → Type 0 where
  served_connect : IsServed connect
  served_download : IsServed download
  served_get : IsServed Callback.get
  served_help : IsServed help
  served_info : IsServed info
  served_list : IsServed Callback.list
  served_raw : IsServed raw
  served_set : IsServed set

abbrev named : Bytes → Callback
named w =
    if str_eq w (codes "connect")
    then connect
    else if str_eq w (codes "download")
    then download
    else if str_eq w (codes "get")
    then Callback.get
    else if str_eq w (codes "help")
    then help
    else if str_eq w (codes "info")
    then info
    else if str_eq w (codes "list")
    then Callback.list
    else if str_eq w (codes "raw")
    then raw
    else if str_eq w (codes "set")
    then set
    else Callback.unknown

client_handler-named : (m : Bytes) → client_handler m ≡ named (first_word m)
unfolding client_handler
client_handler-named m =
    rw
      (
        is_cmd-first_word m (codes "connect") refl,
        is_cmd-first_word m (codes "download") refl,
        is_cmd-first_word m (codes "get") refl,
        is_cmd-first_word m (codes "help") refl,
        is_cmd-first_word m (codes "info") refl,
        is_cmd-first_word m (codes "list") refl,
        is_cmd-first_word m (codes "raw") refl,
        is_cmd-first_word m (codes "set") refl,
      )
      refl

name-named : (c : Callback) → IsServed c → named (client_name c) ≡ c
unfolding client_name str_eq
name-named connect s = refl
name-named download s = refl
name-named Callback.get s = refl
name-named help s = refl
name-named info s = refl
name-named Callback.list s = refl
name-named raw s = refl
name-named set s = refl
name-named Callback.bar s = elim s [ ]
name-named Callback.unknown s = elim s [ ]

named-name : (w : Bytes) (c : Callback) → IsServed c → named w ≡ c → w ≡ client_name c
unfolding client_name
named-name w connect s e = eq_of_str_eq w (codes "connect") (ground arith)
named-name w download s e = eq_of_str_eq w (codes "download") (ground arith)
named-name w Callback.get s e = eq_of_str_eq w (codes "get") (ground arith)
named-name w help s e = eq_of_str_eq w (codes "help") (ground arith)
named-name w info s e = eq_of_str_eq w (codes "info") (ground arith)
named-name w Callback.list s e = eq_of_str_eq w (codes "list") (ground arith)
named-name w raw s e = eq_of_str_eq w (codes "raw") (ground arith)
named-name w set s e = eq_of_str_eq w (codes "set") (ground arith)
named-name w Callback.bar s e = elim s [ ]
named-name w Callback.unknown s e = elim s [ ]

-- A message goes to a client's request exactly when its first word is the request's name.
pub client_handler-first_word :
    (m : Bytes) (c : Callback)
    → IsServed c
    → (client_handler m ≡ c) ↔ (first_word m ≡ client_name c)
client_handler-first_word m c s = (
  λ e. named-name (first_word m) c s (sym (client_handler-named m) ∙ e),
  λ e. client_handler-named m ∙ ap named e ∙ name-named c s,
)
