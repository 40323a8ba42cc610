-- ===== src/Pooled/Dispatch/Examples.antt =====
-- The choice of a request's function, on lines.
use pire2pire.Base.{◌≡◌, ◌↔◌, refl, codes, starts_with}
use pire2pire.Handler.Dispatch.{get, client_name}
use pire2pire.Handler.Dispatch as Names
use pire2pire.Pooled.Dispatch.{client_handler, first_word, served_get, client_handler-first_word}

-- "getaway" is no "get".
getaway : client_handler (codes "getaway") ≡ Names.Callback.unknown
unfolding client_handler starts_with
getaway = refl

client_handler-first_word_example :
    (client_handler (codes "get 0123") ≡ Names.Callback.get)
    ↔ (first_word (codes "get 0123") ≡ client_name Names.Callback.get)
client_handler-first_word_example =
    client_handler-first_word (codes "get 0123") Names.Callback.get served_get
