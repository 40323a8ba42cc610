-- ===== src/Pooled/Conf/Examples.antt =====
-- A file that asks for too few threads and for a port that is reserved, and has a line without a value.
use pire2pire.Base.{◌≡◌, refl, some, List, [], ◌∷◌, codes}
use pire2pire.Pooled.Conf.{Prefs, Scan, matched, key_only, retrieved, fits_buffer, conf_retrieve}
use pire2pire.Pooled.Conf.Usable.{IsUsable, tokens, conf_retrieve-IsUsable}

abbrev lines : List Scan
lines =
    matched (codes "client_port") (codes "80")
    ∷ key_only (codes "max_clients")
    ∷ matched (codes "max_daemons") (codes "12")
    ∷ []

conf_retrieve-IsUsable_example :
    (p : Prefs) × (conf_retrieve (some (matched (codes "nb_proc") (codes "1") ∷ lines))
      ≡ retrieved p)
    × IsUsable p
unfolding fits_buffer
conf_retrieve-IsUsable_example =
    conf_retrieve-IsUsable (some (matched (codes "nb_proc") (codes "1") ∷ lines)) (
      tokens (codes "nb_proc") (codes "1") lines
        ((refl, refl), ((refl, refl), (refl, ((refl, refl), tt)))))
