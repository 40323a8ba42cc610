-- ===== src/Handler/Identify/Examples.antt =====
-- A daemon at 10.0.0.2 that identifies itself.
use pire2pire.Base.{◌≡◌, refl, some, List, ◌∷◌, ◌++◌, Bytes, codes, atoi, arith}
use pire2pire.CmdParser.Words.{words}
use pire2pire.Handler.Identify.{identify, accepted}
use pire2pire.Handler.Identify.Address.{IsAddress, endpoint}
use pire2pire.Handler.Identify.Accepts.{identify-endpoint, identify_sound}

abbrev other_ip : Bytes
other_ip = codes "10.0.0.2"

abbrev other_line : Bytes
other_line = codes "neighbour " ++ endpoint other_ip 7331

other_line-accepted : identify other_ip (some other_line) ≡ accepted 7331
unfolding IsAddress
other_line-accepted =
    identify-endpoint other_ip 7331
      (refl, (refl, (refl, (refl, (refl, (refl, (refl, (refl, tt)))))))) (omega arith)

identify_sound_example :
    (digits : Bytes) × (ws : List Bytes) × (words other_line
      ≡ codes "neighbour" ∷ (other_ip ++ b':' ∷ digits) ∷ ws)
    × (7331 ≡ atoi digits)
identify_sound_example = identify_sound other_ip other_line 7331 other_line-accepted
