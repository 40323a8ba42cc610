-- ===== src/Requests/Search/Examples.antt =====
-- Client 1 has listed, a "file" has read it, and client 2 lists by the time that the line is sent.
use pire2pire.Base.{◌+◌, ◌<◌, ◌≡◌, refl, List, [], ◌∷◌, arith}
use pire2pire.Requests.Search.{
  listing, finished, lister, forwarded, Event, client_lists, file_comes, goes, run, start,
}
use pire2pire.Requests.Search.Exclusive.{
  inside, listing_for, listed_for, line_for, count, is_client, bit, run-exclusive, run-forwarded,
}

abbrev events : List Event
events =
    client_lists 1
    ∷ goes 0
    ∷ goes 0
    ∷ file_comes
    ∷ goes 0
    ∷ goes 1
    ∷ goes 1
    ∷ client_lists 2
    ∷ goes 0
    ∷ goes 0
    ∷ goes 1
    ∷ []

late : (run start events).1 ≡ lister 2 listing ∷ forwarded 1 ∷ lister 1 finished ∷ []
unfolding run start
late = refl

run-exclusive_example :
    (count inside (run start events).1 + bit (run start events).0.list_lock ≡ 1)
    × (count (listing_for 2) (run start events).1 ≡ is_client 2 (run start events).0.list_client)
run-exclusive_example = run-exclusive 2 events

run-forwarded_example : 0 < count (listed_for 1) (run start events).1
unfolding run start count line_for bit
run-forwarded_example = run-forwarded 1 events (omega arith)
