-- ===== src/Peers/Links/Examples.antt =====
-- A list of three, at the addresses 1 to 3, of the threads 10, 20 and 30.
use pire2pire.Base.{◌≡◌, refl, none, some, [], ◌∷◌, arith}
use pire2pire.Peers.Links.{
  Heap, write, client_request_remove, daemon_request_remove, client_remove, daemon_remove,
  free_node,
}
use pire2pire.Peers.Links.Chain.{Cells, node, IsList}
use pire2pire.Peers.Links.Search.{drop_thread, has_thread}
use pire2pire.Peers.Links.Refinement.{request_remove-drop_thread}
use pire2pire.Peers.Links.Dangling.{remove_peer-dangles}

abbrev three : Cells
three = (1, 10) ∷ (2, 20) ∷ (3, 30) ∷ []

-- A node at the address 4 is not in the list yet.
abbrev heap : Heap
heap =
    write
      (write
        (write (write (λ a. none) 1 (some (node 10 none (some 2)))) 2
          (some (node 20 (some 1) (some 3))))
        3 (some (node 30 (some 2) none)))
      4 (some (node 40 none none))

three-IsList : IsList heap (some 1) three
three-IsList = record {
  head = refl;
  linked = (refl, (refl, (refl, tt)));
  distinct = (refl, (refl, (refl, tt)));
}

request_remove-drop_thread_example :
    (h' : Heap) × (client_request_remove 3 heap (some 1) 20 ≡ some (h', some 1))
    × (daemon_request_remove 3 heap (some 1) 20 ≡ some (h', some 1))
    × IsList h' (some 1) ((1, 10) ∷ (3, 30) ∷ [])
unfolding has_thread drop_thread
request_remove-drop_thread_example =
    request_remove-drop_thread 3 heap (some 1) three 20 three-IsList refl (omega arith)

-- A list of four, of which the third goes and then the fourth.
abbrev four : Heap
four = write (write heap 3 (some (node 30 (some 2) (some 4)))) 4 (some (node 40 (some 3) none))

remove_peer-dangles_example :
    (h' : Heap) × (client_remove 3 four (some 1) 30 ≡ some (h', some 1))
    × (daemon_remove 3 four (some 1) 30 ≡ some (h', some 1))
    × (client_remove 3 (free_node h' 3) (some 1) 40 ≡ none)
    × (daemon_remove 3 (free_node h' 3) (some 1) 40 ≡ none)
unfolding has_thread
remove_peer-dangles_example =
    remove_peer-dangles 0 four ((1, 10) ∷ []) [] 2 3 4 20 30 40
      (record {
        head = refl;
        linked = (refl, (refl, (refl, (refl, tt))));
        distinct = (refl, (refl, (refl, (refl, tt))));
      })
      refl refl
