-- ===== src/Pooled/Bind/Examples.antt =====
-- Port 65534 is in use, and so is the next one that is tried: the kernel chooses the port.
use pire2pire.Base.{◌≡◌, true, List, [], ◌∷◌, ◌++◌, map, arith}
use pire2pire.Pooled.Bind.{
  Errno, addr_in_use, other_error, bound, failed, opened, trying, socket_init,
}
use pire2pire.Pooled.Bind.Retry.{count_in_use, socket_init-failed}

abbrev failures : List Errno
failures = addr_in_use ∷ other_error ∷ addr_in_use ∷ []

socket_init-failed_example :
    (socket_init true true 65534 (map failed failures ++ bound 40000 ∷ []) ≡ opened 40000 true)
    × (socket_init true true 65534 (map failed failures) ≡ trying 0)
unfolding count_in_use
socket_init-failed_example = socket_init-failed true failures 65534 40000 [] (omega arith)
