-- ===== src/Handler/Examples.antt =====
-- Lines of clients and of daemons.
use pire2pire.Base.{◌≡◌, refl, [], ◌++◌, codes, starts_with}
use pire2pire.Handler.Daemons.{
  running, burst, all_enter, daemon_request_count, handle_requests, handle_requests-unbounded,
}

handle_requests-unbounded_example :
    daemon_request_count
      (handle_requests
        (record { phase = running; requests = []; starting = []; refused = 0 })
        (burst 12 (codes "list") ++ all_enter 12)).requests
    ≡ 12
unfolding starts_with
handle_requests-unbounded_example = handle_requests-unbounded 12 (codes "list") refl
