-- ===== src/FdClient/Tests.antt =====
-- The theorem about src/fd_client.c at a concrete pipe.
use pint.Common.{suc, ◌≡◌, [], ◌∷◌}
use pint.Common.Int.{pos}
use pint.Os.{Call}
use pint.FdServer.{send_fds}
use pint.FdClient.{request_fds, request_fds_lem, transit, delivered}
use pint.Samples.{os, holding}

request_fds_lem_example :
    (sent : Call) × ((send_fds os 4 (holding 5 ∷ []) 1 []).1 ≡ sent ∷ [])
    × (request_fds (transit (λ fd. suc fd) 12 sent) []
        ≡ (pos 12, delivered (λ fd. suc fd) (holding 5) ∷ []))
request_fds_lem_example = request_fds_lem os 4 1 12 (λ fd. suc fd) (holding 5 ∷ []) [] []
