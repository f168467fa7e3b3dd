-- ===== src/Controller/Tests.antt =====
-- The theorem about src/controller.c at a concrete pipe.
use pint.Common.{suc, ◌≡◌, refl, true, [], ◌∷◌, some}
use pint.Common.Int.{pos}
use pint.Os.{Call, sends_fds, writes, closes}
use pint.CommTypes.Types.{TypedPipe, way_res}
use pint.CommTypes.Bytes.{int_bytes}
use pint.FdServer.{vote_to_typed, passed_fd}
use pint.FdClient.{transit}
use pint.FdClient.Connect.{Server}
use pint.Controller.{child, restart_handler}
use pint.Controller.Replaced.{Replaced}
use pint.Samples.{holding}

-- What sendFDS sends.
abbrev sent : Call
sent = sends_fds 4 (vote_to_typed (holding 5) ∷ []) (passed_fd (holding 5) ∷ [])

abbrev server : Server
server = record {
  allocates = true;
  socket = some 4;
  name_fits = true;
  connects = true;
  brings = transit (λ fd. suc fd) 12 sent;
  takes_pid = true;
}

abbrev old : TypedPipe
old = record { type = way_res; fd_in = 6; fd_out = 0 }

taken : restart_handler child server (pos 77) (old ∷ []) [] ≡ (
  record { type = (vote_to_typed (holding 5)).type; fd_in = 8; fd_out = 0 } ∷ [],
  true,
  closes 4 ∷ writes 4 (int_bytes (pos 77)) ∷ closes 6 ∷ [],
)
unfolding restart_handler vote_to_typed passed_fd
taken = refl
