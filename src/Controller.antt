-- ===== src/Controller.antt =====
-- restartHandler of src/controller.c: a controller that gets the restart signal forks, and the child
-- takes the place of the replica that the voter wants to restart. Priorities, signal masks and
-- messages are left out.
pub mod Replaced
mod Tests
use pint.Common.{
  ℕ, ◌≡◌, refl, ap, Bool, true, false, List, [], ◌∷◌, Option, none, some, if◌then◌else◌, map, ◌∙◌,
  arith,
}
use pint.Common.Int.{ℤ, pos, negsuc, ltb_ℤ}
use pint.Os.{Log, writes, closes}
use pint.VoteBuff.{VotePipe}
use pint.CommTypes.Types.{TypedPipe}
use pint.CommTypes.Bytes.{int_bytes}
use pint.CommTypes.Pipes.{reset_pipe}
use pint.FdServer.{vote_to_typed, passed_fd}
use pint.FdClient.{request_fds, request_fds_lem, delivered}
use pint.FdClient.Connect.{Server, send_pid, connect_recv_fds}

-- The loop over the pipes.
unfoldable pub reset_pipes : List TypedPipe → Log → List TypedPipe × Log
unfolding reset_pipe
reset_pipes [] w = ([], w)
reset_pipes (p ∷ pipes) w =
    let (p', w') = reset_pipe p w in let (pipes', w'') = reset_pipes pipes w' in (p' ∷ pipes', w'')

-- What fork returns.
pub data Fork : Type 0 where
  child parent fork_error : Fork

-- The pipes, whether setPipeIndexes is called, and the log. `pid` is the child's.
unfoldable pub restart_handler :
    Fork → Server → ℤ → List TypedPipe → Log → List TypedPipe × Bool × Log
unfolding reset_pipes connect_recv_fds
restart_handler fork_error server pid pipes w = (pipes, false, w)
restart_handler parent server pid pipes w = (pipes, false, w)
restart_handler child server pid pipes w =
    let (blank, w1) = reset_pipes pipes w in
    let (retval, pipes', w2) = connect_recv_fds server pid blank w1 in
    if ltb_ℤ retval (pos 0) then (pipes', false, w2) else (pipes', true, w2)
