-- ===== src/FdClient/Connect.antt =====
-- connectRecvFDS of src/fd_client.c.
use pint.Common.{ℕ, Bool, List, ◌∷◌, Option, none, some, if◌then◌else◌}
use pint.Common.Int.{ℤ, pos, negsuc, ltb_ℤ}
use pint.Os.{Log, writes, closes}
use pint.CommTypes.Types.{TypedPipe}
use pint.CommTypes.Bytes.{int_bytes}
use pint.FdClient.{request_fds}

-- What the calls of connectRecvFDS answer.
pub record Server : Type 0 where
  -- asprintf succeeds.
  pub allocates : Bool
  -- The socket, or an error.
  pub socket : Option ℕ
  -- The server's name is shorter than UNIX_PATH_MAX.
  pub name_fits : Bool
  -- connect returns 0.
  pub connects : Bool
  -- As in request_fds.
  pub brings : Option (List TypedPipe × List ℕ × ℤ)
  -- write of the pid succeeds.
  pub takes_pid : Bool

-- What follows requestFDS, up to the label connect_recv_FDS_sock_out.
unfoldable pub send_pid : Server → ℕ → ℤ → ℤ × List TypedPipe → Log → ℤ × List TypedPipe × Log
unfolding int_bytes
send_pid server sock_fd pid (retval, pipes) w =
    if ltb_ℤ retval (pos 0)
    then (negsuc 0, pipes, w)
    else (if server.takes_pid then pos 0 else negsuc 0, pipes, writes sock_fd (int_bytes pid) ∷ w)

-- The socket is closed on every way out, once there is one.
unfoldable pub connect_recv_fds : Server → ℤ → List TypedPipe → Log → ℤ × List TypedPipe × Log
unfolding request_fds send_pid
connect_recv_fds server pid pipes w =
    if server.allocates
    then (elim server.socket [
      | none ↦ (negsuc 0, pipes, w)
      | some sock_fd ↦
          let r =
            if server.name_fits
            then (if server.connects
                then send_pid server sock_fd pid (request_fds server.brings pipes) w
                else (negsuc 0, pipes, w))
            else (negsuc 0, pipes, w) in
          (r.0, r.1, closes sock_fd ∷ r.2)
    ])
    else (negsuc 0, pipes, w)
