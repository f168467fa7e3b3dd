-- ===== src/FdServer.antt =====
-- src/fd_server.c: a restarted or new replica connects, is sent its ends of the pipes, and
-- answers with its process id.
use pint.Common.{Bool, ℕ, List, ◌∷◌, none, some, ◌==◌, if◌then◌else◌, map, take}
use pint.Common.Int.{ℤ, pos, negsuc}
use pint.CommTypes.Types.{TypedPipe, comm_to_enum}
use pint.Os.{Os, Log, accepts, sends_fds, reads_pid, closes, closes_invalid}
use pint.VoteBuff.{VotePipe}

-- convertVoteToTyped of src/commtypes.c, for one pipe.
unfoldable pub vote_to_typed : VotePipe → TypedPipe
unfolding comm_to_enum
vote_to_typed p = record { type = comm_to_enum p.rep_info; fd_in = p.fd_in; fd_out = p.fd_out }

-- The descriptor that goes out of band: the end that is set.
unfoldable pub passed_fd : VotePipe → ℕ
passed_fd p = if p.fd_in == 0 then p.fd_out else p.fd_in

unfoldable pub send_fds : Os → ℕ → List VotePipe → ℕ → Log → Bool × Log
unfolding vote_to_typed passed_fd
send_fds os conn pipes pipe_count w = (
  os.send_fds_answer w,
  sends_fds conn (map vote_to_typed (take pipe_count pipes)) (map passed_fd (take pipe_count pipes))
      ∷ w,
)

-- Returns the return value and what stands at `pid` afterwards. The size of a pid is 4.
unfoldable pub accept_send_fds : Os → ℕ → ℤ → List VotePipe → ℕ → Log → ℤ × ℤ × Log
unfolding send_fds
accept_send_fds os sock pid pipes pipe_count w = elim (os.accept_answer w) [
  | none ↦ (negsuc 0, pid, closes_invalid ∷ accepts sock ∷ w)
  | some conn ↦
      let (sent, w1) = send_fds os conn pipes pipe_count (accepts sock ∷ w) in
      if sent
      then (elim (os.read_pid_answer w1) [
        | none ↦ (negsuc 0, pid, closes conn ∷ reads_pid conn ∷ w1)
        | some pid' ↦ (pos 4, pid', closes conn ∷ reads_pid conn ∷ w1)
      ])
      else (negsuc 0, pid, closes conn ∷ w1)
]
