-- ===== src/FdClient.antt =====
-- requestFDS of src/fd_client.c: a replica takes over the ends that the voter's descriptor server,
-- src/fd_server.c, has sent it.
pub mod Connect
mod Tests
use pint.Common.{
  ℕ, ◌≡◌, refl, ap, ap₂, take, List, [], ◌∷◌, Option, none, some, arith, ◌==◌, if◌then◌else◌, map,
  length,
}
use pint.Common.Int.{ℤ, pos, negsuc}
use pint.CommTypes.Types.{TypedPipe, comm_to_enum}
use pint.VoteBuff.{VotePipe}
use pint.Os.{Os, Log, Call, sends_fds}
use pint.FdServer.{vote_to_typed, passed_fd, send_fds}

-- The loop over the descriptors that came out of band.
unfoldable pub recover_fds : List TypedPipe → List ℕ → List TypedPipe
recover_fds [] fds = []
recover_fds (p ∷ pipes) [] = p ∷ pipes
recover_fds (p ∷ pipes) (fd ∷ fds) =
    (if p.fd_in == 0 then record p { fd_out = fd } else record p { fd_in = fd })
    ∷ recover_fds pipes fds

-- What recvmsg brings is `none` for an error, or the typed pipes, their descriptors and its return
-- value. Returns the return value and what stands at `pipes` afterwards.
unfoldable pub request_fds :
    Option (List TypedPipe × List ℕ × ℤ) → List TypedPipe → ℤ × List TypedPipe
unfolding recover_fds
request_fds none old = (negsuc 0, old)
request_fds (some (pipes, fds, received)) old = (received, recover_fds pipes fds)

-- A pipe's end in the replica, where the kernel gives it the descriptor `dup fd` for the voter's fd.
pub delivered : (ℕ → ℕ) → VotePipe → TypedPipe
delivered dup p = record {
  type = comm_to_enum p.rep_info;
  fd_in = if p.fd_in == 0 then 0 else dup p.fd_in;
  fd_out = if p.fd_in == 0 then dup p.fd_out else p.fd_out;
}

recover-one :
    (dup : ℕ → ℕ) (p : VotePipe)
    → (if (vote_to_typed p).fd_in == 0
        then record (vote_to_typed p) { fd_out = dup (passed_fd p) }
        else record (vote_to_typed p) { fd_in = dup (passed_fd p) })
      ≡ delivered dup p
unfolding vote_to_typed passed_fd delivered
recover-one dup p = ground arith

-- What recvmsg of the replica brings of a call that the server makes: the whole message, with the
-- kernel's own descriptor `dup fd` for each fd that was passed.
abbrev pub transit : (ℕ → ℕ) → ℕ → Call → Option (List TypedPipe × List ℕ × ℤ)
transit dup received (sends_fds conn typed fds) = some (typed, map dup fds, pos received)
transit dup received other = none

recover-all :
    (dup : ℕ → ℕ) (ps : List VotePipe)
    → recover_fds (map vote_to_typed ps) (map dup (map passed_fd ps)) ≡ map (delivered dup) ps
unfolding recover_fds
recover-all dup [] = refl
recover-all dup (p ∷ ps) = ap₂ (λ a b. a ∷ b) (recover-one dup p) (recover-all dup ps)

-- sendFDS makes one call, and what recvmsg of a replica brings of it, with the kernel's own
-- descriptor for each that was passed, requestFDS turns into the first pipe_count pipes of the
-- voter, each with its type and with the new descriptor at the end that is set in the voter: at the
-- write end if the read end is not set. It returns what recvmsg did.
pub request_fds_lem :
    (os : Os) (conn pipe_count received : ℕ) (dup : ℕ → ℕ) (pipes : List VotePipe)
    (old : List TypedPipe) (w : Log)
    → (sent : Call) × ((send_fds os conn pipes pipe_count w).1 ≡ sent ∷ w)
      × (request_fds (transit dup received sent) old
          ≡ (pos received, map (delivered dup) (take pipe_count pipes)))
unfolding request_fds send_fds
request_fds_lem os conn pipe_count received dup pipes old w =
    (_, refl, ap (λ l. (pos received, l)) (recover-all dup (take pipe_count pipes)))
