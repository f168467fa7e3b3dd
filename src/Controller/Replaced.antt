-- ===== src/Controller/Replaced.antt =====
-- What the child of a restarting controller, restartHandler of src/controller.c, has closed, taken over
-- and sent.
use pint.Common.{
  ℕ, ◌≡◌, Bool, ◌⊎◌, true, false, List, [], ◌∷◌, ◌++◌, none, some, ◌==◌, if◌then◌else◌, map,
}
use pint.Common.Int.{ℤ, pos, ltb_ℤ}
use pint.Os.{Os, Log, writes, closes}
use pint.CommTypes.Types.{TypedPipe, comm_error}
use pint.CommTypes.Bytes.{int_bytes}
use pint.FdClient.Connect.{Server}

-- The descriptors of the ends that are set.
abbrev pub set_end : ℕ → List ℕ
set_end fd = if fd == 0 then [] else fd ∷ []

abbrev pub set_ends : List TypedPipe → List ℕ
set_ends [] = []
set_ends (p ∷ pipes) = set_end p.fd_in ++ (set_end p.fd_out ++ set_ends pipes)

-- The log after each of these was closed once, in this order.
abbrev pub closed : List ℕ → Log → Log
closed [] w = w
closed (fd ∷ fds) w = closed fds (closes fd ∷ w)

-- A pipe with no end, of no type.
abbrev pub unset : TypedPipe → TypedPipe
unset p = record { type = comm_error; fd_in = 0; fd_out = 0 }

-- One of the calls before recvmsg fails.
abbrev pub NotReached : Server → Type 0
NotReached server =
    (server.allocates ≡ false)
    ⊎ ((server.socket ≡ none) ⊎ ((server.name_fits ≡ false) ⊎ (server.connects ≡ false)))

-- What the child leaves: its pipes, whether it sets the pipe indexes, and the log, where `old` are
-- its pipes before, and `brought` those that the server has sent.
pub data Replaced (server : Server) (pid : ℤ) (old brought : List TypedPipe) (w : Log)
    : List TypedPipe × Bool × Log → Type 0 where
  -- It does not reach the server: its pipes are not set, and a socket is closed if there is one.
  alone :
      (after : Log)
      → NotReached server
      → ((after ≡ []) ⊎ ((s : ℕ) × (server.socket ≡ some s) × (after ≡ closes s ∷ [])))
      → Replaced server pid old brought w (map unset old, false, after ++ closed (set_ends old) w)
  -- It has the pipes, but its pid is not taken.
  unknown :
      (s : ℕ)
      → server.socket ≡ some s
      → server.takes_pid ≡ false
      → Replaced server pid old brought w
          (brought, false, closes s ∷ writes s (int_bytes pid) ∷ closed (set_ends old) w)
  -- It takes the place of the replica.
  taken_over :
      (s : ℕ)
      → server.socket ≡ some s
      → server.takes_pid ≡ true
      → Replaced server pid old brought w
          (brought, true, closes s ∷ writes s (int_bytes pid) ∷ closed (set_ends old) w)

-- What the child does after connectRecvFDS.
abbrev after_connect : ℤ × List TypedPipe × Log → List TypedPipe × Bool × Log
after_connect (retval, pipes, w) =
    if ltb_ℤ retval (pos 0) then (pipes, false, w) else (pipes, true, w)
