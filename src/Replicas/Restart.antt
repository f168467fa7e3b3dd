-- ===== src/Replicas/Restart.antt =====
-- restartReplica of src/replicas.c: a failed replica is replaced by a fork of a healthy one.
use pint.Common.{ℕ, List, ◌∷◌, ◌==◌, if◌then◌else◌, for_up}
use pint.Common.Int.{ℤ, pos, ◌+ℤ◌}
use pint.Os.{Os, Log, kills, restart_signal}
use pint.FdServer.{accept_send_fds}
use pint.Replicas.Types.{Replica, ExtPipe, rep_at}
use pint.Replicas.Balance.{set_priority, balance_reps}
use pint.Replicas.Start.{init_replica, cleanup_replica, create_pipes_of, at_replica}

-- The restarter goes before the others, and the dead replica is left out.
unfoldable pub favour : Os → ℕ → ℕ → ℤ → ℕ → List Replica × Log → List Replica × Log
unfolding ◌+ℤ◌
favour os restarter restartee default_priority i s =
    if i == restartee
    then s
    else if i == restarter
    then set_priority os i (default_priority +ℤ pos 2) s
    else set_priority os i default_priority s

-- The new process id, if one comes back; the return value is not looked at.
unfoldable pub reconnect : Os → ℕ → Replica → Log → Replica × Log
reconnect os sock r w =
    let (retval, pid, w') = accept_send_fds os sock r.pid r.rep_pipes r.pipe_count w in
    (record r { pid = pid }, w')

unfoldable pub restart_replica :
    Os → List Replica → ℕ → ℕ → List ExtPipe → ℕ → ℕ → ℤ → Log → List Replica × Log
unfolding favour reconnect
restart_replica os reps num sock exts restarter restartee default_priority w =
    let w1 = cleanup_replica (rep_at reps restartee) w in
    let (reps1, w2) = for_up num 0 (favour os restarter restartee default_priority) (reps, w1) in
    let w3 = kills (rep_at reps1 restarter).pid restart_signal ∷ w2 in
    let (reps2, w4) =
      at_replica (init_replica (rep_at reps1 restarter).name default_priority) restartee
        (reps1, w3) in
    let (reps3, w5) =
      at_replica (create_pipes_of os exts (rep_at reps2 restarter).pipe_count) restartee
        (reps2, w4) in
    let (reps4, w6) = at_replica (reconnect os sock) restartee (reps3, w5) in
    balance_reps os reps4 num default_priority w6
