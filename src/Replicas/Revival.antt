-- ===== src/Replicas/Revival.antt =====
-- Restarts and starts in src/replicas.c keep the vote buffers of all replicas well formed.
use Prim.Native.String.{String}
use pint.Common.{
  [], ℕ, List, ◌∷◌, Option, none, some, arith, for_up, for_up_inv, set, if_inv, OnSome,
}
use pint.Common.Int.{ℤ, pos, ltb_ℤ}
use pint.FdServer.{accept_send_fds}
use pint.Os.{Os, Log, kills, restart_signal}
use pint.Replicas.Types.{Replica, ExtPipe, rep_at}
use pint.Replicas.Start.{
  init_replica, at_replica, create_pipes_of, fork_replica, introduce, start_replicas,
  cleanup_replica, init_replicas, create_pipes, fork_replicas,
}
use pint.Replicas.Restart.{favour, reconnect, restart_replica}
use pint.Replicas.Wellformed.{
  RepValid, PipesValid, set-PipesValid, at_replica-PipesValid, balance_reps-PipesValid,
  init_replica-RepValid, create_pipes_of-RepValid, favour-PipesValid, reconnect-RepValid,
  fork_replica-RepValid,
}

each :
    (body : Replica → Log → Replica × Log)
    → ((r : Replica) (w : Log) → RepValid r → RepValid (body r w).0)
    → (num : ℕ) (reps : List Replica) (w : Log) → PipesValid reps
    → PipesValid (for_up num 0 (at_replica body) (reps, w)).0
each body keep num reps w v =
    for_up_inv (λ i s. PipesValid s.0) (at_replica body) num 0 num (reps, w) (omega arith)
      (λ i s lt h. at_replica-PipesValid body i s keep h) v

-- restartReplica keeps all the vote buffers well formed, those of the restarted replica and those
-- of the others.
pub restart_replica-PipesValid :
    (os : Os) (reps : List Replica) (num sock : ℕ) (exts : List ExtPipe) (restarter restartee : ℕ)
    (d : ℤ) (w : Log)
    → PipesValid reps
    → PipesValid (restart_replica os reps num sock exts restarter restartee d w).0
unfolding restart_replica
restart_replica-PipesValid os reps num sock exts restarter restartee d w v =
    balance_reps-PipesValid os s4.0 num d s4.1 v4
  where
    s1 : List Replica × Log
    s1 =
        for_up num 0 (favour os restarter restartee d)
          (reps, cleanup_replica (rep_at reps restartee) w)

    v1 : PipesValid s1.0
    v1 =
        for_up_inv (λ i s. PipesValid s.0) (favour os restarter restartee d) num 0 num
          (reps, cleanup_replica (rep_at reps restartee) w) (omega arith)
          (λ i s lt h. favour-PipesValid os restarter restartee d i s h) v

    s2 : List Replica × Log
    s2 =
        at_replica (init_replica (rep_at s1.0 restarter).name d) restartee
          (s1.0, kills (rep_at s1.0 restarter).pid restart_signal ∷ s1.1)

    v2 : PipesValid s2.0
    v2 =
        at_replica-PipesValid (init_replica (rep_at s1.0 restarter).name d) restartee
          (s1.0, kills (rep_at s1.0 restarter).pid restart_signal ∷ s1.1)
          (init_replica-RepValid (rep_at s1.0 restarter).name d) v1

    s3 : List Replica × Log
    s3 = at_replica (create_pipes_of os exts (rep_at s2.0 restarter).pipe_count) restartee s2

    v3 : PipesValid s3.0
    v3 =
        at_replica-PipesValid (create_pipes_of os exts (rep_at s2.0 restarter).pipe_count) restartee
          s2 (create_pipes_of-RepValid os exts (rep_at s2.0 restarter).pipe_count) v2

    s4 : List Replica × Log
    s4 = at_replica (reconnect os sock) restartee s3

    v4 : PipesValid s4.0
    v4 = at_replica-PipesValid (reconnect os sock) restartee s3 (reconnect-RepValid os sock) v3

introduce-PipesValid :
    (os : Os) (sock i : ℕ) (o : Option (List Replica × Log))
    → OnSome (λ s. PipesValid s.0) o
    → OnSome (λ s. PipesValid s.0) (introduce os sock i o)
unfolding introduce
introduce-PipesValid os sock i none v = tt
introduce-PipesValid os sock i (some (reps, w)) v =
    let r = rep_at reps i in
    let a = accept_send_fds os sock r.pid r.rep_pipes r.pipe_count w in
    if_inv (OnSome (λ (s : List Replica × Log). PipesValid s.0)) (ltb_ℤ a.0 (pos 0)) none
      (some (set reps i (record r { pid = a.1 }), a.2)) tt
      (set-PipesValid reps i (record r { pid = a.1 }) (v i) v)

-- startReplicas keeps all the vote buffers well formed, where it does not end the process.
pub start_replicas-PipesValid :
    (os : Os) (reps : List Replica) (num sock : ℕ) (name : String) (exts : List ExtPipe)
    (pipe_count : ℕ) (d : ℤ) (w : Log)
    → PipesValid reps
    → OnSome (λ s. PipesValid s.0) (start_replicas os reps num sock name exts pipe_count d w)
unfolding start_replicas init_replicas create_pipes fork_replicas
start_replicas-PipesValid os reps num sock name exts pipe_count d w v =
    for_up_inv (λ i. OnSome (λ (s : List Replica × Log). PipesValid s.0)) (introduce os sock) num 0
      num (some s3) (omega arith) (λ i o lt h. introduce-PipesValid os sock i o h) v3
  where
    s1 : List Replica × Log
    s1 = init_replicas name d num reps w

    v1 : PipesValid s1.0
    v1 = each (init_replica name d) (init_replica-RepValid name d) num reps w v

    s2 : List Replica × Log
    s2 = create_pipes os exts pipe_count num s1.0 s1.1

    v2 : PipesValid s2.0
    v2 =
        each (create_pipes_of os exts pipe_count) (create_pipes_of-RepValid os exts pipe_count) num
          s1.0 s1.1 v1

    s3 : List Replica × Log
    s3 = fork_replicas os [] num s2.0 s2.1

    v3 : PipesValid s3.0
    v3 = each (fork_replica os []) (fork_replica-RepValid os []) num s2.0 s2.1 v2
