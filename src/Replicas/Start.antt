-- ===== src/Replicas/Start.antt =====
-- initReplicas, cleanupReplica, createPipes, forkReplicas and startReplicas of src/replicas.c.
use Prim.Native.String.{String}
use pint.Common.{
  ℕ, ◌+◌, List, [], ◌∷◌, Option, none, some, ◌==◌, if◌then◌else◌, for_up, get_or, set,
}
use pint.Common.Int.{ℤ, pos, negsuc, ltb_ℤ}
use pint.Os.{Os, Log, kills, pipes, forks, sigkill}
use pint.VoteBuff.{VotePipe, reset_vote_pipe, close_set}
use pint.FdServer.{accept_send_fds}
use pint.Replicas.Types.{Replica, ExtPipe, blank_pipe, blank_ext, rep_at}

unfoldable pub reset_at : ℕ → List VotePipe → Log → List VotePipe × Log
unfolding reset_vote_pipe
reset_at j ps w = let (p, w') = reset_vote_pipe (get_or ps j blank_pipe) w in (set ps j p, w')

unfoldable pub reset_both : ℕ → Replica × Log → Replica × Log
unfolding reset_at
reset_both j (r, w) =
    let (vs, w1) = reset_at j r.vot_pipes w in
    let (rs, w2) = reset_at j r.rep_pipes w1 in (record r { vot_pipes = vs; rep_pipes = rs }, w2)

-- The body of the loop of initReplicas.
unfoldable pub init_replica : String → ℤ → Replica → Log → Replica × Log
unfolding reset_both
init_replica name priority r w =
    let (r', w') =
      for_up r.pipe_count 0 reset_both
        (record r { name = name; pid = negsuc 0; priority = priority }, w) in
    (record r' { pipe_count = 0 }, w')

-- Runs a loop's body at one replica of the array.
unfoldable pub at_replica :
    (Replica → Log → Replica × Log) → ℕ → List Replica × Log → List Replica × Log
at_replica body index (reps, w) = let (r, w') = body (rep_at reps index) w in (set reps index r, w')

unfoldable pub init_replicas : String → ℤ → ℕ → List Replica → Log → List Replica × Log
unfolding at_replica
init_replicas name priority num reps w =
    for_up num 0 (at_replica (init_replica name priority)) (reps, w)

unfoldable pub close_ends : Replica → ℕ → Log → Log
unfolding close_set
close_ends r i w =
    let v = get_or r.vot_pipes i blank_pipe in
    let p = get_or r.rep_pipes i blank_pipe in
    close_set p.fd_out (close_set p.fd_in (close_set v.fd_out (close_set v.fd_in w)))

-- Kills the process and closes its pipes. The descriptors stay written in the structure.
unfoldable pub cleanup_replica : Replica → Log → Log
unfolding close_ends
cleanup_replica r w = for_up r.pipe_count 0 (close_ends r) (kills r.pid sigkill ∷ w)

unfoldable pub connect_pipe : ExtPipe → ℕ → ℕ → ℕ → Replica → Replica
connect_pipe ext p read_fd write_fd r =
    let v = get_or r.vot_pipes p blank_pipe in
    let q = get_or r.rep_pipes p blank_pipe in
    if ext.fd_in == 0
    then record r {
      vot_pipes =
          set r.vot_pipes p (record v { rep_info = ext.rep_info; fd_in = read_fd; fd_out = 0 });
      rep_pipes =
          set r.rep_pipes p (record q { rep_info = ext.rep_info; fd_in = 0; fd_out = write_fd });
      voter_rep_in_copy = set r.voter_rep_in_copy p 0;
      pipe_count = p + 1;
    }
    else record r {
      vot_pipes =
          set r.vot_pipes p (record v { rep_info = ext.rep_info; fd_in = 0; fd_out = write_fd });
      rep_pipes =
          set r.rep_pipes p (record q { rep_info = ext.rep_info; fd_in = read_fd; fd_out = 0 });
      voter_rep_in_copy = set r.voter_rep_in_copy p read_fd;
      pipe_count = p + 1;
    }

unfoldable pub create_pipe : Os → List ExtPipe → ℕ → Replica × Log → Replica × Log
unfolding connect_pipe
create_pipe os exts p (r, w) = elim (os.pipe_answer w) [
  | none ↦ (r, pipes ∷ w)
  | some (read_fd, write_fd) ↦
      (connect_pipe (get_or exts p blank_ext) p read_fd write_fd r, pipes ∷ w)
]

-- The inner loop of createPipes.
unfoldable pub create_pipes_of : Os → List ExtPipe → ℕ → Replica → Log → Replica × Log
unfolding create_pipe
create_pipes_of os exts pipe_count r w = for_up pipe_count 0 (create_pipe os exts) (r, w)

unfoldable pub create_pipes : Os → List ExtPipe → ℕ → ℕ → List Replica → Log → List Replica × Log
unfolding at_replica
create_pipes os exts pipe_count num reps w =
    for_up num 0 (at_replica (create_pipes_of os exts pipe_count)) (reps, w)

-- In the parent: the pid of the child, or -1.
unfoldable pub fork_single : Os → List String → Log → ℤ × Log
fork_single os argv w =
    let pid = os.fork_answer w in (if ltb_ℤ pid (pos 0) then negsuc 0 else pid, forks argv ∷ w)

-- The body of the loop of forkReplicas, with the additional arguments.
unfoldable pub fork_replica : Os → List String → Replica → Log → Replica × Log
unfolding fork_single
fork_replica os additional r w =
    let argv = r.name ∷ os.decimal r.priority ∷ os.decimal (pos r.pipe_count) ∷ additional in
    let (pid, w') = fork_single os argv w in (record r { pid = pid }, w')

unfoldable pub fork_replicas : Os → List String → ℕ → List Replica → Log → List Replica × Log
unfolding at_replica
fork_replicas os additional num reps w =
    for_up num 0 (at_replica (fork_replica os additional)) (reps, w)

-- Sends one replica its ends. `none`: the process has exited.
unfoldable pub introduce : Os → ℕ → ℕ → Option (List Replica × Log) → Option (List Replica × Log)
unfolding accept_send_fds
introduce os sock index none = none
introduce os sock index (some (reps, w)) =
    let r = rep_at reps index in
    let (retval, pid, w') = accept_send_fds os sock r.pid r.rep_pipes r.pipe_count w in
    if ltb_ℤ retval (pos 0) then none else some (set reps index (record r { pid = pid }), w')

-- `none`: acceptSendFDS failed and the process has exited.
unfoldable pub start_replicas :
    Os → List Replica → ℕ → ℕ → String → List ExtPipe → ℕ → ℤ → Log → Option (List Replica × Log)
start_replicas os reps num sock name exts pipe_count default_priority w =
    let (reps1, w1) = init_replicas name default_priority num reps w in
    let (reps2, w2) = create_pipes os exts pipe_count num reps1 w1 in
    let (reps3, w3) = fork_replicas os [] num reps2 w2 in
    for_up num 0 (introduce os sock) (some (reps3, w3))
