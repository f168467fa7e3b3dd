-- ===== src/Bench/Setup.antt =====
-- parseArgs and initBenchMarker of controllers/benchmarker.c: the benchmarker starts the plumber.
use Prim.Native.String.{String}
use pint.Common.{
  List, [], ◌∷◌, Option, none, some, ltb, if◌then◌else◌, length, get_or, replicate, ◌>>=◌,
}
use pint.Common.Int.{ℤ, pos}
use pint.Os.{Os, Log}
use pint.CommTypes.Types.{TypedPipe, message_name}
use pint.CommTypes.Serial.{Scanf, deserialize_pipe, serialize_pipe}
use pint.VoteBuff.{pipe_limit}
use pint.FdServer.{vote_to_typed}
use pint.Replicas.Types.{Replica, ExtPipe, blank_pipe, blank_ext, blank_replica, rep_at, zeros}
use pint.Replicas.Start.{init_replicas, create_pipes, fork_replicas}

-- The priority, and the pipes from and to the translator. `none`: the usage message and the end of
-- the process, or a read through an unset pointer.
unfoldable pub parse_bench_args : Scanf → List String → Option (ℤ × TypedPipe × TypedPipe)
unfolding deserialize_pipe
parse_bench_args s argv =
    if ltb (length argv) 5
    then none
    else (deserialize_pipe s (get_or argv 3 "") >>= λ from_trans.
        deserialize_pipe s (get_or argv 4 "") >>= λ to_trans.
        some (s.atoi (get_or argv 1 ""), from_trans, to_trans))

-- The global `replica` before it is set up.
abbrev pub no_replica : Replica
no_replica = record blank_replica {
  vot_pipes = replicate pipe_limit blank_pipe;
  voter_rep_in_copy = zeros pipe_limit;
  rep_pipes = replicate pipe_limit blank_pipe;
}

-- A pipe that convertTypedToVote writes. What it does not set is not used.
unfoldable pub typed_to_ext : TypedPipe → ExtPipe
unfolding message_name
typed_to_ext t = record blank_ext {
  rep_info = message_name t.type;
  fd_in = t.fd_in;
  fd_out = t.fd_out;
}

-- The arguments that describe the replica's first two pipes.
unfoldable pub pipe_args : Os → Replica → List String
unfolding serialize_pipe vote_to_typed
pipe_args os r =
    serialize_pipe os (vote_to_typed (get_or r.rep_pipes 0 blank_pipe))
    ∷ serialize_pipe os (vote_to_typed (get_or r.rep_pipes 1 blank_pipe))
    ∷ []

unfoldable pub init_bench : Os → TypedPipe → TypedPipe → Log → Replica × Log
unfolding init_replicas create_pipes fork_replicas typed_to_ext pipe_args
init_bench os from_trans to_trans w =
    let (reps1, w1) = init_replicas "plumber" (pos 10) 1 (no_replica ∷ []) w in
    let exts = typed_to_ext from_trans ∷ typed_to_ext to_trans ∷ [] in
    let (reps2, w2) = create_pipes os exts 2 1 reps1 w1 in
    let (reps3, w3) = fork_replicas os (pipe_args os (rep_at reps2 0)) 1 reps2 w2 in
    (rep_at reps3 0, w3)
