-- ===== src/Voter/Arguments.antt =====
-- parsePipe and parseArgs of voter/voterd.c: the voter's command line.
use Prim.Native.String.{String}
use pint.Common.{
  ℕ, zero, suc, ◌+◌, false, not, List, [], ◌∷◌, Option, none, some, ◌==◌, if◌then◌else◌, set,
  for_up, replicate, ◌>>=◌,
}
use pint.Common.Int.{ℤ, pos, negsuc}
use pint.VoteBuff.{pipe_limit, max_buff, none_rep, reptype_to_enum, reptype_to_count}
use pint.CommTypes.Serial.{Scanf}
use pint.Replicas.Types.{Replica, ExtPipe, zeros, blank_pipe, blank_replica, blank_ext}
use pint.Voter.State.{Voter, ext_pipe}

abbrev pub rep_max : ℕ
rep_max = 3

abbrev pub period_usec : ℤ
period_usec = pos 120

abbrev pub start_replica : Replica
start_replica = record blank_replica {
  vot_pipes = replicate pipe_limit blank_pipe;
  voter_rep_in_copy = replicate pipe_limit 0;
  rep_pipes = replicate pipe_limit blank_pipe;
}

-- The globals before main: arrays of zeros, and the initialisers.
abbrev pub start_voter : Voter
start_voter = record {
  voting_timeout = pos 0;
  timer_start_index = 0;
  timer_stop_index = 0;
  timer_started = false;
  watchdog = 0;
  last_dead = negsuc 0;
  replicas = replicate rep_max start_replica;
  voter_priority = pos 0;
  replica_priority = pos 0;
  sock_fd = 0;
  rep_type = none_rep;
  rep_count = 0;
  controller_name = "";
  pipe_count = 0;
  ext_pipes = replicate pipe_limit (record blank_ext { buffer = zeros max_buff });
  log = [];
}

-- What parsePipe stores. `none`: a variable that sscanf has not set is read.
unfoldable pub store_ext : Option String × List ℕ → ExtPipe → Option ExtPipe
store_ext (some info, fd_in ∷ fd_out ∷ timed ∷ []) pipe =
    some (record pipe { rep_info = info; fd_in = fd_in; fd_out = fd_out; timed = not (timed == 0) })
store_ext _ pipe = none

unfoldable pub parse_pipe : Scanf → String → ExtPipe → Option ExtPipe
unfolding store_ext
parse_pipe s serial pipe = store_ext (s.scan 3 serial) pipe

-- The loop over the arguments for pipes, of which no more than `limit` are looked at.
unfoldable pub parse_pipes : Scanf → ℕ → List String → Voter → Option Voter
unfolding parse_pipe
parse_pipes s zero args v = some v
parse_pipes s (suc limit) [] v = some v
parse_pipes s (suc limit) (arg ∷ args) v = parse_pipe s arg (ext_pipe v v.pipe_count) >>= λ pipe.
    parse_pipes s limit args
      (record v { ext_pipes = set v.ext_pipes v.pipe_count pipe; pipe_count = v.pipe_count + 1 })

-- One round of the loop that finds the pipes of the timer.
unfoldable pub note_timer : ℕ → Voter → Voter
note_timer i v =
    if (ext_pipe v i).timed
    then (if (ext_pipe v i).fd_in == 0
        then record v { timer_stop_index = i }
        else record v { timer_start_index = i })
    else v

-- What comes before the loops.
unfoldable pub parse_head : Scanf → String → String → String → String → Voter → Voter
unfolding reptype_to_enum reptype_to_count
parse_head s controller rep timeout priority v = record v {
  controller_name = controller;
  rep_type = reptype_to_enum rep;
  rep_count = reptype_to_count (reptype_to_enum rep);
  voting_timeout = elim (s.atoi timeout) [ pos zero ↦ period_usec | other ↦ other ];
  voter_priority = s.atoi priority;
}

-- `none`: with fewer than five arguments the code reads through NULL before it tests their number.
unfoldable pub parse_args : Scanf → List String → Voter → Option Voter
unfolding parse_head parse_pipes note_timer
parse_args s (voter ∷ controller ∷ rep ∷ timeout ∷ priority ∷ args) v =
    parse_pipes s pipe_limit args (parse_head s controller rep timeout priority v) >>= λ u.
    some (for_up u.pipe_count 0 note_timer u)
parse_args s _ v = none
