-- ===== src/Replicas/Types.antt =====
-- `struct replica` of include/replicas.h, and the pipes to the other components.
use Prim.Native.String.{String}
use pint.Common.{ℕ, Bool, false, List, [], get_or, set, replicate}
use pint.Common.Int.{ℤ, pos}
use pint.VoteBuff.{VotePipe, max_buff}

pub record Replica : Type 0 where
  pub pid : ℤ
  pub priority : ℤ
  pub name : String
  pub pipe_count : ℕ
  pub vot_pipes : List VotePipe
  pub voter_rep_in_copy : List ℕ
  pub rep_pipes : List VotePipe

-- A `struct vote_pipe` that leads to another component. Its buff_count is what the last read
-- returned, -1 after an error; buff_index is not used.
pub record ExtPipe : Type 0 where
  pub rep_info : String
  pub fd_in : ℕ
  pub fd_out : ℕ
  pub timed : Bool
  pub buff_count : ℤ
  pub buffer : List ℕ

unfoldable pub zeros : ℕ → List ℕ
zeros n = replicate n 0

-- The storage of a global array starts as zeros.
abbrev pub blank_pipe : VotePipe
blank_pipe = record {
  rep_info = "";
  fd_in = 0;
  fd_out = 0;
  timed = false;
  buff_count = 0;
  buff_index = 0;
  buffer = zeros max_buff;
}

abbrev pub blank_replica : Replica
blank_replica = record {
  pid = pos 0;
  priority = pos 0;
  name = "";
  pipe_count = 0;
  vot_pipes = [];
  voter_rep_in_copy = [];
  rep_pipes = [];
}

abbrev pub blank_ext : ExtPipe
blank_ext = record {
  rep_info = "";
  fd_in = 0;
  fd_out = 0;
  timed = false;
  buff_count = pos 0;
  buffer = [];
}

abbrev pub rep_at : List Replica → ℕ → Replica
rep_at reps i = get_or reps i blank_replica

-- reps[r].vot_pipes[p]
abbrev pub vot_pipe : List Replica → ℕ → ℕ → VotePipe
vot_pipe reps r p = get_or (rep_at reps r).vot_pipes p blank_pipe

abbrev pub count_at : List Replica → ℕ → ℕ → ℕ
count_at reps r p = (vot_pipe reps r p).buff_count

-- reps[r].vot_pipes[p] = pipe
abbrev pub set_vot_pipe : List Replica → ℕ → ℕ → VotePipe → List Replica
set_vot_pipe reps r p pipe =
    set reps r (record (rep_at reps r) { vot_pipes = set (rep_at reps r).vot_pipes p pipe })
