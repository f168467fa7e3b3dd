-- ===== src/Voter/State.antt =====
-- The globals of voter/voterd.c. The system log stands with them.
use Prim.Native.String.{String}
use pint.Common.{ℕ, Bool, List, get_or}
use pint.Common.Int.{ℤ}
use pint.Os.{Log}
use pint.VoteBuff.{Replication}
use pint.Replicas.Types.{Replica, ExtPipe, blank_ext}

pub record Voter : Type 0 where
  pub voting_timeout : ℤ
  pub timer_start_index : ℕ
  pub timer_stop_index : ℕ
  pub timer_started : Bool
  pub watchdog : ℕ
  pub last_dead : ℤ
  pub replicas : List Replica
  pub voter_priority : ℤ
  pub replica_priority : ℤ
  pub sock_fd : ℕ
  pub rep_type : Replication
  pub rep_count : ℕ
  pub controller_name : String
  pub pipe_count : ℕ
  pub ext_pipes : List ExtPipe
  pub log : Log

abbrev pub ext_pipe : Voter → ℕ → ExtPipe
ext_pipe v p = get_or v.ext_pipes p blank_ext
