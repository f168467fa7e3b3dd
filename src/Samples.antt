-- ===== src/Samples.antt =====
-- Concrete values for the tests: a system whose calls all succeed, and replicas that have put out
-- one byte each.
pub mod Scan
use pint.Common.{
  ℕ, zero, suc, ◌<◌, ◌≡◌, refl, sym, ◌∙◌, true, List, [], ◌∷◌, none, some, arith, set, length-set,
  length-replicate,
}
use pint.Common.Int.{pos}
use pint.Os.{Os}
use pint.VoteBuff.{VotePipe, Replication, max_buff}
use pint.VoteBuff.Contents.{IsValid}
use pint.Replicas.Types.{Replica, zeros, blank_pipe, blank_replica, blank_ext, vot_pipe}
use pint.Replicas.Slots.{HasSlot}
use pint.Replicas.Wellformed.{blank_pipe-IsValid, PipesValid}
use pint.Voter.State.{Voter}

-- Every read brings the bytes 1, 2, 3.
abbrev pub os : Os
os = record {
  read_answer = λ w fd max. some (1 ∷ 2 ∷ 3 ∷ []);
  write_answer = λ w fd bytes. pos 3;
  pipe_answer = λ w. some (4, 5);
  fork_answer = λ w. pos 100;
  accept_answer = λ w. some 6;
  send_fds_answer = λ w. true;
  read_pid_answer = λ w. some (pos 101);
  sched_answer = λ w pid priority. true;
  nice_answer = λ w pid nice. true;
  priority_max = pos 99;
  select_answer = λ w. none;
  wait_answer = λ w. pos 0;
  time_answer = λ w. 0;
  remaining = λ timeout start now. timeout;
  decimal = λ z. "0";
}

-- A pipe that holds the byte b.
abbrev pub holding : ℕ → VotePipe
holding b = record blank_pipe { buff_count = 1; fd_in = 7; buffer = set (zeros max_buff) 0 b }

pub holding-IsValid : (b : ℕ) → IsValid (holding b)
unfolding zeros
holding-IsValid b = record {
  sized = length-set (zeros max_buff) 0 b ∙ length-replicate {A = ℕ} max_buff 0;
  index_in = omega arith;
  count_in = omega arith;
}

abbrev pub replica : ℕ → Replica
replica b = record blank_replica { pipe_count = 1; vot_pipes = holding b ∷ [] }

abbrev pub trio : ℕ → ℕ → ℕ → List Replica
trio a b c = replica a ∷ replica b ∷ replica c ∷ []

abbrev pub voter : Replication → ℕ → List Replica → Voter
voter type count reps = record {
  voting_timeout = pos 1000;
  timer_start_index = 1;
  timer_stop_index = 0;
  timer_started = true;
  watchdog = 0;
  last_dead = pos 0;
  replicas = reps;
  voter_priority = pos 5;
  replica_priority = pos 5;
  sock_fd = 3;
  rep_type = type;
  rep_count = count;
  controller_name = "ArtPot";
  pipe_count = 1;
  ext_pipes = record blank_ext { fd_out = 9 } ∷ [];
  log = [];
}

pub trio-IsValid : (a b c r : ℕ) → IsValid (vot_pipe (trio a b c) r 0)
trio-IsValid a b c zero = holding-IsValid a
trio-IsValid a b c (suc zero) = holding-IsValid b
trio-IsValid a b c (suc (suc zero)) = holding-IsValid c
trio-IsValid a b c (suc (suc (suc r))) = blank_pipe-IsValid

pub trio-PipesValid : (a b c : ℕ) → PipesValid (trio a b c)
trio-PipesValid a b c r zero = trio-IsValid a b c r
trio-PipesValid a b c zero (suc p) = blank_pipe-IsValid
trio-PipesValid a b c (suc zero) (suc p) = blank_pipe-IsValid
trio-PipesValid a b c (suc (suc zero)) (suc p) = blank_pipe-IsValid
trio-PipesValid a b c (suc (suc (suc r))) (suc p) = blank_pipe-IsValid

at_start : (a b c r : ℕ) → (vot_pipe (trio a b c) r 0).buff_index ≡ 0
at_start a b c zero = refl
at_start a b c (suc zero) = refl
at_start a b c (suc (suc zero)) = refl
at_start a b c (suc (suc (suc r))) = refl

pub trio-in_step :
    (a b c r s : ℕ)
    → (vot_pipe (trio a b c) r 0).buff_index ≡ (vot_pipe (trio a b c) s 0).buff_index
trio-in_step a b c r s = at_start a b c r ∙ sym (at_start a b c s)

pub trio-HasSlot : (a b c r : ℕ) → r < 3 → HasSlot (trio a b c) r 0
trio-HasSlot a b c zero lt = record { rep_in = omega arith; pipe_in = omega arith }
trio-HasSlot a b c (suc zero) lt = record { rep_in = omega arith; pipe_in = omega arith }
trio-HasSlot a b c (suc (suc zero)) lt = record { rep_in = omega arith; pipe_in = omega arith }
trio-HasSlot a b c (suc (suc (suc r))) lt = absurd (omega arith)
