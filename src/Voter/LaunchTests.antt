-- ===== src/Voter/LaunchTests.antt =====
-- The theorems about the start of voter/voterd.c at a concrete component.
use pint.Common.{
  take, refl, none, Option, List, ℕ, zero, suc, ◌<◌, ◌≡◌, true, [], ◌∷◌, some, arith, OnSome,
}
use pint.VoteBuff.{tmr}
use pint.CommTypes.Types.{range_pose_data, mov_cmd}
use pint.CommTypes.Serial.{HasIntFds}
use pint.Plumber.{Component, launch_argv}
use pint.Samples.Scan.{printing, scanf, scanf-ReadsBack}
use pint.Voter.State.{Voter}
use pint.Voter.Arguments.{parse_args, start_voter}
use pint.Voter.Configured.{Configured, pipe_of, parse_args-launch_argv}
use pint.Os.{Os}
use pint.Voter.Boot.{Run, RunsValid, miscounted, main, main-Valid}

-- A controller in three copies that gets ranges and answers with commands, both timed.
abbrev pilot : Component
pilot = record {
  name = "pilot";
  value = "ArtPot";
  priority = "11";
  rep_strat = tmr;
  voter_name = some "VoterD";
  voter_timer = some "";
  pipe_count = 2;
  timed = true ∷ true ∷ [];
  pipes =
      record { type = range_pose_data; fd_in = 5; fd_out = 0 }
      ∷ record { type = mov_cmd; fd_in = 0; fd_out = 6 }
      ∷ [];
}

pilot-HasIntFds : (i : ℕ) → i < 2 → HasIntFds (pipe_of pilot i)
pilot-HasIntFds zero lt = record { in_fits = omega arith; out_fits = omega arith }
pilot-HasIntFds (suc zero) lt = record { in_fits = omega arith; out_fits = omega arith }
pilot-HasIntFds (suc (suc i)) lt = absurd (omega arith)

parse_args-launch_argv_example :
    (v : Voter) × (parse_args scanf (launch_argv printing pilot) start_voter ≡ some v)
    × Configured scanf pilot v
parse_args-launch_argv_example =
    parse_args-launch_argv printing scanf pilot scanf-ReadsBack (λ e. cc) (omega arith)
      pilot-HasIntFds

-- Reads bring as many bytes as are asked for, of three.
abbrev reading : Os
reading = record printing { read_answer = λ w fd max. some (take max (1 ∷ 2 ∷ 3 ∷ [])) }

-- Every read fails.
abbrev failing : Os
failing = record printing { read_answer = λ w fd max. none }

abbrev failed_pipes : Option Run → List (ℕ × ℕ)
failed_pipes (some (miscounted v failed)) = failed
failed_pipes o = []

-- The voter misses a count for the commands of each replica.
all_failed :
    failed_pipes (main failing scanf 9 (launch_argv printing pilot) 3)
    ≡ ((0, 1) ∷ (1, 1) ∷ (2, 1) ∷ [])
unfolding main launch_argv pint.Common.for_up pint.Replicas.Start.introduce
    pint.Replicas.Start.fork_replicas pint.Replicas.Start.create_pipes
    pint.Replicas.Start.init_replicas pint.Replicas.Start.fork_replica
    pint.Replicas.Start.create_pipes_of pint.Replicas.Start.init_replica
all_failed = refl

main-Valid_example : OnSome RunsValid (main reading scanf 9 (launch_argv printing pilot) 3)
main-Valid_example = main-Valid reading (λ w fd. refl) scanf 9 (launch_argv printing pilot) 3
