-- ===== src/Components/Tests.antt =====
-- The theorem about parseArgs of controllers/art_pot.c at a concrete component.
use pint.Common.{
  ℕ, zero, suc, ◌<◌, ◌≡◌, refl, true, false, [], ◌∷◌, none, some, arith, get_or, replicate,
}
use pint.Common.Int.{pos}
use pint.VoteBuff.{none_rep}
use pint.CommTypes.Types.{range_pose_data, mov_cmd}
use pint.CommTypes.Serial.{HasIntFds}
use pint.FdClient.Connect.{Server}
use pint.Plumber.{Component, no_pipe, launch_argv}
use pint.Samples.Scan.{printing, scanf, scanf-ReadsBack}
use pint.Components.{Globals, art_pot_args}
use pint.Components.Launched.{Ready, art_pot_args-launch_argv}

abbrev pilot : Component
pilot = record {
  name = "pilot";
  value = "ArtPot";
  priority = "11";
  rep_strat = none_rep;
  voter_name = none;
  voter_timer = none;
  pipe_count = 2;
  timed = true ∷ true ∷ [];
  pipes =
      record { type = range_pose_data; fd_in = 5; fd_out = 0 }
      ∷ record { type = mov_cmd; fd_in = 0; fd_out = 6 }
      ∷ [];
}

pilot-HasIntFds : (i : ℕ) → i < 2 → HasIntFds (get_or pilot.pipes i no_pipe)
pilot-HasIntFds zero lt = record { in_fits = omega arith; out_fits = omega arith }
pilot-HasIntFds (suc zero) lt = record { in_fits = omega arith; out_fits = omega arith }
pilot-HasIntFds (suc (suc i)) lt = absurd (omega arith)

abbrev no_server : Server
no_server = record {
  allocates = false;
  socket = none;
  name_fits = false;
  connects = false;
  brings = none;
  takes_pid = false;
}

abbrev unset : Globals
unset = record { priority = pos 0; pipe_count = pos 4; pipes = replicate 4 no_pipe }

art_pot_args-launch_argv_example :
    (st : Globals) × (art_pot_args scanf no_server (pos 9) (launch_argv printing pilot) unset []
      ≡ some (st, []))
    × Ready scanf pilot 4 st
art_pot_args-launch_argv_example =
    art_pot_args-launch_argv printing scanf scanf-ReadsBack pilot pilot-HasIntFds refl refl
      no_server (pos 9) unset [] (omega arith) (omega arith) refl
