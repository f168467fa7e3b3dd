-- ===== src/ArtPot/Tests.antt =====
-- The theorems about controllers/art_pot.c at concrete states, with numbers for doubles.
use pint.Common.{
  ℕ, zero, suc, ◌+◌, ◌-◌, ◌*◌, ◌/◌, ◌<◌, ◌≡◌, ◌≢◌, refl, true, false, List, [], ◌∷◌, ◌++◌, none,
  some, arith, ltb, leb, get_or, replicate, for_up,
}
use pint.Common.Int.{pos, pos_part}
use pint.Os.{Os, reads, writes, selects, contains}
use pint.CommTypes.Types.{
  TypedPipe, way_req, way_res, mov_cmd, range_pose_data, map_update, comm_ack,
}
use pint.CommTypes.Bytes.{int_bytes}
use pint.CommTypes.Fixed.{message_index, doubles_bytes}
use pint.Mapping.{Node, null, cell, peek}
use pint.Mapping.Sorted.{IsTidy, IsCell}
use pint.Planner.Grid
use pint.Planner.Command
use pint.Planner.Command.{AStar, loop_round}
use pint.Samples
use pint.ArtPot.{
  Doubles, ArtPot, PipeIndexes, no_pipe, set_pipe_indexes, pipe_count_max, advance, velocity,
  command,
}
use pint.ArtPot.Rounds.{Decoders, art_round}
use pint.ArtPot.Waypoints.{IsLayout}
use pint.ArtPot.Served.{command_halts, way_served}

abbrev d : Doubles ℕ
d = record {
  whole = λ n. n;
  plus = λ a b. a + b;
  minus = λ a b. a - b;
  times = λ a b. a * b;
  over = λ a b. a / b;
  negate = λ a. a;
  square = λ a. a * a;
  sqrt = λ a. a;
  sin = λ a. a;
  cos = λ a. a;
  atan2 = λ a b. a;
  fabs = λ a. a;
  lt = ltb;
  le = leb;
  m_pi = 3;
  dist_epsilon = 1;
  goal_extent = 1;
  obst_radius = 1;
  obst_extent = 1;
  double_bytes = λ n. n ∷ replicate 7 0;
}

abbrev from : Decoders ℕ
from = record {
  ranger = λ l. record { ranges = replicate 16 0; pose = replicate 3 0 };
  waypoints = λ l. record {
    point = get_or l 0 0 ∷ get_or l 8 0 ∷ get_or l 16 0 ∷ [];
    n_point = get_or l 24 0 ∷ get_or l 32 0 ∷ get_or l 40 0 ∷ [];
  };
}

layout : IsLayout d from
unfolding doubles_bytes
layout = record { eight = λ x. refl; places = λ x y n_x n_y. refl }

abbrev pipes : List TypedPipe
pipes =
    record { type = range_pose_data; fd_in = 5; fd_out = 0 }
    ∷ record { type = mov_cmd; fd_in = 0; fd_out = 6 }
    ∷ record { type = way_req; fd_in = 0; fd_out = 7 }
    ∷ record { type = way_res; fd_in = 8; fd_out = 0 }
    ∷ []

abbrev indexes : PipeIndexes
indexes = record { data_index = 0; out_index = 1; way_req_index = some 2; way_res_index = some 3 }

indexes_set : set_pipe_indexes pipes 4 indexes ≡ indexes
unfolding set_pipe_indexes for_up
indexes_set = refl

-- The robot stands at its goal, which is its next goal also.
abbrev robot : ArtPot ℕ
robot = record {
  goal = 2 ∷ 2 ∷ 0 ∷ [];
  next_goal = 2 ∷ 2 ∷ 0 ∷ [];
  position = 2 ∷ 2 ∷ 0 ∷ [];
  ranges = replicate 16 1;
  insert_sdc = false;
}

no_request : (i : ℕ) → i < 2 → (get_or pipes i no_pipe).type ≢ way_req
no_request zero lt = λ e. cc
no_request (suc zero) lt = λ e. cc
no_request (suc (suc i)) lt = absurd (omega arith)

leb-ltb : (a b : ℕ) → leb a b ≡ true → ltb b a ≡ false
leb-ltb a b h = ground arith

command_halts_example :
    command d Samples.os pipes indexes robot []
    ≡ some (robot, writes 6 (replicate 16 0) ∷ writes 7 (int_bytes (pos 0)) ∷ [])
unfolding message_index doubles_bytes advance
command_halts_example =
    command_halts d Samples.os pipes indexes 2 refl refl refl robot [] leb-ltb refl refl refl

abbrev planner_pipes : List TypedPipe
planner_pipes =
    record { type = map_update; fd_in = 10; fd_out = 0 }
    ∷ record { type = way_req; fd_in = 11; fd_out = 0 }
    ∷ record { type = way_res; fd_in = 0; fd_out = 12 }
    ∷ record { type = comm_ack; fd_in = 0; fd_out = 13 }
    ∷ []

abbrev planner_indexes : Command.PipeIndexes
planner_indexes = record { updates_index = 0; ack_index = 3; way_res_index = 2; way_req_index = 1 }

abbrev first : Node ℕ
first = record { x = pos 3; y = pos 4; g_score = 0; back_link = none }

abbrev second : Node ℕ
second = record first { x = pos 4 }

abbrev plan : AStar ℕ
plan = record {
  obstacle_map = [];
  pose_x = pos 3;
  pose_y = pos 4;
  goal_path = cell (some first) 0 (cell (some second) 0 null);
  current_goal = none;
  n_current_goal = none;
  fake_hash = pos 0;
  insert_sdc = false;
  recv_map_update = record {
    pose_x = pos 0;
    pose_y = pos 0;
    obs_count = pos 0;
    obs_x = [];
    obs_y = [];
  };
}

abbrev place : ℕ → List ℕ
place n = n ∷ replicate 7 0

abbrev message : List ℕ
message = place 3 ++ (place 4 ++ (place 0 ++ (place 4 ++ (place 4 ++ place 0))))

abbrev planner_doubles : Grid.Doubles ℕ
planner_doubles = record {
  zero_score = 0;
  plus = λ a b. a + b;
  gt = λ a b. ltb b a;
  est_distance = λ x y x' y'. 0;
  degridify = λ z. pos_part z;
  seven = 7;
  double_bytes = place;
}

abbrev planner_os : Os
planner_os = record Samples.os {
  select_answer = λ w. some (11 ∷ []);
  read_answer = λ w fd max. some (int_bytes (pos 0));
}

abbrev robot_os : Os
robot_os = record Samples.os {
  select_answer = λ w. some (8 ∷ []);
  read_answer = λ w fd max. some message;
}

abbrev halt : List ℕ
halt = replicate 16 0

way_served_example :
    (command d robot_os pipes indexes robot []
      ≡ some (robot, writes 6 halt ∷ writes 7 (int_bytes (pos 0)) ∷ []))
    × ((plan' : AStar ℕ) × (loop_round planner_doubles
            (pos 9)
            (pos 9)
            planner_os
            planner_pipes
            planner_indexes
            plan
            []
          ≡ some
              (plan', writes 12 message ∷ reads 11 4 ∷ selects (10 ∷ 11 ∷ []) (pos 1000000) ∷ [])))
    × (art_round d from robot_os pipes pipe_count_max indexes robot []
        ≡ some (
          record robot { goal = 3 ∷ 4 ∷ 0 ∷ []; next_goal = 4 ∷ 4 ∷ 0 ∷ [] },
          reads 8 48 ∷ selects (5 ∷ 8 ∷ []) (pos 1000000) ∷ [],
        ))
unfolding message_index doubles_bytes advance velocity contains IsCell IsTidy peek
way_served_example =
    way_served d robot_os pipes indexes 2 refl refl refl from planner_doubles (pos 9) (pos 9)
      planner_os planner_pipes planner_indexes refl 3 robot robot plan first second [] [] []
      (11 ∷ []) (8 ∷ []) refl refl (record { is_cell = tt; tidy = tt }) refl refl refl refl refl
      refl layout refl refl refl refl refl refl refl
