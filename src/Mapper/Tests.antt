-- ===== src/Mapper/Tests.antt =====
-- The theorems about controllers/mapper.c at a concrete reading, with numbers for doubles.
use pint.Common.{
  OnSome, zero, suc, ◌<◌, Returns, ℕ, ◌+◌, ◌≡◌, refl, false, ltb, [], ◌∷◌, some, arith, get_or, set,
  List, none, ◌==◌, if◌then◌else◌, take, drop, replicate,
}
use pint.Common.Int.{pos}
use pint.CommTypes.Types.{TypedPipe, range_pose_data, map_update, comm_ack}
use pint.CommTypes.Messages.{comm_send_map_update, update_ints}
use pint.CommTypes.Fixed.{RangePoseData}
use pint.Os.{Os, Log, writes}
use pint.CommTypes.Bytes.{ints_bytes}
use pint.Samples
use pint.Mapping.{null, cell}
use pint.Planner.Grid.{Doubles, grid_num}
use pint.Planner.Command.{AStar, PipeIndexes, answer_update, on_map_update}
use pint.Mapper.{Mapper, Geometry, start_mapper, obs_room, update_map}
use pint.Mapper.Squares.{set_entry}
use pint.Mapper.Agree.{Agree}
use pint.Planner.Placed.{PlacedAt}
use pint.Mapper.Delivered.{update_delivered}
use pint.Mapper.Start.{empty_map, start-HasRoom, start-Agree}
use pint.VoteBuff.{none_rep}
use pint.CommTypes.Serial.{HasIntFds, ReadsBack}
use pint.FdClient.Connect.{Server}
use pint.Plumber.{Component, no_pipe, launch_argv}
use pint.Samples.Scan.{printing, scanf, scanf-ReadsBack}
use pint.Mapper.Tracked.{Tracked}
use pint.Mapper.Rounds.{mapper_rounds-Tracked}
use pint.Mapper.Run.{no_fault, sdc, cfe, mapper_rounds, mapper_main}
use pint.Mapper.Start.{mapper_main-Tracked}

-- Every obstacle is seen one cell from the pose.
abbrev g : Geometry ℕ
g = record {
  zero_d = 0;
  cell_of = λ n. pos n;
  obstacle_x = λ i range x y theta. x + range;
  obstacle_y = λ i range x y theta. y;
  from_bytes = λ bytes. record { ranges = bytes; pose = [] };
}

abbrev readings : RangePoseData ℕ
readings = record { ranges = replicate 16 1; pose = 40 ∷ 41 ∷ 0 ∷ [] }

abbrev pipe : TypedPipe
pipe = record { type = map_update; fd_in = 0; fd_out = 9 }

-- The 16 readings see one obstacle, which is reported when it is seen for the third time.
abbrev seen : Mapper
seen = record {
  current_x = pos 40;
  current_y = pos 41;
  obstacle_map = set_entry (replicate grid_num (replicate grid_num 0)) 41 41 3;
  send_msg = record {
    pose_x = pos 40;
    pose_y = pos 41;
    obs_count = pos 1;
    obs_x = set (replicate obs_room (pos 0)) 0 (pos 41);
    obs_y = set (replicate obs_room (pos 0)) 0 (pos 41);
  };
  insert_sdc = false;
}

abbrev wire : List ℕ
wire = ints_bytes (pos 40 ∷ pos 41 ∷ pos 1 ∷ pos 41 ∷ pos 41 ∷ [])

seen-ran : update_map g Samples.os pipe readings start_mapper [] ≡ some (seen, writes 9 wire ∷ [])
unfolding update_map start_mapper comm_send_map_update update_ints
seen-ran = refl

abbrev d : Doubles ℕ
d = record {
  zero_score = 0;
  plus = λ a b. a + b;
  gt = λ a b. ltb b a;
  est_distance = λ x y x' y'. 0;
  degridify = λ z. 0;
  seven = 7;
  double_bytes = λ n. n ∷ [];
}

abbrev planner : AStar ℕ
planner = record {
  obstacle_map = empty_map;
  pose_x = pos 0;
  pose_y = pos 0;
  goal_path = cell none 0 null;
  current_goal = none;
  n_current_goal = none;
  fake_hash = pos 42;
  insert_sdc = false;
  recv_map_update = record {
    pose_x = pos 0;
    pose_y = pos 0;
    obs_count = pos 0;
    obs_x = replicate 200 (pos 0);
    obs_y = replicate 200 (pos 0);
  };
}

abbrev pipes : List TypedPipe
pipes = record { type = map_update; fd_in = 5; fd_out = 0 } ∷ []

abbrev indexes : PipeIndexes
indexes = record { updates_index = 0; ack_index = 3; way_res_index = 2; way_req_index = 1 }

-- The kernel hands over the bytes that the mapper wrote.
abbrev loopback : Os
loopback = record Samples.os {
  read_answer = λ w fd max. if max == 12 then some (take 12 wire) else some (drop 12 wire);
}

update_delivered_example :
    (v : AStar ℕ) × (u' : Log) × (on_map_update d
        (pos 75)
        (pos 75)
        loopback
        pipes
        indexes
        planner
        []
      ≡ answer_update d (pos 75) (pos 75) loopback pipes indexes v u')
    × PlacedAt v.obstacle_map (pos 40) (pos 41) v
    × Agree seen.obstacle_map v.obstacle_map
    × OnSome
        (λ r. PlacedAt v.obstacle_map (pos 40) (pos 41) r.0)
        (on_map_update d (pos 75) (pos 75) loopback pipes indexes planner [])
update_delivered_example =
    update_delivered g d (pos 75) (pos 75) Samples.os loopback pipe pipes indexes readings
      start_mapper seen planner 1 wire [] [] start-HasRoom start-Agree seen-ran refl (omega arith)
      (record { not_above = omega arith; not_below = omega arith })
      (record { not_above = omega arith; not_below = omega arith }) (λ e. ground arith) refl
      (λ e. ground arith) refl (omega arith) (omega arith) refl refl

-- The mapper in a configuration.
abbrev cartographer : Component
cartographer = record {
  name = "map";
  value = "Mapper";
  priority = "7";
  rep_strat = none_rep;
  voter_name = none;
  voter_timer = none;
  pipe_count = 3;
  timed = [];
  pipes =
      record { type = range_pose_data; fd_in = 5; fd_out = 0 }
      ∷ record { type = map_update; fd_in = 0; fd_out = 6 }
      ∷ record { type = comm_ack; fd_in = 7; fd_out = 0 }
      ∷ [];
}

cartographer-HasIntFds : (i : ℕ) → i < 3 → HasIntFds (get_or cartographer.pipes i no_pipe)
cartographer-HasIntFds zero lt = record { in_fits = omega arith; out_fits = omega arith }
cartographer-HasIntFds (suc zero) lt = record { in_fits = omega arith; out_fits = omega arith }
cartographer-HasIntFds (suc (suc zero)) lt = record {
  in_fits = omega arith;
  out_fits = omega arith;
}
cartographer-HasIntFds (suc (suc (suc i))) lt = absurd (omega arith)

-- The ranger's data come in every round.
abbrev busy : Os
busy = record printing {
  select_answer = λ w. some (5 ∷ []);
  read_answer = λ w fd max. some (replicate 152 1);
}

busy-ReadsBack : ReadsBack busy scanf
busy-ReadsBack = record { two = scanf-ReadsBack.two; three = scanf-ReadsBack.three }

abbrev no_server : Server
no_server = record {
  allocates = false;
  socket = none;
  name_fits = false;
  connects = false;
  brings = none;
  takes_pid = false;
}

mapper_rounds-Tracked_example :
    Returns
      (λ r. Tracked 6 empty_map [] r.0 r.1)
      (mapper_rounds g busy cartographer.pipes
        (record { data_index = 0; update_index = 1; ack_index = 2 })
        (no_fault ∷ sdc ∷ cfe ∷ [])
        start_mapper
        [])
mapper_rounds-Tracked_example =
    mapper_rounds-Tracked g busy cartographer.pipes
      (record { data_index = 0; update_index = 1; ack_index = 2 }) (λ e. ground arith) refl
      (no_fault ∷ sdc ∷ cfe ∷ []) empty_map [] start_mapper start-HasRoom start-Agree

mapper_main-Tracked_example :
    Returns
      (λ r. Tracked 6 empty_map [] r.0 r.1)
      (mapper_main g busy scanf no_server
        (pos 9)
        (launch_argv busy cartographer)
        (no_fault ∷ sdc ∷ no_fault ∷ [])
        [])
mapper_main-Tracked_example =
    mapper_main-Tracked g busy scanf busy-ReadsBack cartographer cartographer-HasIntFds refl refl
      no_server (pos 9) (no_fault ∷ sdc ∷ no_fault ∷ []) [] refl refl refl refl refl
      (λ e. ground arith)
