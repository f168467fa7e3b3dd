-- ===== src/Planner/Tests.antt =====
-- The theorems about controllers/a_star.c at concrete maps, with numbers for doubles.
use pint.Common.{
  ℕ, suc, ◌+◌, ◌≡◌, ◌≢◌, ◌⊎◌, refl, true, false, List, [], ◌∷◌, Option, none, some, arith, ltb,
  length, for_up,
}
use pint.Common.Int.{ℤ, pos, pos_part, neg_part, ◌-ℤ◌}
use pint.Os.{Os, Log, reads, writes, selects, contains}
use pint.CommTypes.Types.{TypedPipe, way_req, way_res, map_update, comm_ack}
use pint.Samples
use pint.Mapping.{
  Node, Chain, null, cell, new_list, new_node, pop, node_equals, add_node, find_node, remove_node,
  erase_list, nodes_equal, peek, push,
}
use pint.Mapping.Sorted.{IsTidy, IsCell}
use pint.Planner.Grid.{Grid, Doubles, gen_neighbors}
use pint.Planner.Search.{
  Sets, Outcome, found, exhausted, out_of_fuel, start_sets, search, search_fuel, extract,
}
use pint.Planner.Walks.{IsRoute}
use pint.Planner.Ends.{search_ends}
use pint.Planner.Routes.{extract_lem}
use pint.Planner.Command.{AStar, PipeIndexes, set_pipe_indexes, command, loop_round}
use pint.Planner.Exhausted.{search_exhausted}
use pint.CommTypes.Fixed.{message_index, doubles_bytes}
use pint.Planner.Requests.{loop_round-Answered}
use pint.Planner.Aims.{Aims, command_again, command-Aims}

abbrev apart : ℤ → ℤ → ℕ
apart a b = pos_part (a -ℤ b) + neg_part (a -ℤ b)

abbrev d : Doubles ℕ
d = record {
  zero_score = 0;
  plus = λ a b. a + b;
  gt = λ a b. ltb b a;
  est_distance = λ x y x' y'. apart x x' + apart y y';
  degridify = λ z. pos_part z;
  seven = 7;
  double_bytes = λ n. n ∷ [];
}

-- No obstacles.
abbrev open_map : Grid
open_map = []

search_ends_example :
    (s : Sets ℕ) × (start_sets d open_map (pos 3) (pos 1) (pos 1) (pos 1) ≡ some s)
    × (search d open_map (pos 3) (pos 1) search_fuel s ≢ out_of_fuel)
unfolding new_node
search_ends_example =
    search_ends d open_map (pos 3) (pos 1) (pos 1) (pos 1)
      (record { x_low = refl; x_high = omega arith; y_low = refl; y_high = omega arith })

abbrev start : Node ℕ
start = record { x = pos 1; y = pos 1; g_score = 0; back_link = none }

abbrev first_sets : Sets ℕ
first_sets = record {
  open_set = cell (some start) 2 null;
  closed_set = cell none 0 null;
  expanded = [];
}

abbrev found_node : Outcome ℕ → Node ℕ
found_node (found n s) = n
found_node _ = start

abbrev found_sets : Outcome ℕ → Sets ℕ
found_sets (found n s) = s
found_sets _ = first_sets

-- The goal is two cells to the right of the pose.
abbrev outcome : Outcome ℕ
outcome = search d open_map (pos 3) (pos 1) 5 first_sets

extract_lem_example :
    (path : Chain ℕ) × (extract d open_map
        (pos 3)
        (pos 1)
        (length (found_sets outcome).expanded + 1)
        (found_sets outcome).expanded
        (found_node outcome)
        (new_list 0)
      ≡ some path)
    × IsRoute open_map (pos 3) (pos 1) (pos 1) (pos 1) path
unfolding start_sets search ◌-ℤ◌ pop node_equals add_node gen_neighbors find_node remove_node
extract_lem_example =
    extract_lem d open_map (pos 3) (pos 1) (pos 1) (pos 1) 5 first_sets (found_sets outcome)
      (found_node outcome) refl refl

abbrev pipes : List TypedPipe
pipes =
    record { type = map_update; fd_in = 5; fd_out = 0 }
    ∷ record { type = way_req; fd_in = 6; fd_out = 0 }
    ∷ record { type = way_res; fd_in = 0; fd_out = 7 }
    ∷ record { type = comm_ack; fd_in = 0; fd_out = 8 }
    ∷ []

abbrev indexes : PipeIndexes
indexes = record { updates_index = 0; ack_index = 3; way_res_index = 2; way_req_index = 1 }

indexes_set :
    set_pipe_indexes pipes
      (record { updates_index = 9; ack_index = 9; way_res_index = 9; way_req_index = 9 })
    ≡ indexes
unfolding set_pipe_indexes for_up
indexes_set = refl

abbrev before : AStar ℕ
before = record {
  obstacle_map = open_map;
  pose_x = pos 1;
  pose_y = pos 1;
  goal_path = cell none 0 null;
  current_goal = none;
  n_current_goal = none;
  fake_hash = pos 42;
  insert_sdc = false;
  recv_map_update = record {
    pose_x = pos 0;
    pose_y = pos 0;
    obs_count = pos 0;
    obs_x = [];
    obs_y = [];
  };
}

abbrev left : Option (AStar ℕ × Log) → AStar ℕ × Log
left none = (before, [])
left (some r) = r

abbrev after : AStar ℕ × Log
after = left (command d (pos 3) (pos 1) Samples.os pipes indexes before [])

ran : command d (pos 3) (pos 1) Samples.os pipes indexes before [] ≡ some after
unfolding command search ◌-ℤ◌ pop node_equals add_node gen_neighbors find_node remove_node
    erase_list extract nodes_equal peek push
ran = refl

command_again_example :
    (u : AStar ℕ) × (command d (pos 3) (pos 1) Samples.os pipes indexes after.0 after.1
      ≡ some (u, after.1))
unfolding IsCell IsTidy
command_again_example =
    command_again d (pos 3) (pos 1) Samples.os pipes indexes before after.0 [] after.1 tt refl ran

command-Aims_example :
    ((before ≡ after.0)
      × ([] ≡ after.1)
      × (¬ ((path : Chain ℕ) × IsRoute open_map (pos 3) (pos 1) (pos 1) (pos 1) path)))
    ⊎ Aims open_map (pos 1) (pos 1) (pos 3) (pos 1) after.0.current_goal after.0.n_current_goal
unfolding IsCell IsTidy
command-Aims_example =
    command-Aims d (pos 3) (pos 1) Samples.os pipes indexes before after.0 [] after.1 tt refl ran

abbrev left_edge : AStar ℕ
left_edge = record before { pose_x = pos 0 }

-- The pose is shut in.
abbrev cage : Grid
cage = (true ∷ true ∷ true ∷ []) ∷ (true ∷ false ∷ true ∷ []) ∷ (true ∷ true ∷ true ∷ []) ∷ []

abbrev stopped : Outcome ℕ
stopped = search d cage (pos 3) (pos 1) 5 first_sets

abbrev stopped_sets : Outcome ℕ → Sets ℕ
stopped_sets (exhausted s) = s
stopped_sets _ = first_sets

search_exhausted_example : ¬ ((path : Chain ℕ) × IsRoute cage (pos 3) (pos 1) (pos 1) (pos 1) path)
unfolding start_sets search ◌-ℤ◌ pop node_equals add_node gen_neighbors find_node remove_node
search_exhausted_example =
    search_exhausted d cage (pos 3) (pos 1) (pos 1) (pos 1) 5 first_sets (stopped_sets stopped) refl
      refl

abbrev two_places : AStar ℕ
two_places = record before {
  goal_path = cell (some start) 0 (cell (some (record start { x = pos 2; y = pos 3 })) 0 null);
}

-- Only the request is there.
abbrev asking : Os
asking = record Samples.os {
  select_answer = λ w. some (6 ∷ []);
  read_answer = λ w fd max. some (0 ∷ 0 ∷ 0 ∷ 0 ∷ []);
}

abbrev asked : Log
asked = reads 6 4 ∷ selects (5 ∷ 6 ∷ []) (pos 1000000) ∷ []

loop_round-Answered_example :
    (st' : AStar ℕ) × (loop_round d (pos 3) (pos 1) asking pipes indexes two_places []
      ≡ some (st', writes 7 (1 ∷ 1 ∷ 0 ∷ 2 ∷ 3 ∷ 0 ∷ []) ∷ asked))
    × ((k : ℕ) → peek st'.goal_path k ≡ peek two_places.goal_path (suc (suc k)))
unfolding IsCell IsTidy contains message_index doubles_bytes peek
loop_round-Answered_example =
    loop_round-Answered d (pos 3) (pos 1) asking pipes indexes refl two_places [] (6 ∷ []) 0
      (0 ∷ 0 ∷ 0 ∷ []) (record { is_cell = tt; tidy = tt }) refl refl refl refl
