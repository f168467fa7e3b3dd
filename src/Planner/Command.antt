-- ===== src/Planner/Command.antt =====
-- `command`, sendWaypoints and the loop of controllers/a_star.c: the planner's state and what it
-- sends. `none` is a read through NULL or an access outside an array.
use pint.Common.{
  ℕ, zero, suc, ◌+◌, Bool, true, false, ◌&&◌, List, [], ◌∷◌, Option, none, some, ltb, if◌then◌else◌,
  length, get_or, set, for_up, ◌>>=◌,
}
use pint.Common.Int.{ℤ, pos, negsuc, pos_part, ltb_ℤ, ◌+ℤ◌}
use pint.Os.{Os, Log, read, selects, contains}
use pint.CommTypes.Types.{TypedPipe, way_req, way_res, map_update, comm_ack}
use pint.CommTypes.Messages.{MapUpdate, comm_recv_map_update}
use pint.CommTypes.Fixed.{comm_send_waypoints, comm_send_ack}
use pint.Mapping.{Node, Chain, null, cell, nodes_equal, peek, pop, erase_list}
use pint.Planner.Grid.{Grid, Doubles, grid_num}
use pint.Planner.Search.{
  Outcome, found, exhausted, fault, out_of_fuel, start_sets, search, search_fuel, extract,
}

-- The globals of the planner, and `recv_map_update` of its loop.
pub record AStar (D : Type 0) : Type 0 where
  pub obstacle_map : Grid
  pub pose_x : ℤ
  pub pose_y : ℤ
  pub goal_path : Chain D
  pub current_goal : Option (Node D)
  pub n_current_goal : Option (Node D)
  pub fake_hash : ℤ
  pub insert_sdc : Bool
  pub recv_map_update : MapUpdate

-- Which entry of `pipes` has which part.
pub record PipeIndexes : Type 0 where
  pub updates_index : ℕ
  pub ack_index : ℕ
  pub way_res_index : ℕ
  pub way_req_index : ℕ

abbrev pub pipe_count : ℕ
pipe_count = 4

abbrev pub no_pipe : TypedPipe
no_pipe = record { type = comm_ack; fd_in = 0; fd_out = 0 }

-- One round of the loop of setPipeIndexes.
unfoldable pub set_pipe_index : List TypedPipe → ℕ → PipeIndexes → PipeIndexes
set_pipe_index pipes i indexes = elim ((get_or pipes i no_pipe).type) [
  | map_update ↦ record indexes { updates_index = i }
  | comm_ack ↦ record indexes { ack_index = i }
  | way_res ↦ record indexes { way_res_index = i }
  | way_req ↦ record indexes { way_req_index = i }
  | _ ↦ indexes
]

unfoldable pub set_pipe_indexes : List TypedPipe → PipeIndexes → PipeIndexes
unfolding set_pipe_index
set_pipe_indexes pipes indexes = for_up pipe_count 0 (set_pipe_index pipes) indexes

-- A write to obstacle_map.
unfoldable pub write_map : Grid → ℤ → ℤ → Option Grid
write_map map (pos x) (pos y) =
    if ltb x grid_num && ltb y grid_num
    then some (set map x (set (get_or map x []) y true))
    else none
write_map map (pos x) (negsuc y) = none
write_map map (negsuc x) y = none

-- The loop over the obstacles of an update.
unfoldable pub mark_obstacles : ℕ → ℕ → MapUpdate → Grid → Option Grid
unfolding write_map
mark_obstacles zero index msg map = some map
mark_obstacles (suc rounds) index msg map =
    write_map map (get_or msg.obs_x index (pos 0)) (get_or msg.obs_y index (pos 0))
    >>= mark_obstacles rounds (index + 1) msg

module _ {D : Type 0} (d : Doubles D) (goal_x goal_y : ℤ) (os : Os) (pipes : List TypedPipe)
    (indexes : PipeIndexes) where
  unfoldable pub send_points : D → D → D → D → Log → Log
  unfolding comm_send_waypoints
  send_points x y n_x n_y w =
      (comm_send_waypoints d.zero_score d.double_bytes os
        (get_or pipes indexes.way_res_index no_pipe) x y d.zero_score n_x n_y d.zero_score w).1

  unfoldable pub send_waypoints : AStar D → Log → Option (AStar D × Log)
  unfolding send_points
  send_waypoints st w = elim (pop d.zero_score st.goal_path) [
    | none ↦ none
    | some (none, rest) ↦ some (
      record st { goal_path = rest; current_goal = none; n_current_goal = none },
      send_points d.seven d.seven d.seven d.seven w,
    )
    | some (some now, rest) ↦ elim (pop d.zero_score rest) [
      | none ↦ none
      | some (none, rest') ↦
          some (record st { goal_path = rest'; current_goal = some now; n_current_goal = none }, w)
      | some (some next, rest') ↦ some (
        record st { goal_path = rest'; current_goal = some now; n_current_goal = some next },
        send_points (d.degridify now.x) (d.degridify now.y) (d.degridify next.x)
            (d.degridify next.y) w,
      )
    ]
  ]

  -- A path that begins as the one that was sent before is not sent again.
  unfoldable pub offer_path : AStar D → Log → Option (AStar D × Log)
  unfolding send_waypoints
  offer_path st w =
      if nodes_equal (peek st.goal_path 0) st.current_goal
        && nodes_equal (peek st.goal_path 1) st.n_current_goal
      then some (st, w)
      else send_waypoints st w

  -- What follows the search. The back links go through at most all the nodes that were expanded,
  -- and `search_fuel` rounds are enough, so running out of fuel is no case of the code.
  unfoldable pub finish : AStar D → Log → Outcome D → Option (AStar D × Log)
  unfolding offer_path
  finish st w (found current s) = erase_list d.zero_score st.goal_path >>= λ empty.
      extract d st.obstacle_map goal_x goal_y (length s.expanded + 1) s.expanded current empty
      >>= λ path. offer_path (record st { goal_path = path }) w
  finish st w (exhausted s) = some (st, w)
  finish st w fault = none
  finish st w out_of_fuel = none

  unfoldable pub command : AStar D → Log → Option (AStar D × Log)
  unfolding start_sets finish
  command st w = start_sets d st.obstacle_map goal_x goal_y st.pose_x st.pose_y >>= λ s.
      finish st w (search d st.obstacle_map goal_x goal_y search_fuel s)

  -- The state that a received map update leaves.
  unfoldable pub placed : AStar D → MapUpdate → Grid → AStar D
  unfolding ◌+ℤ◌
  placed st msg map = record st {
    recv_map_update = msg;
    obstacle_map = map;
    pose_x = msg.pose_x;
    pose_y = msg.pose_y;
    fake_hash = if st.insert_sdc then st.fake_hash +ℤ pos 1 else st.fake_hash;
    insert_sdc = false;
  }

  -- The acknowledgement of an update, and a new path if it has obstacles.
  unfoldable pub answer_update : AStar D → Log → Option (AStar D × Log)
  unfolding comm_send_ack command
  answer_update st w =
      let w' = (comm_send_ack os (get_or pipes indexes.ack_index no_pipe) st.fake_hash w).1 in
      if ltb_ℤ (pos 0) st.recv_map_update.obs_count then command st w' else some (st, w')

  -- What the loop does with a map update.
  unfoldable pub on_map_update : AStar D → Log → Option (AStar D × Log)
  unfolding comm_recv_map_update mark_obstacles answer_update placed
  on_map_update st w =
      let (read_ret, msg, w1) =
        comm_recv_map_update os (get_or pipes indexes.updates_index no_pipe) st.recv_map_update w in
      if ltb_ℤ (pos 0) read_ret
      then (mark_obstacles (pos_part msg.obs_count) 0 msg st.obstacle_map >>= λ map.
          answer_update (placed st msg map) w1)
      else some (record st { recv_map_update = msg }, w1)

  -- The answer to a request, for the list goal_path.
  unfoldable pub answer_request : Chain D → AStar D → Log → Option (AStar D × Log)
  unfolding send_points send_waypoints
  answer_request null st w = none
  answer_request (cell none val rest) st w =
      some (st, send_points d.seven d.seven d.seven d.seven w)
  answer_request (cell (some n) val rest) st w = send_waypoints st w

  -- What the loop does with a request, which is sizeof(struct comm_way_req) bytes.
  unfoldable pub on_way_req : AStar D → Log → Option (AStar D × Log)
  unfolding read answer_request
  on_way_req st w =
      let (answer, w1) = read os (get_or pipes indexes.way_req_index no_pipe).fd_in 4 w in
      elim answer [
        | none ↦ some (st, w1)
        | some [] ↦ some (st, w1)
        | some (b ∷ bytes) ↦ answer_request st.goal_path st w1
      ]

  -- One round of enterLoop.
  unfoldable pub loop_round : AStar D → Log → Option (AStar D × Log)
  unfolding on_map_update on_way_req
  loop_round st w =
      let updates = (get_or pipes indexes.updates_index no_pipe).fd_in in
      let requests = (get_or pipes indexes.way_req_index no_pipe).fd_in in
      let w1 : Log = selects (updates ∷ requests ∷ []) (pos 1000000) ∷ w in
      elim (os.select_answer w1) [
        | none ↦ some (st, w1)
        | some ready ↦
            (if contains ready updates then on_map_update st w1 else some (st, w1)) >>= λ r.
            (if contains ready requests then on_way_req r.0 r.1 else some r)
      ]
