-- ===== src/ArtPot.antt =====
-- controllers/art_pot.c: the controller that steers to a goal and away from obstacles. A double is a
-- parameter with the operations that the code applies. `none` is a use of pipes[-1].

pub mod Rounds
pub mod Steering
pub mod Arrivals
pub mod Waypoints
pub mod Served
mod Tests
use pint.Common.{
  ℕ, ◌+◌, Bool, false, ◌&&◌, List, Option, none, some, if◌then◌else◌, get_or, set, for_up, ◌>>=◌,
}
use pint.Os.{Os, Log}
use pint.CommTypes.Types.{TypedPipe, comm_ack, range_pose_data, mov_cmd, way_res, way_req}
use pint.CommTypes.Fixed.{comm_send_move_command, comm_send_waypoint_request, ranger_count}

-- Doubles, with the constants of the build for GRID_NUM 80 that are no whole numbers.
pub record Doubles (D : Type 0) : Type 0 where
  pub whole : ℕ → D
  pub plus : D → D → D
  pub minus : D → D → D
  pub times : D → D → D
  pub over : D → D → D
  pub negate : D → D
  pub square : D → D
  pub sqrt : D → D
  pub sin : D → D
  pub cos : D → D
  pub atan2 : D → D → D
  pub fabs : D → D
  pub lt : D → D → Bool
  pub le : D → D → Bool
  pub m_pi : D
  pub dist_epsilon : D
  pub goal_extent : D
  pub obst_radius : D
  pub obst_extent : D
  pub double_bytes : D → List ℕ

abbrev pub pipe_count_max : ℕ
pipe_count_max = 4

-- The globals that change.
pub record ArtPot (D : Type 0) : Type 0 where
  pub goal : List D
  pub next_goal : List D
  pub position : List D
  pub ranges : List D
  pub insert_sdc : Bool

-- `none` is -1.
pub record PipeIndexes : Type 0 where
  pub data_index : ℕ
  pub out_index : ℕ
  pub way_res_index : Option ℕ
  pub way_req_index : Option ℕ

abbrev pub no_pipe : TypedPipe
no_pipe = record { type = comm_ack; fd_in = 0; fd_out = 0 }

unfoldable pub set_pipe_index : List TypedPipe → ℕ → PipeIndexes → PipeIndexes
set_pipe_index pipes i indexes = elim ((get_or pipes i no_pipe).type) [
  | range_pose_data ↦ record indexes { data_index = i }
  | mov_cmd ↦ record indexes { out_index = i }
  | way_res ↦ record indexes { way_res_index = some i }
  | way_req ↦ record indexes { way_req_index = some i }
  | _ ↦ indexes
]

unfoldable pub set_pipe_indexes : List TypedPipe → ℕ → PipeIndexes → PipeIndexes
unfolding set_pipe_index
set_pipe_indexes pipes pipe_count indexes =
    for_up pipe_count 0 (set_pipe_index pipes)
      (record indexes { way_req_index = none; way_res_index = none })

module _ {D : Type 0} (d : Doubles D) where
  open d use {whole, plus, minus, times, over, negate, square, sqrt, sin, cos, atan2, fabs, lt, le}

  abbrev pub entry : List D → ℕ → D
  entry l i = get_or l i (whole 0)

  -- The way to the goal.
  abbrev pub goal_dist : ArtPot D → D
  goal_dist st = sqrt (
      plus (square (minus (entry st.goal 0) (entry st.position 0)))
        (square (minus (entry st.goal 1) (entry st.position 1))))

  abbrev pub goal_theta : ArtPot D → D
  goal_theta st =
      minus
        (atan2 (minus (entry st.goal 1) (entry st.position 1))
          (minus (entry st.goal 0) (entry st.position 0)))
        (entry st.position 2)

  abbrev pub arrived : ArtPot D → Bool
  arrived st = le (goal_dist st) d.dist_epsilon

  -- The next goal becomes the goal.
  unfoldable pub advance : ArtPot D → ArtPot D
  advance st = record st {
    goal =
        set (set (set st.goal 0 (entry st.next_goal 0)) 1 (entry st.next_goal 1)) 2
          (entry st.next_goal 2);
  }

  -- The pull of the goal: delta_x, delta_y and total_factors.
  unfoldable pub pull : D → D → D × D × ℕ
  pull dist theta =
      let near = times (whole 1) (minus dist (whole 0)) in
      if lt dist (whole 0)
      then (whole 0, whole 0, 0)
      else if le (whole 0) dist && le dist (plus d.goal_extent (whole 0))
      then (times near (cos theta), times near (sin theta), 1)
      else (times (whole 1) (cos theta), times (whole 1) (sin theta), 1)

  -- The push of the obstacle that ray i hits.
  unfoldable pub push_away : List D → ℕ → D × D × ℕ → D × D × ℕ
  push_away ranges i (delta_x, delta_y, total_factors) =
      let tao = over (times (times (whole 2) d.m_pi) (whole i)) (whole ranger_count) in
      let obs_x = times (entry ranges i) (cos tao) in
      let obs_y = times (entry ranges i) (sin tao) in
      let dist = sqrt (plus (square obs_x) (square obs_y)) in
      let theta = atan2 obs_y obs_x in
      let extent = plus d.obst_extent d.obst_radius in
      let force = times (negate (whole 1)) (minus extent dist) in
      if le dist extent
      then (
        plus delta_x (times force (cos theta)),
        plus delta_y (times force (sin theta)),
        total_factors + 1,
      )
      else (delta_x, delta_y, total_factors)

  -- vel_cmd, for the goal that the robot heads to.
  unfoldable pub velocity : ArtPot D → D × D
  unfolding pull push_away
  velocity st =
      let (sum_x, sum_y, total_factors) =
        for_up ranger_count 0 (push_away st.ranges) (pull (goal_dist st) (goal_theta st)) in
      let delta_x = over sum_x (whole total_factors) in
      let delta_y = over sum_y (whole total_factors) in
      let speed = sqrt (plus (square delta_x) (square delta_y)) in
      let turn = atan2 delta_y delta_x in
      if lt d.dist_epsilon (goal_dist st)
      then (
        if lt (fabs turn) (whole 1) then times (whole 2) speed else whole 0,
        times (whole 2) turn,
      )
      else (whole 0, whole 0)

  module _ (os : Os) (pipes : List TypedPipe) (indexes : PipeIndexes) where
    -- The commands to the robot, and the end of an injected fault.
    unfoldable pub send_velocity : ArtPot D → Log → ArtPot D × Log
    unfolding comm_send_move_command
    send_velocity st w =
        let vel_cmd = velocity st in
        let speed = if st.insert_sdc then plus vel_cmd.0 (whole 1) else vel_cmd.0 in
        (
          record st { insert_sdc = false },
          (comm_send_move_command (whole 0) d.double_bytes os
              (get_or pipes indexes.out_index no_pipe) speed vel_cmd.1 w).1,
        )

    -- A request for waypoints.
    unfoldable pub request_way : Log → Option Log
    unfolding comm_send_waypoint_request
    request_way w = elim indexes.way_req_index [
      | none ↦ none
      | some i ↦ some (comm_send_waypoint_request os (get_or pipes i no_pipe) w).1
    ]

    unfoldable pub command : ArtPot D → Log → Option (ArtPot D × Log)
    unfolding advance send_velocity request_way
    command st w =
        if arrived st
        then (request_way w >>= λ w'. some (send_velocity (advance st) w'))
        else some (send_velocity st w)
