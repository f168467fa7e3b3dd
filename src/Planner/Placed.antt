-- ===== src/Planner/Placed.antt =====
-- What `command` of controllers/a_star.c leaves alone: the map and the pose.
use pint.Common.{◌+◌, ◌≡◌, ◌&&◌, List, none, some, length, OnSome, OnSome-bind, OnSome-any, if_inv}
use pint.Common.Int.{ℤ, pos, ltb_ℤ}
use pint.Os.{Os, Log}
use pint.CommTypes.Types.{TypedPipe}
use pint.Mapping.{Chain, null, cell, nodes_equal, peek, pop, erase_list}
use pint.Planner.Grid.{Grid, Doubles}
use pint.Planner.Search.{
  Outcome, found, exhausted, fault, out_of_fuel, start_sets, search, search_fuel, extract,
}
use pint.Planner.Command.{
  AStar, PipeIndexes, send_waypoints, offer_path, finish, command, answer_update,
}

-- The planner is at this pose and has this map.
abbrev pub PlacedAt : {D : Type 0} → Grid → ℤ → ℤ → AStar D → Type 0
PlacedAt map pose_x pose_y st =
    (st.obstacle_map ≡ map) × (st.pose_x ≡ pose_x) × (st.pose_y ≡ pose_y)

module _ {D : Type 0} (d : Doubles D) (goal_x goal_y : ℤ) (os : Os) (pipes : List TypedPipe)
    (indexes : PipeIndexes) (map : Grid) (pose_x pose_y : ℤ) where
  abbrev Stays : AStar D × Log → Type 0
  Stays r = PlacedAt map pose_x pose_y r.0

  send_waypoints-Stays :
      (st : AStar D) (w : Log) (p : Chain D)
      → PlacedAt map pose_x pose_y st
      → OnSome Stays
          (send_waypoints d goal_x goal_y os pipes indexes (record st { goal_path = p }) w)
  unfolding send_waypoints pop
  send_waypoints-Stays st w null h = tt
  send_waypoints-Stays st w (cell none v rest) h = h
  send_waypoints-Stays st w (cell (some n) v null) h = h
  send_waypoints-Stays st w (cell (some n) v (cell none v' rest)) h = h
  send_waypoints-Stays st w (cell (some n) v (cell (some m) v' rest)) h = h

  offer_path-Stays :
      (st : AStar D) (w : Log)
      → PlacedAt map pose_x pose_y st
      → OnSome Stays (offer_path d goal_x goal_y os pipes indexes st w)
  unfolding offer_path
  offer_path-Stays st w h =
      if_inv (OnSome Stays)
        (nodes_equal (peek st.goal_path 0) st.current_goal
          && nodes_equal (peek st.goal_path 1) st.n_current_goal)
        (some (st, w)) (send_waypoints d goal_x goal_y os pipes indexes st w) h
        (send_waypoints-Stays st w st.goal_path h)

  finish-Stays :
      (st : AStar D) (w : Log) (o : Outcome D)
      → PlacedAt map pose_x pose_y st
      → OnSome Stays (finish d goal_x goal_y os pipes indexes st w o)
  unfolding finish
  finish-Stays st w (found current s) h =
      OnSome-bind (λ empty. Unit {0}) Stays (erase_list d.zero_score st.goal_path) _
        (OnSome-any (erase_list d.zero_score st.goal_path))
        (λ empty any.
          let steps = length s.expanded + 1 in
          let path = extract d st.obstacle_map goal_x goal_y steps s.expanded current empty in
          OnSome-bind (λ p. Unit {0}) Stays path _ (OnSome-any path)
            (λ p any'. offer_path-Stays (record st { goal_path = p }) w h))
  finish-Stays st w (exhausted s) h = h
  finish-Stays st w fault h = tt
  finish-Stays st w out_of_fuel h = tt

  -- The acknowledgement of an update and what follows it.
  pub answer_update-Stays :
      (st : AStar D) (w : Log)
      → PlacedAt map pose_x pose_y st
      → OnSome Stays (answer_update d goal_x goal_y os pipes indexes st w)
  unfolding answer_update command
  answer_update-Stays st w h =
      let sets = start_sets d st.obstacle_map goal_x goal_y st.pose_x st.pose_y in
      if_inv (OnSome Stays) (ltb_ℤ (pos 0) st.recv_map_update.obs_count) _ _
        (OnSome-bind (λ s. Unit {0}) Stays sets _ (OnSome-any sets)
          (λ s any. finish-Stays st _ (search d st.obstacle_map goal_x goal_y search_fuel s) h))
        h
