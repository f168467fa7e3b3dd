-- ===== src/Planner/Edge.antt =====
-- `command` of controllers/a_star.c at the edge of the map: genNeighbors tests no bounds.
use pint.Common.{ℕ, ◌≡◌, refl, ap, false, List, none, some, arith, bind_of, [], suc}
use pint.Common.Int.{ℤ, pos, ◌+ℤ◌}
use pint.Os.{Os, Log}
use pint.CommTypes.Types.{TypedPipe}
use pint.Mapping.{Node, null, cell, new_node, node_equals, pop, add_node}
use pint.Planner.Grid.{
  Grid, Doubles, gen_neighbors, gen_all, gen_one, passable, free_cell, read_map,
}
use pint.Planner.Search.{Sets, fault, search, search_fuel, expand, est_distance_g, goal_node}
use pint.Planner.Ends.{start_sets_lem}
use pint.Planner.Command.{AStar, PipeIndexes, command, finish}

module _ {D : Type 0} (d : Doubles D) where
  -- The first neighbour looked at is the one at (-1, -1).
  gen_neighbors_edge :
      (map : Grid) (node : Node D) → node.x ≡ pos 0 → gen_neighbors d map node ≡ none
  unfolding gen_neighbors gen_all gen_one passable free_cell read_map ◌+ℤ◌
  gen_neighbors_edge map node e = rw e refl

  first_sets : Grid → ℤ → ℤ → Node D → Sets D
  first_sets map goal_x goal_y start = record {
    open_set = cell (some start) (est_distance_g d map goal_x goal_y start) null;
    closed_set = cell none d.zero_score null;
    expanded = [];
  }

  search_edge :
      (map : Grid) (goal_x goal_y : ℤ) (start : Node D) (fuel k : ℕ)
      → fuel ≡ suc k
      → start.x ≡ pos 0
      → node_equals start (new_node goal_x goal_y d.zero_score) ≡ false
      → search d map goal_x goal_y fuel (first_sets map goal_x goal_y start) ≡ fault
  unfolding search first_sets pop goal_node expand add_node
  search_edge map goal_x goal_y start fuel k more e away =
      rw more (rw away (rw (gen_neighbors_edge map start e) refl))

  -- A command from a pose in the first column of the map, which is not the goal, reads obstacle_map
  -- outside its bounds, whatever the obstacles.
  command_edge :
      (goal_x goal_y : ℤ) (os : Os) (pipes : List TypedPipe) (indexes : PipeIndexes) (st : AStar D)
      (w : Log)
      → st.pose_x ≡ pos 0
      → node_equals
          (new_node st.pose_x st.pose_y d.zero_score)
          (new_node goal_x goal_y d.zero_score)
        ≡ false
      → command d goal_x goal_y os pipes indexes st w ≡ none
  unfolding command finish new_node first_sets
  command_edge goal_x goal_y os pipes indexes st w e away =
      let map = st.obstacle_map in
      let start = new_node st.pose_x st.pose_y d.zero_score in
      bind_of _ _ (first_sets map goal_x goal_y start) none
        (start_sets_lem d map goal_x goal_y st.pose_x st.pose_y)
        (ap (finish d goal_x goal_y os pipes indexes st w)
          (search_edge map goal_x goal_y start search_fuel 6400 (omega arith) e away))
