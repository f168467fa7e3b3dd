-- ===== src/Planner/Search.antt =====
-- The search of `command` in controllers/a_star.c. A back link is the number of the node that it
-- points to, counted in the order in which nodes are taken from the open set.
use pint.Common.{
  ℕ, zero, suc, ◌+◌, ◌*◌, List, [], ◌∷◌, ◌++◌, Option, none, some, if◌then◌else◌, length, get_or,
  ◌>>=◌,
}
use pint.Common.Int.{ℤ}
use pint.Mapping.{
  Node, Chain, null, cell, add_node, remove_node, find_node, node_equals, new_list, new_node, push,
  pop,
}
use pint.Planner.Grid.{Grid, Doubles, gen_neighbors, grid_num}

pub record Sets (D : Type 0) : Type 0 where
  pub open_set : Chain D
  pub closed_set : Chain D
  -- The nodes taken from the open set, in order: the memory that back links point into.
  pub expanded : List (Node D)

pub data Outcome (D : Type 0) : Type 0 where
  found : Node D → Sets D → Outcome D
  exhausted : Sets D → Outcome D
  -- A read through NULL or outside the map.
  fault : Outcome D
  out_of_fuel : Outcome D

module _ {D : Type 0} (d : Doubles D) (map : Grid) (goal_x goal_y : ℤ) where
  unfoldable pub goal_node : Node D
  unfolding new_node
  goal_node = new_node goal_x goal_y d.zero_score

  unfoldable pub est_distance_g : Node D → D
  est_distance_g n = d.est_distance n.x n.y goal_x goal_y

  -- The neighbour with its new score goes to the open set in place of an equal node.
  unfoldable pub relax : Node D → ℕ → Node D → D → Chain D → Option (Chain D)
  unfolding est_distance_g
  relax current link neigh tent open_set =
      let neigh' = record neigh { back_link = some link; g_score = tent } in
      add_node d.gt (remove_node open_set neigh') neigh' (d.plus tent (est_distance_g neigh'))

  -- The body of the loop over the neighbours.
  unfoldable pub visit : Node D → ℕ → Chain D → Node D → Chain D → Option (Chain D)
  unfolding relax
  visit current link closed_set neigh open_set =
      let tent = d.plus current.g_score (d.est_distance neigh.x neigh.y current.x current.y) in
      elim (find_node closed_set neigh) [
        | some old ↦ some open_set
        | none ↦ elim (find_node open_set neigh) [
          | none ↦ relax current link neigh tent open_set
          | some old ↦
              if d.gt old.g_score tent
              then relax current link neigh tent open_set
              else some open_set
        ]
      ]

  -- The loop pops the neighbours until it gets NULL.
  unfoldable pub visit_all : Node D → ℕ → Chain D → Chain D → Chain D → Option (Chain D)
  unfolding visit
  visit_all current link closed_set null open_set = some open_set
  visit_all current link closed_set (cell none val rest) open_set = some open_set
  visit_all current link closed_set (cell (some neigh) val rest) open_set =
      visit current link closed_set neigh open_set >>= visit_all current link closed_set rest

  -- What a round does with the node that it has popped, `s` being the sets without it.
  unfoldable pub expand : Node D → Sets D → Option (Sets D)
  unfolding visit_all est_distance_g
  expand current s = do
    closed' ← add_node d.gt s.closed_set current (est_distance_g current)
    neighbors ← gen_neighbors d map current
    open' ← visit_all current (length s.expanded) closed' neighbors s.open_set
    some
        (record { open_set = open'; closed_set = closed'; expanded = s.expanded ++ (current ∷ []) })

  unfoldable pub search : ℕ → Sets D → Outcome D
  unfolding expand goal_node
  search zero s = out_of_fuel
  search (suc fuel) s = elim (pop d.zero_score s.open_set) [
    | none ↦ fault
    | some (none, rest) ↦ exhausted (record s { open_set = rest })
    | some (some current, rest) ↦
        let s' = record s { open_set = rest } in
        if node_equals current goal_node
        then found current s'
        else elim (expand current s') [ none ↦ fault | some s'' ↦ search fuel s'' ]
  ]

  -- `push` and follow the back link, until it is NULL.
  unfoldable pub extract : ℕ → List (Node D) → Node D → Chain D → Option (Chain D)
  extract zero expanded current path = none
  extract (suc fuel) expanded current path =
      let path' = push d.zero_score path current in
      elim current.back_link [
        | none ↦ some path'
        | some link ↦ extract fuel expanded (get_or expanded link current) path'
      ]

  -- Both sets as `command` fills them.
  unfoldable pub start_sets : ℤ → ℤ → Option (Sets D)
  unfolding est_distance_g new_node new_list
  start_sets pose_x pose_y =
      let start = new_node pose_x pose_y d.zero_score in
      elim (add_node d.gt (new_list d.zero_score) start (est_distance_g start)) [
        | none ↦ none
        | some open' ↦
            some (record { open_set = open'; closed_set = new_list d.zero_score; expanded = [] })
      ]

-- A round for each cell of the map, and one to find the open set empty.
abbrev pub search_fuel : ℕ
search_fuel = grid_num * grid_num + 1
