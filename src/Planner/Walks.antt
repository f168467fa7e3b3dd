-- ===== src/Planner/Walks.antt =====
-- Ways over the map of controllers/a_star.c.
use pint.Common.{◌≡◌, true, some, none}
use pint.Common.Int.{ℤ, ◌+ℤ◌}
use pint.Mapping.{Node, Chain, null, cell}
use pint.Planner.Grid.{Grid, passable}
use pint.Planner.Neighbors.{IsStep}

-- One step in one of the eight directions to a free cell, and not between two obstacles.
pub record Step {D : Type 0} (map : Grid) (a b : Node D) : Type 0 where
  pub i : ℤ
  pub j : ℤ
  pub short : IsStep i j
  pub to_x : b.x ≡ a.x +ℤ i
  pub to_y : b.y ≡ a.y +ℤ j
  pub free : passable map a.x a.y i j ≡ some true

-- The node is at the place.
pub record At {D : Type 0} (x y : ℤ) (n : Node D) : Type 0 where
  pub at_x : n.x ≡ x
  pub at_y : n.y ≡ y

module _ {D : Type 0} (map : Grid) (goal_x goal_y : ℤ) where
  -- The nodes of the list are steps from node a to the goal.
  unfoldable pub From : Node D → Chain D → Type 0
  From a null = At goal_x goal_y a
  From a (cell none val rest) = At goal_x goal_y a
  From a (cell (some n) val rest) = Step map a n × From n rest

  -- The nodes of the list are a way from the place to the goal, both ends included.
  unfoldable pub IsRoute : ℤ → ℤ → Chain D → Type 0
  unfolding From
  IsRoute x y null = ⊥
  IsRoute x y (cell none val rest) = ⊥
  IsRoute x y (cell (some n) val rest) = At x y n × From n rest
