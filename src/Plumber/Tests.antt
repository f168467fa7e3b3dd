-- ===== src/Plumber/Tests.antt =====
-- The theorems about plumber/plumbing.c at a concrete configuration.

use pint.Common.{List, [], ◌∷◌}
use pint.VoteBuff.{none_rep}
use pint.Plumber.{Component, new_node}

abbrev planner : List Component
planner = new_node "plan" "AStar" none_rep "" "" "5" ∷ []
