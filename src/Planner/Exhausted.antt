-- ===== src/Planner/Exhausted.antt =====
-- When the search of controllers/a_star.c ends with an empty open set, there is no way to the goal.
use pint.Common.{
  ℕ, zero, suc, ◌≡◌, sym, subst, ap, ◌∙◌, inl, inr, List, [], Option, none, some, arith, Bool-cases,
  OnSome,
}
use pint.Common.Int.{ℤ}
use pint.Mapping.{Node, Chain, null, cell, node_equals, pop, or_new, new_node}
use pint.Mapping.Sorted.{IsTidy}
use pint.Planner.Grid.{Grid, Doubles}
use pint.Planner.Search.{
  Sets, Outcome, exhausted, fault, expand, search, start_sets, goal_node, est_distance_g,
}
use pint.Planner.Chains.{Differ, AllIn}
use pint.Planner.Walks.{At, From, IsRoute}
use pint.Planner.Ends.{start_sets_lem}
use pint.Planner.Replan.{some_inj}
use pint.Planner.Whole.{Whole, expand-Whole}

module _ {D : Type 0} (d : Doubles D) (map : Grid) (goal_x goal_y pose_x pose_y : ℤ) where
  abbrev IsWhole : Chain D → Chain D → Type 0
  IsWhole = Whole map goal_x goal_y pose_x pose_y

  abbrev AllWhole : Sets D → Type 0
  AllWhole s = IsWhole s.closed_set s.open_set

  -- No way leads from a place that is closed, once nothing is open.
  way-closed :
      (closed_set open_set : Chain D)
      → IsWhole closed_set open_set
      → ((n : Node D) → AllIn (Differ n) open_set)
      → (a : Node D) (path : Chain D) → (AllIn (Differ a) closed_set → ⊥)
      → From map goal_x goal_y a path
      → ⊥
  unfolding From
  way-closed closed_set open_set h none_open a null in_closed way = in_closed (h.away a way)
  way-closed closed_set open_set h none_open a (cell none val rest) in_closed way =
      in_closed (h.away a way)
  way-closed closed_set open_set h none_open a (cell (some b) val rest) in_closed way =
      way-closed closed_set open_set h none_open b rest
        (λ free. h.settled a b in_closed way.0 free (none_open b)) way.1

  -- No list of nodes is a way from the pose to the goal.
  abbrev NoRoute : Type 0
  NoRoute = (path : Chain D) → IsRoute map goal_x goal_y pose_x pose_y path → ⊥

  abbrev OnExhausted : Outcome D → Type 0
  OnExhausted (exhausted s) = NoRoute
  OnExhausted _ = Unit {0}

  no_route :
      (closed_set open_set : Chain D)
      → IsWhole closed_set open_set
      → ((n : Node D) → AllIn (Differ n) open_set)
      → NoRoute
  unfolding IsRoute
  no_route closed_set open_set h none_open null r = r
  no_route closed_set open_set h none_open (cell none val rest) r = r
  no_route closed_set open_set h none_open (cell (some n) val rest) r =
      way-closed closed_set open_set h none_open n rest (λ free. h.started n r.0 free (none_open n))
        r.1

  search-OnExhausted :
      (fuel : ℕ) (open_set closed_set : Chain D) (expanded : List (Node D))
      → IsWhole closed_set open_set
      → OnExhausted (
          search d map goal_x goal_y fuel
            (record { open_set = open_set; closed_set = closed_set; expanded = expanded }))
  unfolding search pop AllIn IsTidy
  search-OnExhausted zero open_set closed_set expanded h = tt
  search-OnExhausted (suc fuel) null closed_set expanded h = tt
  search-OnExhausted (suc fuel) (cell none val rest) closed_set expanded h =
      no_route closed_set (cell none val rest) h (λ n. rw h.tidy tt)
  search-OnExhausted (suc fuel) (cell (some current) val rest) closed_set expanded h =
      elim (Bool-cases (node_equals current (goal_node d map goal_x goal_y))) [
        | inl e ↦ rw e tt
        | inr e ↦ rw e (
            next (expand d map goal_x goal_y current s')
              (expand-Whole d map goal_x goal_y pose_x pose_y current val rest closed_set expanded h
                e)
              (λ t k. search-OnExhausted fuel t.open_set t.closed_set t.expanded k))
      ]
    where
      s' : Sets D
      s' = record {
        open_set = or_new d.zero_score rest;
        closed_set = closed_set;
        expanded = expanded;
      }

      next :
          (q : Option (Sets D))
          → OnSome AllWhole q
          → ((t : Sets D) → AllWhole t → OnExhausted (search d map goal_x goal_y fuel t))
          → OnExhausted (elim q [ none ↦ fault | some t ↦ search d map goal_x goal_y fuel t ])
      next none g f = tt
      next (some t) g f = f t g

  not-start : (a : Node D) → At pose_x pose_y a → Differ a (new_node pose_x pose_y d.zero_score) → ⊥
  unfolding node_equals new_node
  not-start a at e = ground (arith, rw (at.at_x, at.at_y) at e)

  -- When the search of `command`, from the pose, ends with an empty open set, there is no way from
  -- the pose to the goal: no list of nodes begins at the pose, ends at the goal, and has each node
  -- one step from the one before it, in one of the eight directions, to a free cell, and not
  -- between two obstacles.
  pub search_exhausted :
      (fuel : ℕ) (s s' : Sets D)
      → start_sets d map goal_x goal_y pose_x pose_y ≡ some s
      → search d map goal_x goal_y fuel s ≡ exhausted s'
      → ¬ ((path : Chain D) × IsRoute map goal_x goal_y pose_x pose_y path)
  unfolding AllIn IsTidy new_node
  search_exhausted fuel s s' started ended = λ r.
      subst OnExhausted
        (ap (search d map goal_x goal_y fuel)
            (some_inj first s (sym (start_sets_lem d map goal_x goal_y pose_x pose_y) ∙ started))
          ∙ ended)
        (search-OnExhausted fuel first.open_set first.closed_set [] (record {
          settled = λ a b in_closed step free free'. in_closed tt;
          away = λ a at. tt;
          started = λ a at free free'. not-start a at free'.0;
          tidy = tt;
        }))
        r.0 r.1
    where
      start : Node D
      start = new_node pose_x pose_y d.zero_score

      first : Sets D
      first = record {
        open_set = cell (some start) (est_distance_g d map goal_x goal_y start) null;
        closed_set = cell none d.zero_score null;
        expanded = [];
      }
