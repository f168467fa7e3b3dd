-- ===== src/Planner/Ends.antt =====
-- The loop of `command` in controllers/a_star.c ends within a round for each cell of the map.
use pint.Common.{
  ℕ, zero, suc, ◌+◌, ◌*◌, ◌≤◌, ◌<◌, ◌≡◌, ◌≢◌, refl, List, [], ◌∷◌, ◌++◌, Option, none, some, arith,
  Bool-cases, inl, inr, OnSome, OnSome-bind, length, length-append,
}
use pint.Common.Int.{ℤ}
use pint.Mapping.{Node, Chain, null, cell, node_equals, add_node, pop, or_new, new_list, new_node}
use pint.Planner.Grid.{Grid, Doubles, gen_neighbors, grid_num}
use pint.Planner.Search.{
  Sets, Outcome, found, exhausted, fault, out_of_fuel, visit_all, expand, search, start_sets,
  search_fuel, goal_node, est_distance_g,
}
use pint.Planner.Chains.{AllIn, DistinctIn}
use pint.Mapping.Sorted.{IsTidy}
use pint.Planner.Spots.{InGrid, spots, length-Distinct, length-spots}
use pint.Planner.Neighbors.{passable-InGrid, gen_neighbors-AllIn}
use pint.Planner.Bounded.{IsOpen, IsClosed, visit_all-IsOpen, close-IsClosed, rest-IsOpen}

-- The search's sets are as they should be.
pub record IsBounded {D : Type 0} (s : Sets D) : Type 0 where
  pub opened : IsOpen s.closed_set s.open_set
  pub closed : IsClosed s.closed_set s.expanded

-- Not for want of fuel.
abbrev Ends : {D : Type 0} → Outcome D → Type 0
Ends (found current s) = Unit {0}
Ends (exhausted s) = Unit {0}
Ends fault = Unit {0}
Ends out_of_fuel = ⊥

length-expanded : {D : Type 0} (s : Sets D) → IsBounded s → length s.expanded ≤ grid_num * grid_num
length-expanded s b = omega (
  arith,
  length-spots s.expanded,
  length-Distinct (grid_num * grid_num) (spots s.expanded) b.closed.distinct b.closed.below,
)

module _ {D : Type 0} (d : Doubles D) (map : Grid) (goal_x goal_y : ℤ) where
  -- A round closes one node more, and keeps the sets as they should be.
  abbrev Grown : ℕ → Sets D → Type 0
  Grown n s = IsBounded s × (length s.expanded ≡ suc n)

  expand-Grown :
      (current : Node D) (val : D) (rest closed_set : Chain D) (expanded : List (Node D))
      → IsOpen closed_set (cell (some current) val rest)
      → IsClosed closed_set expanded
      → OnSome (Grown (length expanded)) (
          expand d map goal_x goal_y current (record {
            open_set = or_new d.zero_score rest;
            closed_set = closed_set;
            expanded = expanded;
          }))
  unfolding expand AllIn
  expand-Grown current val rest closed_set expanded o c =
      OnSome-bind Both (Grown (length expanded)) (add_node d.gt closed_set current score) _
        (both (add_node d.gt closed_set current score)
          (close-IsClosed d map goal_x goal_y closed_set expanded current score o.inside.0 o.fresh.0
            c)
          (rest-IsOpen d map goal_x goal_y closed_set current val score rest o))
        (λ closed' k.
          OnSome-bind (AllIn InGrid) (Grown (length expanded)) (gen_neighbors d map current) _
            (gen_neighbors-AllIn d map current InGrid
              (λ i j s e. passable-InGrid map current.x current.y i j d.zero_score e))
            (λ neighbors g.
              OnSome-bind (IsOpen closed') (Grown (length expanded))
                (visit_all d map goal_x goal_y current (length expanded) closed' neighbors
                  (or_new d.zero_score rest))
                _
                (visit_all-IsOpen d map goal_x goal_y current (length expanded) closed' neighbors
                  (or_new d.zero_score rest) k.0.tidy g k.1)
                (λ open' h. (
                  record { opened = h; closed = k.0 },
                  omega (arith, length-append expanded (current ∷ [])),
                ))))
    where
      score : D
      score = est_distance_g d map goal_x goal_y current

      Both : Chain D → Type 0
      Both c' = IsClosed c' (expanded ++ (current ∷ [])) × IsOpen c' (or_new d.zero_score rest)

      both :
          (q : Option (Chain D))
          → OnSome (λ c'. IsClosed c' (expanded ++ (current ∷ []))) q
          → OnSome (λ c'. IsOpen c' (or_new d.zero_score rest)) q
          → OnSome Both q
      both none h k = tt
      both (some c') h k = (h, k)

  search-Ends :
      (fuel : ℕ) (open_set closed_set : Chain D) (expanded : List (Node D))
      → IsOpen closed_set open_set
      → IsClosed closed_set expanded
      → grid_num * grid_num < fuel + length expanded
      → Ends (
          search d map goal_x goal_y fuel
            (record { open_set = open_set; closed_set = closed_set; expanded = expanded }))
  unfolding search pop
  search-Ends zero open_set closed_set expanded o c enough = absurd (
      omega (
        arith,
        length-expanded
            (record { open_set = open_set; closed_set = closed_set; expanded = expanded })
            (record { opened = o; closed = c }),
      ))
  search-Ends (suc fuel) null closed_set expanded o c enough = tt
  search-Ends (suc fuel) (cell none val rest) closed_set expanded o c enough = tt
  search-Ends (suc fuel) (cell (some current) val rest) closed_set expanded o c enough =
      elim (Bool-cases (node_equals current (goal_node d map goal_x goal_y))) [
        | inl e ↦ rw e tt
        | inr e ↦ rw e (
            next (expand d map goal_x goal_y current s')
              (expand-Grown current val rest closed_set expanded o c)
              (λ t b n. search-Ends fuel t.open_set t.closed_set t.expanded b.opened b.closed n))
      ]
    where
      s' : Sets D
      s' = record {
        open_set = or_new d.zero_score rest;
        closed_set = closed_set;
        expanded = expanded;
      }

      next :
          (q : Option (Sets D))
          → OnSome (Grown (length expanded)) q
          → ((t : Sets D)
              → IsBounded t
              → grid_num * grid_num < fuel + length t.expanded
              → Ends (search d map goal_x goal_y fuel t))
          → Ends (elim q [ none ↦ fault | some t ↦ search d map goal_x goal_y fuel t ])
      next none g f = tt
      next (some t) g f = f t g.0 (omega (arith, g.1))

  Ends-ne : (o : Outcome D) → Ends o → o ≢ out_of_fuel
  Ends-ne (found current s) h = λ e. cc
  Ends-ne (exhausted s) h = λ e. cc
  Ends-ne fault h = λ e. cc
  Ends-ne out_of_fuel h = absurd h

  pub start_sets_lem :
      (pose_x pose_y : ℤ)
      → start_sets d map goal_x goal_y pose_x pose_y
        ≡ some (record {
          open_set =
              cell
                (some (new_node pose_x pose_y d.zero_score))
                (est_distance_g d map goal_x goal_y (new_node pose_x pose_y d.zero_score))
                null;
          closed_set = cell none d.zero_score null;
          expanded = [];
        })
  unfolding start_sets add_node new_list
  start_sets_lem pose_x pose_y = refl

  -- The search of `command`, from a pose on the map: both sets are set up without a fault, and the
  -- loop then ends, by a path, by an empty open set or by a fault, within one round more than the
  -- map has cells, whatever the map, the goal and the comparisons of doubles.
  pub search_ends :
      (pose_x pose_y : ℤ)
      → InGrid (new_node pose_x pose_y d.zero_score)
      → (s : Sets D) × (start_sets d map goal_x goal_y pose_x pose_y ≡ some s)
        × (search d map goal_x goal_y search_fuel s ≢ out_of_fuel)
  unfolding IsTidy AllIn DistinctIn
  search_ends pose_x pose_y g = (
    record {
      open_set = cell (some start) score null;
      closed_set = cell none d.zero_score null;
      expanded = [];
    },
    start_sets_lem pose_x pose_y,
    Ends-ne _ (
        search-Ends search_fuel (cell (some start) score null) (cell none d.zero_score null) []
          (record { tidy = tt; inside = (g, tt); distinct = (tt, tt); fresh = (tt, tt) })
          (record { tidy = refl; covers = λ n gn k. tt; distinct = tt; below = tt }) (omega arith)),
  )
    where
      start : Node D
      start = new_node pose_x pose_y d.zero_score

      score : D
      score = est_distance_g d map goal_x goal_y start
