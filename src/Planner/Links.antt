-- ===== src/Planner/Links.antt =====
-- Back links in the search of controllers/a_star.c: the nodes that it expands and opens are linked by
-- steps to the pose.
use pint.Common.{
  ℕ, zero, suc, ◌+◌, ◌<◌, ◌≡◌, refl, true, List, [], ◌∷◌, ◌++◌, Option, none, some, arith,
  Bool-cases, inl, inr, OnSome, OnSome-bind, length, length-append,
}
use native.Mathlib.Decide.{ℕ_discrete}
use pint.Common.Int.{ℤ, ◌+ℤ◌, eq_of_parts}
use pint.Mapping.{Node, Chain, null, cell, node_equals, add_node, pop, or_new, new_node}
use pint.Planner.Grid.{Grid, Doubles, gen_neighbors, passable}
use pint.Planner.Search.{
  Sets, Outcome, found, exhausted, fault, out_of_fuel, visit_all, expand, search, goal_node,
  est_distance_g,
}
use pint.Planner.Chains.{AllIn, AllIn-map, or_new-AllIn}
use pint.Planner.Neighbors.{IsStep, gen_neighbors-AllIn}
use pint.Planner.Walks.{Step, At}
use pint.Planner.Paths.{nth, Linked, IsLinked, nth-append, nth-last, Linked-append, visit_all-AllIn}

module _ {D : Type 0} (d : Doubles D) (map : Grid) (goal_x goal_y pose_x pose_y : ℤ) where
  abbrev pub Link : List (Node D) → ℕ → Node D → Type 0
  Link = Linked d map goal_x goal_y pose_x pose_y

  abbrev pub Links : List (Node D) → Chain D → Type 0
  Links = IsLinked d map goal_x goal_y pose_x pose_y

  abbrev pub at_index : List (Node D) → ℕ → Node D
  at_index = nth d map goal_x goal_y pose_x pose_y

  -- A neighbour is a step from the current node.
  moved-Step :
      (current : Node D) (i j : ℤ)
      → IsStep i j
      → passable map current.x current.y i j ≡ some true
      → Step map current (new_node (current.x +ℤ i) (current.y +ℤ j) d.zero_score)
  unfolding new_node
  moved-Step current i j s e = record {
    i = i;
    j = j;
    short = s;
    to_x = refl;
    to_y = refl;
    free = e;
  }

  linked-new :
      (current n : Node D) (expanded : List (Node D)) (tent : D)
      → Step map current n
      → Link
          (expanded ++ (current ∷ []))
          (length (expanded ++ (current ∷ [])))
          (record n { back_link = some (length expanded); g_score = tent })
  unfolding Linked
  linked-new current n expanded tent s = inr (
    length expanded,
    refl,
    omega (arith, length-append expanded (current ∷ [])),
    rw (nth-last d map goal_x goal_y pose_x pose_y expanded current)
        (record { i = s.i; j = s.j; short = s.short; to_x = s.to_x; to_y = s.to_y; free = s.free }),
  )

  expand-IsLinked :
      (current : Node D) (val : D) (rest closed_set : Chain D) (expanded : List (Node D))
      → Links expanded (cell (some current) val rest)
      → OnSome
          (λ (s : Sets D). Links s.expanded s.open_set)
          (expand d map goal_x goal_y current (record {
            open_set = or_new d.zero_score rest;
            closed_set = closed_set;
            expanded = expanded;
          }))
  unfolding expand AllIn
  expand-IsLinked current val rest closed_set expanded h =
      OnSome-bind (λ c'. Unit {0}) (λ (s : Sets D). Links s.expanded s.open_set)
        (add_node d.gt closed_set current (est_distance_g d map goal_x goal_y current)) _
        (trivial (add_node d.gt closed_set current (est_distance_g d map goal_x goal_y current)))
        (λ closed' k.
          OnSome-bind (AllIn (Step map current)) (λ (s : Sets D). Links s.expanded s.open_set)
            (gen_neighbors d map current) _
            (gen_neighbors-AllIn d map current (Step map current)
              (λ i j s e. moved-Step current i j s e))
            (λ neighbors g.
              OnSome-bind (AllIn (Link grown (length grown)))
                (λ (s : Sets D). Links s.expanded s.open_set)
                (visit_all d map goal_x goal_y current (length expanded) closed' neighbors
                  (or_new d.zero_score rest))
                _
                (visit_all-AllIn d map goal_x goal_y pose_x pose_y (Link grown (length grown))
                  (Step map current) current (length expanded) closed' neighbors
                  (or_new d.zero_score rest) (λ n tent s. linked-new current n expanded tent s) g
                  old_open)
                (λ open' h. record { done = done; opened = h })))
    where
      grown : List (Node D)
      grown = expanded ++ (current ∷ [])

      size : length grown ≡ length expanded + 1
      size = length-append expanded (current ∷ [])

      old_open : AllIn (Link grown (length grown)) (or_new d.zero_score rest)
      old_open = or_new-AllIn d.zero_score (Link grown (length grown)) rest (
          AllIn-map (Link expanded (length expanded)) (Link grown (length grown)) rest
            (λ n l.
              Linked-append d map goal_x goal_y pose_x pose_y expanded current n (length expanded)
                (length grown) (omega arith) (omega (arith, size)) l)
            h.opened.1)

      done : (i : ℕ) → i < length grown → Link grown i (at_index grown i)
      done i lt = elim (ℕ_discrete i (length expanded)) [
        | yes e ↦
            rw (e, nth-last d map goal_x goal_y pose_x pose_y expanded current)
              (Linked-append d map goal_x goal_y pose_x pose_y expanded current current
                (length expanded) (length expanded) (omega arith) (omega arith) h.opened.0)
        | no ne ↦
            rw
              (nth-append d map goal_x goal_y pose_x pose_y expanded current i
                (omega (arith, size)))
              (Linked-append d map goal_x goal_y pose_x pose_y expanded current
                (at_index expanded i) i i (omega (arith, size)) (omega arith)
                (h.done i (omega (arith, size))))
      ]

      trivial : (o : Option (Chain D)) → OnSome (λ c'. Unit {0}) o
      trivial none = tt
      trivial (some c') = tt

  -- What the search hands on when it has found the goal.
  pub record Reached (current : Node D) (s : Sets D) : Type 0 where
    pub last : Link s.expanded (length s.expanded) current
    pub done : (i : ℕ) → i < length s.expanded → Link s.expanded i (at_index s.expanded i)
    pub at_goal : At goal_x goal_y current

  abbrev pub OnFound : Outcome D → Type 0
  OnFound (found current s) = Reached current s
  OnFound (exhausted s) = Unit {0}
  OnFound fault = Unit {0}
  OnFound out_of_fuel = Unit {0}

  goal-At : (n : Node D) → node_equals n (goal_node d map goal_x goal_y) ≡ true → At goal_x goal_y n
  unfolding node_equals goal_node
  goal-At n e = record {
    at_x = eq_of_parts n.x goal_x (ground (arith, e));
    at_y = eq_of_parts n.y goal_y (ground (arith, e));
  }

  pub search-OnFound :
      (fuel : ℕ) (open_set closed_set : Chain D) (expanded : List (Node D))
      → Links expanded open_set
      → OnFound (
          search d map goal_x goal_y fuel
            (record { open_set = open_set; closed_set = closed_set; expanded = expanded }))
  unfolding search pop AllIn
  search-OnFound zero open_set closed_set expanded h = tt
  search-OnFound (suc fuel) null closed_set expanded h = tt
  search-OnFound (suc fuel) (cell none val rest) closed_set expanded h = tt
  search-OnFound (suc fuel) (cell (some current) val rest) closed_set expanded h =
      elim (Bool-cases (node_equals current (goal_node d map goal_x goal_y))) [
        | inl e ↦ rw e (record { last = h.opened.0; done = h.done; at_goal = goal-At current e })
        | inr e ↦ rw e (
            next (expand d map goal_x goal_y current s')
              (expand-IsLinked current val rest closed_set expanded h)
              (λ t l. search-OnFound fuel t.open_set t.closed_set t.expanded l))
      ]
    where
      s' : Sets D
      s' = record {
        open_set = or_new d.zero_score rest;
        closed_set = closed_set;
        expanded = expanded;
      }

      next :
          (q : Option (Sets D))
          → OnSome (λ (s : Sets D). Links s.expanded s.open_set) q
          → ((t : Sets D)
              → Links t.expanded t.open_set
              → OnFound (search d map goal_x goal_y fuel t))
          → OnFound (elim q [ none ↦ fault | some t ↦ search d map goal_x goal_y fuel t ])
      next none g f = tt
      next (some t) g f = f t g
