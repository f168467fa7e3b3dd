-- ===== src/Planner/Whole.antt =====
-- A round of the search of controllers/a_star.c overlooks no step from the node it closes.
use pint.Common.{
  ◌≡◌, inl, inr, false, List, [], ◌∷◌, ◌++◌, Option, none, some, arith, Bool-cases, OnSome,
  OnSome-bind, length, ◌>>=◌,
}
use pint.Common.Int.{ℤ}
use pint.Mapping.{Node, Chain, null, cell, node_equals, add_node, or_new, new_node}
use pint.Mapping.Sorted.{IsTidy}
use pint.Planner.Grid.{Grid, Doubles, gen_neighbors}
use pint.Planner.Search.{Sets, visit_all, expand, goal_node, est_distance_g}
use pint.Planner.Chains.{Differ, AllIn, add_node-AllIn, add_node-AllIn_inv, or_new-IsTidy}
use pint.Planner.Walks.{Step, At}
use pint.Planner.Replan.{node_equals-same}
use pint.Planner.Seen.{KeptAll, visit_all-KeptAll}
use pint.Planner.Complete.{gen_neighbors-Complete, gen_neighbors-IsTidy}

or_new-back :
    {D : Type 0} (z : D) (P : Node D → Type 0) (l : Chain D) → AllIn P (or_new z l) → AllIn P l
unfolding or_new AllIn
or_new-back z P null h = tt
or_new-back z P (cell head val rest) h = h

Step-from :
    {D : Type 0} (map : Grid) (a c b : Node D)
    → (a.x ≡ c.x) × (a.y ≡ c.y)
    → Step map a b
    → Step map c b
Step-from map a c b (ex, ey) step = record {
  i = step.i;
  j = step.j;
  short = step.short;
  to_x = rw (← ex) step.to_x;
  to_y = rw (← ey) step.to_y;
  free = rw (← ex, ← ey) step.free;
}

-- Nothing is overlooked: a step from a closed place leads to a place of one of the sets, the pose is
-- such a place, and the goal is not closed.
pub record Whole {D : Type 0} (map : Grid) (goal_x goal_y pose_x pose_y : ℤ)
    (closed_set open_set : Chain D) : Type 0 where
  pub settled :
      (a b : Node D)
      → (AllIn (Differ a) closed_set → ⊥)
      → Step map a b
      → AllIn (Differ b) closed_set
      → AllIn (Differ b) open_set
      → ⊥
  pub away : (a : Node D) → At goal_x goal_y a → AllIn (Differ a) closed_set
  pub started :
      (a : Node D)
      → At pose_x pose_y a
      → AllIn (Differ a) closed_set
      → AllIn (Differ a) open_set
      → ⊥
  pub tidy : IsTidy open_set

module _ {D : Type 0} (d : Doubles D) (map : Grid) (goal_x goal_y pose_x pose_y : ℤ) where
  abbrev pub IsWhole : Chain D → Chain D → Type 0
  IsWhole = Whole map goal_x goal_y pose_x pose_y

  abbrev pub AllWhole : Sets D → Type 0
  AllWhole s = IsWhole s.closed_set s.open_set

  -- What closing the current node does to the place of n.
  record Closed (current : Node D) (closed_set : Chain D) (closed' : Chain D) : Type 0 where
    inv : (n : Node D) → AllIn (Differ n) closed' → Differ n current × AllIn (Differ n) closed_set
    keeps : (n : Node D) → Differ n current → AllIn (Differ n) closed_set → AllIn (Differ n) closed'

  add_node-Closed :
      (current : Node D) (closed_set : Chain D) (val : D)
      → OnSome (Closed current closed_set) (add_node d.gt closed_set current val)
  add_node-Closed current closed_set val =
      all (add_node d.gt closed_set current val)
        (λ n. add_node-AllIn_inv d.gt (Differ n) closed_set current val)
        (λ n. add_node-AllIn d.gt (Differ n) closed_set current val)
    where
      all :
          (o : Option (Chain D))
          → ((n : Node D)
              → OnSome (λ c. AllIn (Differ n) c → Differ n current × AllIn (Differ n) closed_set) o)
          → ((n : Node D)
              → Differ n current
              → AllIn (Differ n) closed_set
              → OnSome (AllIn (Differ n)) o)
          → OnSome (Closed current closed_set) o
      all none i k = tt
      all (some c) i k = record { inv = i; keeps = k }

  Differ-goal :
      (a current : Node D)
      → At goal_x goal_y a
      → node_equals current (goal_node d map goal_x goal_y) ≡ false
      → Differ a current
  unfolding node_equals new_node goal_node
  Differ-goal a current at e = rw (at.at_x, at.at_y) (ground (arith, e))

  -- The sets after a round.
  round-Whole :
      (current : Node D) (val : D) (rest closed_set closed' neighbors open' : Chain D)
      → IsWhole closed_set (cell (some current) val rest)
      → node_equals current (goal_node d map goal_x goal_y) ≡ false
      → Closed current closed_set closed'
      → ((n : Node D) → Step map current n → AllIn (Differ n) neighbors → ⊥)
      → ((n : Node D)
          → KeptAll d map goal_x goal_y closed' neighbors (or_new d.zero_score rest) n open')
      → IsWhole closed' open'
  unfolding AllIn IsTidy
  round-Whole current val rest closed_set closed' neighbors open' h other c near k = record {
    settled = λ a b in_closed step free free'. elim (Bool-cases (node_equals a current)) [
      | inl here ↦
          near b (Step-from map a current b (node_equals-same a current here) step)
            ((k b).handled free free')
      | inr there ↦
          h.settled a b (λ f. in_closed (c.keeps a there f)) step (c.inv b free).1
            ((c.inv b free).0, or_new-back d.zero_score (Differ b) rest ((k b).before free'))
    ];
    away = λ a at. c.keeps a (Differ-goal a current at other) (h.away a at);
    started = λ a at free free'.
        h.started a at (c.inv a free).1
          ((c.inv a free).0, or_new-back d.zero_score (Differ a) rest ((k a).before free'));
    tidy = (k current).tidy (or_new-IsTidy d.zero_score rest h.tidy);
  }

  pub expand-Whole :
      (current : Node D) (val : D) (rest closed_set : Chain D) (expanded : List (Node D))
      → IsWhole closed_set (cell (some current) val rest)
      → node_equals current (goal_node d map goal_x goal_y) ≡ false
      → OnSome AllWhole (
          expand d map goal_x goal_y current (record {
            open_set = or_new d.zero_score rest;
            closed_set = closed_set;
            expanded = expanded;
          }))
  unfolding expand
  expand-Whole current val rest closed_set expanded h other =
      let score = est_distance_g d map goal_x goal_y current in
      let open_set = or_new d.zero_score rest in
      OnSome-bind (Closed current closed_set) _ (add_node d.gt closed_set current score) _
        (add_node-Closed current closed_set score)
        (λ closed' c.
          by_neighbors closed' c (gen_neighbors d map current) (gen_neighbors-IsTidy d map current)
            (λ n step. gen_neighbors-Complete d map current n step))
    where
      by_open :
          (closed' : Chain D)
          → Closed current closed_set closed'
          → (neighbors : Chain D)
          → ((n : Node D) → Step map current n → AllIn (Differ n) neighbors → ⊥)
          → (o : Option (Chain D))
          → ((n : Node D)
              → OnSome
                  (KeptAll d map goal_x goal_y closed' neighbors (or_new d.zero_score rest) n)
                  o)
          → OnSome AllWhole (
              o >>= λ open'. some (record {
                open_set = open';
                closed_set = closed';
                expanded = expanded ++ (current ∷ []);
              }))
      by_open closed' c neighbors near none k = tt
      by_open closed' c neighbors near (some open') k =
          round-Whole current val rest closed_set closed' neighbors open' h other c near k

      by_neighbors :
          (closed' : Chain D)
          → Closed current closed_set closed'
          → (o : Option (Chain D)) → OnSome IsTidy o
          → ((n : Node D) → Step map current n → OnSome (λ l. AllIn (Differ n) l → ⊥) o)
          → OnSome AllWhole (
              o >>= λ neighbors.
              visit_all d map goal_x goal_y current
                (length expanded)
                closed'
                neighbors
                (or_new d.zero_score rest)
              >>= λ open'. some (record {
                open_set = open';
                closed_set = closed';
                expanded = expanded ++ (current ∷ []);
              }))
      by_neighbors closed' c none t near = tt
      by_neighbors closed' c (some neighbors) t near =
          by_open closed' c neighbors near
            (visit_all d map goal_x goal_y current (length expanded) closed' neighbors
              (or_new d.zero_score rest))
            (λ n.
              visit_all-KeptAll d map goal_x goal_y current (length expanded) closed' neighbors
                (or_new d.zero_score rest) n t)
