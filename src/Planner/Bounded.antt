-- ===== src/Planner/Bounded.antt =====
-- The search of controllers/a_star.c ends: no place of the map is expanded twice.
use pint.Common.{
  ℕ, ◌*◌, ◌≡◌, refl, List, [], ◌∷◌, ◌++◌, Option, none, some, if◌then◌else◌, OnSome, OnSome-bind,
  if_inv,
}
use pint.Common.Int.{ℤ}
use pint.Mapping.{Node, Chain, null, cell, node_equals, add_node, remove_node, find_node, or_new}
use pint.Mapping.Sorted.{IsTidy}
use pint.Planner.Grid.{Grid, Doubles, grid_num}
use pint.Planner.Search.{relax, visit, visit_all, est_distance_g}
use pint.Planner.Chains.{
  Differ, Differ-symm, AllIn, DistinctIn, AllIn-map, remove_node-AllIn, remove_node-DistinctIn,
  remove_node-IsTidy, remove_node-Differ, find_node-Differ, add_node-AllIn, add_node-AllIn_inv,
  add_node-DistinctIn, add_node-IsTidy, or_new-AllIn, or_new-DistinctIn, or_new-IsTidy,
}
use pint.Planner.Spots.{
  InGrid, spot, spots, Fresh, Distinct, Below, spot-ne, spot-lt, spots-append, Fresh-append,
  Distinct-append, Below-append,
}

module _ {D : Type 0} where
  -- The open set: on the map, at different places, at none of the closed set.
  pub record IsOpen (closed_set open_set : Chain D) : Type 0 where
    pub tidy : IsTidy open_set
    pub inside : AllIn InGrid open_set
    pub distinct : DistinctIn open_set
    pub fresh : AllIn (λ n. AllIn (Differ n) closed_set) open_set

  -- The closed set holds what has been expanded, at different places on the map.
  pub record IsClosed (closed_set : Chain D) (expanded : List (Node D)) : Type 0 where
    pub tidy : IsTidy closed_set
    pub covers :
        (n : Node D) → InGrid n → AllIn (Differ n) closed_set → Fresh (spot n) (spots expanded)
    pub distinct : Distinct (spots expanded)
    pub below : Below (grid_num * grid_num) (spots expanded)

Differ-moved :
    {D : Type 0} (a n : Node D) (link : Option ℕ) (tent : D)
    → Differ a n
    → Differ (record a { back_link = link; g_score = tent }) n
unfolding node_equals
Differ-moved a n link tent e = e

module _ {D : Type 0} (d : Doubles D) (map : Grid) (goal_x goal_y : ℤ) where
  relax-IsOpen :
      (current : Node D) (link : ℕ) (neigh : Node D) (tent : D) (closed_set open_set : Chain D)
      → InGrid neigh
      → AllIn (Differ neigh) closed_set
      → IsOpen closed_set open_set
      → OnSome (IsOpen closed_set) (relax d map goal_x goal_y current link neigh tent open_set)
  unfolding relax
  relax-IsOpen current link neigh tent closed_set open_set g c h =
      all (add_node d.gt rest neigh' val)
        (add_node-IsTidy d.gt rest neigh' val (remove_node-IsTidy open_set neigh' h.tidy))
        (add_node-AllIn d.gt InGrid rest neigh' val
          (record { x_low = g.x_low; x_high = g.x_high; y_low = g.y_low; y_high = g.y_high })
          (remove_node-AllIn InGrid open_set neigh' h.inside))
        (add_node-DistinctIn d.gt rest neigh' val
          (remove_node-Differ open_set neigh' h.tidy h.distinct)
          (remove_node-DistinctIn open_set neigh' h.distinct))
        (add_node-AllIn d.gt (λ n. AllIn (Differ n) closed_set) rest neigh' val
          (AllIn-map (Differ neigh) (Differ neigh') closed_set same_place c)
          (remove_node-AllIn (λ n. AllIn (Differ n) closed_set) open_set neigh' h.fresh))
    where
      neigh' : Node D
      neigh' = record neigh { back_link = some link; g_score = tent }

      rest : Chain D
      rest = remove_node open_set neigh'

      val : D
      val = d.plus tent (est_distance_g d map goal_x goal_y neigh')

      same_place : (n : Node D) → Differ neigh n → Differ neigh' n
      same_place n e = Differ-moved neigh n (some link) tent e

      all :
          (o : Option (Chain D))
          → OnSome IsTidy o
          → OnSome (AllIn InGrid) o
          → OnSome DistinctIn o
          → OnSome (AllIn (λ n. AllIn (Differ n) closed_set)) o
          → OnSome (IsOpen closed_set) o
      all none t i u f = tt
      all (some l) t i u f = record { tidy = t; inside = i; distinct = u; fresh = f }

  visit-IsOpen :
      (current : Node D) (link : ℕ) (closed_set : Chain D) (neigh : Node D) (open_set : Chain D)
      → IsTidy closed_set
      → InGrid neigh
      → IsOpen closed_set open_set
      → OnSome
          (IsOpen closed_set)
          (visit d map goal_x goal_y current link closed_set neigh open_set)
  unfolding visit
  visit-IsOpen current link closed_set neigh open_set t g h =
      by_closed (find_node closed_set neigh) refl (find_node open_set neigh)
    where
      tent : D
      tent = d.plus current.g_score (d.est_distance neigh.x neigh.y current.x current.y)

      relaxed :
          OnSome (IsOpen closed_set) (relax d map goal_x goal_y current link neigh tent open_set)
          → (o : Option (Node D))
          → OnSome (IsOpen closed_set) (elim o [
            | none ↦ relax d map goal_x goal_y current link neigh tent open_set
            | some old ↦
                if d.gt old.g_score tent
                then relax d map goal_x goal_y current link neigh tent open_set
                else some open_set
          ])
      relaxed k none = k
      relaxed k (some old) =
          if_inv (OnSome (IsOpen closed_set)) (d.gt old.g_score tent)
            (relax d map goal_x goal_y current link neigh tent open_set) (some open_set) k h

      by_closed :
          (c : Option (Node D))
          → find_node closed_set neigh ≡ c
          → (o : Option (Node D))
          → OnSome (IsOpen closed_set) (elim c [
            | some old ↦ some open_set
            | none ↦ elim o [
              | none ↦ relax d map goal_x goal_y current link neigh tent open_set
              | some old ↦
                  if d.gt old.g_score tent
                  then relax d map goal_x goal_y current link neigh tent open_set
                  else some open_set
            ]
          ])
      by_closed (some old) e o = h
      by_closed none e o =
          relaxed
            (relax-IsOpen current link neigh tent closed_set open_set g
              (find_node-Differ closed_set neigh t e) h)
            o

  pub visit_all-IsOpen :
      (current : Node D) (link : ℕ) (closed_set neighbors open_set : Chain D)
      → IsTidy closed_set
      → AllIn InGrid neighbors
      → IsOpen closed_set open_set
      → OnSome
          (IsOpen closed_set)
          (visit_all d map goal_x goal_y current link closed_set neighbors open_set)
  unfolding visit_all AllIn
  visit_all-IsOpen current link closed_set null open_set t g h = h
  visit_all-IsOpen current link closed_set (cell none val rest) open_set t g h = h
  visit_all-IsOpen current link closed_set (cell (some neigh) val rest) open_set t g h =
      OnSome-bind (IsOpen closed_set) (IsOpen closed_set)
        (visit d map goal_x goal_y current link closed_set neigh open_set)
        (visit_all d map goal_x goal_y current link closed_set rest)
        (visit-IsOpen current link closed_set neigh open_set t g.0 h)
        (λ l k. visit_all-IsOpen current link closed_set rest l t g.1 k)

  -- Closing the node that was taken from the open set.
  pub close-IsClosed :
      (closed_set : Chain D) (expanded : List (Node D)) (current : Node D) (val : D)
      → InGrid current
      → AllIn (Differ current) closed_set
      → IsClosed closed_set expanded
      → OnSome (λ c. IsClosed c (expanded ++ (current ∷ []))) (add_node d.gt closed_set current val)
  close-IsClosed closed_set expanded current val g fresh h =
      all (add_node d.gt closed_set current val)
        (add_node-IsTidy d.gt closed_set current val h.tidy)
        (λ n. add_node-AllIn_inv d.gt (Differ n) closed_set current val)
    where
      seen : Fresh (spot current) (spots expanded)
      seen = h.covers current g fresh

      all :
          (o : Option (Chain D))
          → OnSome IsTidy o
          → ((n : Node D)
              → OnSome (λ c. AllIn (Differ n) c → Differ n current × AllIn (Differ n) closed_set) o)
          → OnSome (λ c. IsClosed c (expanded ++ (current ∷ []))) o
      all none t inv = tt
      all (some c) t inv = record {
        tidy = t;
        covers = λ n gn k.
            let r = inv n k in
            rw (spots-append expanded current) (
              Fresh-append (spot n) (spot current) (spots expanded) (spot-ne n current gn g r.0)
                (h.covers n gn r.1));
        distinct =
            rw (spots-append expanded current)
              (Distinct-append (spot current) (spots expanded) seen h.distinct);
        below = rw (spots-append expanded current) (
            Below-append (grid_num * grid_num) (spot current) (spots expanded) (spot-lt current g)
              h.below);
      }

  -- The rest of the open set, once the node taken from it is closed.
  pub rest-IsOpen :
      (closed_set : Chain D) (current : Node D) (val score : D) (rest : Chain D)
      → IsOpen closed_set (cell (some current) val rest)
      → OnSome (λ c. IsOpen c (or_new d.zero_score rest)) (add_node d.gt closed_set current score)
  unfolding IsTidy AllIn DistinctIn
  rest-IsOpen closed_set current val score rest h =
      all (add_node d.gt closed_set current score)
        (λ n e k. add_node-AllIn d.gt (Differ n) closed_set current score e k)
    where
      all :
          (o : Option (Chain D))
          → ((n : Node D)
              → Differ n current
              → AllIn (Differ n) closed_set
              → OnSome (AllIn (Differ n)) o)
          → OnSome (λ c. IsOpen c (or_new d.zero_score rest)) o
      all none f = tt
      all (some c) f = record {
        tidy = or_new-IsTidy d.zero_score rest h.tidy;
        inside = or_new-AllIn d.zero_score InGrid rest h.inside.1;
        distinct = or_new-DistinctIn d.zero_score rest h.distinct.1;
        fresh =
            or_new-AllIn d.zero_score (λ n. AllIn (Differ n) c) rest
              (both rest h.distinct.0 h.fresh.1);
      }
        where
          both :
              (l : Chain D)
              → AllIn (Differ current) l
              → AllIn (λ n. AllIn (Differ n) closed_set) l
              → AllIn (λ n. AllIn (Differ n) c) l
          both null a b = tt
          both (cell none v r) a b = both r a b
          both (cell (some n) v r) a b = (f n (Differ-symm current n a.0) b.0, both r a.1 b.1)
