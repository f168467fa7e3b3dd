-- ===== src/Planner/Paths.antt =====
-- What the search of controllers/a_star.c finds is a way from the pose to the goal.
use pint.Common.{
  ℕ, zero, suc, ◌≤◌, ◌<◌, ◌≡◌, refl, sym, subst, ◌⊎◌, List, [], ◌∷◌, ◌++◌, Option, none, some,
  arith, if◌then◌else◌, if_inv, inl, inr, OnSome, OnSome-bind, length, get_or,
}
use pint.Common.Int.{ℤ}
use pint.Mapping.{Node, Chain, null, cell, remove_node, find_node, new_node}
use pint.Planner.Grid.{Grid, Doubles}
use pint.Planner.Search.{relax, visit, visit_all, est_distance_g}
use pint.Planner.Chains.{AllIn, add_node-AllIn, remove_node-AllIn}
use pint.Planner.Walks.{Step, At}

module _ {D : Type 0} (d : Doubles D) (map : Grid) (goal_x goal_y pose_x pose_y : ℤ) where
  abbrev pub nth : List (Node D) → ℕ → Node D
  nth l k = get_or l k (new_node pose_x pose_y d.zero_score)

  -- The node is the pose, with no link, or it is one step from an expanded node below the bound.
  unfoldable pub Linked : List (Node D) → ℕ → Node D → Type 0
  Linked expanded bound n =
      ((n.back_link ≡ none) × At pose_x pose_y n)
      ⊎ ((k : ℕ) × (n.back_link ≡ some k) × (k < bound) × Step map (nth expanded k) n)

  -- Every expanded node is linked to earlier ones, every open node to expanded ones.
  pub record IsLinked (expanded : List (Node D)) (open_set : Chain D) : Type 0 where
    pub done : (i : ℕ) → i < length expanded → Linked expanded i (nth expanded i)
    pub opened : AllIn (Linked expanded (length expanded)) open_set

  pub nth-append :
      (l : List (Node D)) (n : Node D) (k : ℕ) → k < length l → nth (l ++ (n ∷ [])) k ≡ nth l k
  nth-append [] n k lt = absurd (omega arith)
  nth-append (a ∷ l) n zero lt = refl
  nth-append (a ∷ l) n (suc k) lt = nth-append l n k (omega arith)

  pub nth-last : (l : List (Node D)) (n : Node D) → nth (l ++ (n ∷ [])) (length l) ≡ n
  nth-last [] n = refl
  nth-last (a ∷ l) n = nth-last l n

  pub Linked-append :
      (l : List (Node D)) (n a : Node D) (bound bound' : ℕ)
      → bound ≤ length l
      → bound ≤ bound'
      → Linked l bound a
      → Linked (l ++ (n ∷ [])) bound' a
  unfolding Linked
  Linked-append l n a bound bound' fits le (inl start) = inl start
  Linked-append l n a bound bound' fits le (inr (k, link, lt, step)) =
      inr (
        k,
        link,
        omega arith,
        subst (λ e. Step map e a) (sym (nth-append l n k (omega arith))) step,
      )

  -- The links that relax sets.
  relax-AllIn :
      (P : Node D → Type 0) (current : Node D) (link : ℕ) (neigh : Node D) (tent : D)
      (open_set : Chain D)
      → P (record neigh { back_link = some link; g_score = tent })
      → AllIn P open_set
      → OnSome (AllIn P) (relax d map goal_x goal_y current link neigh tent open_set)
  unfolding relax
  relax-AllIn P current link neigh tent open_set p h =
      add_node-AllIn d.gt P
        (remove_node open_set (record neigh { back_link = some link; g_score = tent }))
        (record neigh { back_link = some link; g_score = tent })
        (d.plus tent (
          est_distance_g d map goal_x goal_y
            (record neigh { back_link = some link; g_score = tent })))
        p (remove_node-AllIn P open_set (record neigh { back_link = some link; g_score = tent }) h)

  visit-AllIn :
      (P : Node D → Type 0) (current : Node D) (link : ℕ) (closed_set : Chain D) (neigh : Node D)
      (open_set : Chain D)
      → ((tent : D) → P (record neigh { back_link = some link; g_score = tent }))
      → AllIn P open_set
      → OnSome (AllIn P) (visit d map goal_x goal_y current link closed_set neigh open_set)
  unfolding visit
  visit-AllIn P current link closed_set neigh open_set p h =
      by_closed (find_node closed_set neigh) (find_node open_set neigh)
    where
      tent : D
      tent = d.plus current.g_score (d.est_distance neigh.x neigh.y current.x current.y)

      relaxed : OnSome (AllIn P) (relax d map goal_x goal_y current link neigh tent open_set)
      relaxed = relax-AllIn P current link neigh tent open_set (p tent) h

      by_closed :
          (c o : Option (Node D))
          → OnSome (AllIn P) (elim c [
            | some old ↦ some open_set
            | none ↦ elim o [
              | none ↦ relax d map goal_x goal_y current link neigh tent open_set
              | some old ↦
                  if d.gt old.g_score tent
                  then relax d map goal_x goal_y current link neigh tent open_set
                  else some open_set
            ]
          ])
      by_closed (some old) o = h
      by_closed none none = relaxed
      by_closed none (some old) =
          if_inv (OnSome (AllIn P)) (d.gt old.g_score tent)
            (relax d map goal_x goal_y current link neigh tent open_set) (some open_set) relaxed h

  pub visit_all-AllIn :
      (P Q : Node D → Type 0) (current : Node D) (link : ℕ)
      (closed_set neighbors open_set : Chain D)
      → ((n : Node D) (tent : D) → Q n → P (record n { back_link = some link; g_score = tent }))
      → AllIn Q neighbors
      → AllIn P open_set
      → OnSome (AllIn P) (visit_all d map goal_x goal_y current link closed_set neighbors open_set)
  unfolding visit_all AllIn
  visit_all-AllIn P Q current link closed_set null open_set f q h = h
  visit_all-AllIn P Q current link closed_set (cell none val rest) open_set f q h = h
  visit_all-AllIn P Q current link closed_set (cell (some neigh) val rest) open_set f q h =
      OnSome-bind (AllIn P) (AllIn P)
        (visit d map goal_x goal_y current link closed_set neigh open_set)
        (visit_all d map goal_x goal_y current link closed_set rest)
        (visit-AllIn P current link closed_set neigh open_set (λ tent. f neigh tent q.0) h)
        (λ l k. visit_all-AllIn P Q current link closed_set rest l f q.1 k)
