-- ===== src/Planner/Seen.antt =====
-- What the loop over the neighbours in controllers/a_star.c leaves in the open set: the places that
-- were there, and those of the neighbours that are not closed.
use pint.Common.{
  ℕ, ◌≡◌, refl, true, Option, none, some, arith, if◌then◌else◌, Bool-cases, inl, inr, if_inv,
  OnSome, OnSome-bind, OnSome-mono,
}
use pint.Common.Int.{ℤ}
use pint.Mapping.{Node, Chain, null, cell, node_equals, add_node, remove_node, find_node}
use pint.Mapping.Sorted.{IsTidy}
use pint.Planner.Grid.{Grid, Doubles}
use pint.Planner.Search.{relax, visit, visit_all, est_distance_g}
use pint.Planner.Chains.{Differ, AllIn, add_node-AllIn_inv, add_node-IsTidy, remove_node-IsTidy}

module _ {D : Type 0} where
  Differ-same_right : (m a b : Node D) → node_equals a b ≡ true → Differ m b → Differ m a
  unfolding node_equals
  Differ-same_right m a b e h = ground (arith, e, h)

  -- What findNode finds at the place of x is not at another place.
  find_node_inv :
      (l : Chain D) (x y m : Node D) → find_node l x ≡ some y → AllIn (Differ m) l → Differ m x
  unfolding find_node AllIn
  find_node_inv null x y m e h = cc
  find_node_inv (cell none val rest) x y m e h = cc
  find_node_inv (cell (some head) val rest) x y m e h = elim (Bool-cases (node_equals x head)) [
    | inl same ↦ Differ-same_right m x head same h.0
    | inr differ ↦ find_node_inv rest x y m (rw differ at e) h.1
  ]

  -- removeNode removes no node at another place.
  remove_node_inv :
      (l : Chain D) (n m : Node D)
      → Differ m n
      → AllIn (Differ m) (remove_node l n)
      → AllIn (Differ m) l
  unfolding remove_node AllIn
  remove_node_inv null n m d h = tt
  remove_node_inv (cell none val rest) n m d h = h
  remove_node_inv (cell (some head) val rest) n m d h = elim (Bool-cases (node_equals head n)) [
    | inl e ↦ (Differ-same_right m head n e d, rw e at h)
    | inr e ↦
        let k : Differ m head × AllIn (Differ m) (remove_node rest n) = rw e at h in
        (k.0, remove_node_inv rest n m d k.1)
  ]

module _ {D : Type 0} (d : Doubles D) (map : Grid) (goal_x goal_y : ℤ) where
  -- A place that is not in the open set after the neighbour was not there before, and is not the
  -- neighbour's, unless that is closed.
  pub record Kept (closed_set open_set : Chain D) (neigh n : Node D) (open' : Chain D)
      : Type 0 where
    pub before : AllIn (Differ n) open' → AllIn (Differ n) open_set
    pub handled : AllIn (Differ n) closed_set → AllIn (Differ n) open' → Differ n neigh
    pub tidy : IsTidy open_set → IsTidy open'

  relax-Kept :
      (current : Node D) (link : ℕ) (neigh : Node D) (tent : D) (closed_set open_set : Chain D)
      (n : Node D)
      → OnSome
          (Kept closed_set open_set neigh n)
          (relax d map goal_x goal_y current link neigh tent open_set)
  unfolding relax node_equals
  relax-Kept current link neigh tent closed_set open_set n =
      kept (add_node d.gt (remove_node open_set neigh') neigh' score)
        (add_node-AllIn_inv d.gt (Differ n) (remove_node open_set neigh') neigh' score)
        (λ t.
          add_node-IsTidy d.gt (remove_node open_set neigh') neigh' score
            (remove_node-IsTidy open_set neigh' t))
    where
      neigh' : Node D
      neigh' = record neigh { back_link = some link; g_score = tent }

      score : D
      score = d.plus tent (est_distance_g d map goal_x goal_y neigh')

      kept :
          (o : Option (Chain D))
          → OnSome
              (λ l.
                AllIn (Differ n) l
                → Differ n neigh' × AllIn (Differ n) (remove_node open_set neigh'))
              o
          → (IsTidy open_set → OnSome IsTidy o)
          → OnSome (Kept closed_set open_set neigh n) o
      kept none inv t = tt
      kept (some l) inv t = record {
        tidy = t;
        before = λ h. remove_node_inv open_set neigh' n (inv h).0 (inv h).1;
        handled = λ c h. (inv h).0;
      }

  visit-Kept :
      (current : Node D) (link : ℕ) (closed_set : Chain D) (neigh : Node D) (open_set : Chain D)
      (n : Node D)
      → OnSome
          (Kept closed_set open_set neigh n)
          (visit d map goal_x goal_y current link closed_set neigh open_set)
  unfolding visit
  visit-Kept current link closed_set neigh open_set n =
      by_closed (find_node closed_set neigh) refl (find_node open_set neigh) refl
    where
      tent : D
      tent = d.plus current.g_score (d.est_distance neigh.x neigh.y current.x current.y)

      Result : Option (Chain D) → Type 0
      Result = OnSome (Kept closed_set open_set neigh n)

      relaxed : Result (relax d map goal_x goal_y current link neigh tent open_set)
      relaxed = relax-Kept current link neigh tent closed_set open_set n

      by_open :
          (o : Option (Node D))
          → find_node open_set neigh ≡ o
          → Result (elim o [
            | none ↦ relax d map goal_x goal_y current link neigh tent open_set
            | some old ↦
                if d.gt old.g_score tent
                then relax d map goal_x goal_y current link neigh tent open_set
                else some open_set
          ])
      by_open none e = relaxed
      by_open (some old) e =
          if_inv Result (d.gt old.g_score tent)
            (relax d map goal_x goal_y current link neigh tent open_set) (some open_set) relaxed
            (record {
              before = λ h. h;
              handled = λ c h. find_node_inv open_set neigh old n e h;
              tidy = λ t. t;
            })

      by_closed :
          (c : Option (Node D))
          → find_node closed_set neigh ≡ c
          → (o : Option (Node D)) → find_node open_set neigh ≡ o
          → Result (elim c [
            | some old ↦ some open_set
            | none ↦ elim o [
              | none ↦ relax d map goal_x goal_y current link neigh tent open_set
              | some old ↦
                  if d.gt old.g_score tent
                  then relax d map goal_x goal_y current link neigh tent open_set
                  else some open_set
            ]
          ])
      by_closed (some old) e o f = record {
        before = λ h. h;
        handled = λ c h. find_node_inv closed_set neigh old n e c;
        tidy = λ t. t;
      }
      by_closed none e o f = by_open o f

  -- What visiting all neighbours does to the place of n.
  pub record KeptAll (closed_set neighbors open_set : Chain D) (n : Node D) (open' : Chain D)
      : Type 0 where
    pub before : AllIn (Differ n) open' → AllIn (Differ n) open_set
    pub handled : AllIn (Differ n) closed_set → AllIn (Differ n) open' → AllIn (Differ n) neighbors
    pub tidy : IsTidy open_set → IsTidy open'

  pub visit_all-KeptAll :
      (current : Node D) (link : ℕ) (closed_set neighbors open_set : Chain D) (n : Node D)
      → IsTidy neighbors
      → OnSome
          (KeptAll closed_set neighbors open_set n)
          (visit_all d map goal_x goal_y current link closed_set neighbors open_set)
  unfolding visit_all AllIn IsTidy
  visit_all-KeptAll current link closed_set null open_set n t = record {
    before = λ h. h;
    handled = λ c h. tt;
    tidy = λ t. t;
  }
  visit_all-KeptAll current link closed_set (cell none val rest) open_set n t = record {
    before = λ h. h;
    handled = λ c h. rw t tt;
    tidy = λ t. t;
  }
  visit_all-KeptAll current link closed_set (cell (some neigh) val rest) open_set n t =
      OnSome-bind (Kept closed_set open_set neigh n)
        (KeptAll closed_set (cell (some neigh) val rest) open_set n)
        (visit d map goal_x goal_y current link closed_set neigh open_set)
        (visit_all d map goal_x goal_y current link closed_set rest)
        (visit-Kept current link closed_set neigh open_set n)
        (λ l k.
          OnSome-mono (KeptAll closed_set rest l n)
            (KeptAll closed_set (cell (some neigh) val rest) open_set n)
            (visit_all d map goal_x goal_y current link closed_set rest l)
            (visit_all-KeptAll current link closed_set rest l n t)
            (λ o r. record {
              before = λ h. k.before (r.before h);
              handled = λ c h. (k.handled c (r.before h), r.handled c h);
              tidy = λ t. r.tidy (k.tidy t);
            }))
