-- ===== src/Planner/Routes.antt =====
-- What `command` of controllers/a_star.c extracts after a search is a way from the pose to the goal.
use pint.Common.{
  ℕ, zero, suc, ◌+◌, ◌≤◌, ◌<◌, ◌≡◌, refl, sym, subst, ◌∙◌, ap, List, [], ◌∷◌, none, some, arith,
  inl, inr, length, get_or,
}
use pint.Common.Int.{ℤ}
use pint.Mapping.{Node, Chain, null, cell, push, new_list, new_node}
use pint.Planner.Grid.{Grid, Doubles}
use pint.Planner.Search.{Sets, found, search, extract, start_sets, est_distance_g}
use pint.Planner.Chains.{AllIn}
use pint.Planner.Walks.{Step, From, IsRoute}
use pint.Planner.Ends.{start_sets_lem}
use pint.Planner.Paths.{nth, Linked, IsLinked}
use pint.Planner.Links.{Reached, OnFound, search-OnFound}

module _ {D : Type 0} (d : Doubles D) (map : Grid) (goal_x goal_y pose_x pose_y : ℤ) where
  abbrev Link : List (Node D) → ℕ → Node D → Type 0
  Link = Linked d map goal_x goal_y pose_x pose_y

  abbrev Links : List (Node D) → Chain D → Type 0
  Links = IsLinked d map goal_x goal_y pose_x pose_y

  abbrev at_index : List (Node D) → ℕ → Node D
  at_index = nth d map goal_x goal_y pose_x pose_y

  abbrev Way : Chain D → Type 0
  Way = IsRoute map goal_x goal_y pose_x pose_y

  same_nth : (l : List (Node D)) (k : ℕ) (a : Node D) → k < length l → get_or l k a ≡ at_index l k
  same_nth [] k a lt = absurd (omega arith)
  same_nth (b ∷ l) zero a lt = refl
  same_nth (b ∷ l) (suc k) a lt = same_nth l k a (omega arith)

  extract_link :
      (fuel k : ℕ) (expanded : List (Node D)) (current : Node D) (path : Chain D)
      → current.back_link ≡ some k
      → extract d map goal_x goal_y (suc fuel) expanded current path
        ≡ extract d map goal_x goal_y fuel expanded
            (get_or expanded k current)
            (cell (some current) d.zero_score path)
  unfolding extract push
  extract_link fuel k expanded current path e = ground (arith, e)

  extract_end :
      (fuel : ℕ) (expanded : List (Node D)) (current : Node D) (path : Chain D)
      → current.back_link ≡ none
      → extract d map goal_x goal_y (suc fuel) expanded current path
        ≡ some (cell (some current) d.zero_score path)
  unfolding extract push
  extract_end fuel expanded current path e = ground (arith, e)

  extract-IsRoute :
      (fuel bound : ℕ) (expanded : List (Node D)) (current : Node D) (path : Chain D)
      → bound < fuel
      → bound ≤ length expanded
      → Link expanded bound current
      → ((i : ℕ) → i < length expanded → Link expanded i (at_index expanded i))
      → From map goal_x goal_y current path
      → (path' : Chain D) × (extract d map goal_x goal_y fuel expanded current path ≡ some path')
        × Way path'
  unfolding Linked IsRoute From
  extract-IsRoute zero bound expanded current path lt le l done way = absurd (omega arith)
  extract-IsRoute (suc fuel) bound expanded current path lt le (inl (e, start)) done way = (
    cell (some current) d.zero_score path,
    extract_end fuel expanded current path e,
    (start, way),
  )
  extract-IsRoute (suc fuel) bound expanded current path lt le (inr (k, e, below, step)) done way =
      let before = get_or expanded k current in
      let same : before ≡ at_index expanded k = same_nth expanded k current (omega arith) in
      let (path', eq, r) =
        extract-IsRoute fuel k expanded before (cell (some current) d.zero_score path) (omega arith)
          (omega arith) (subst (Link expanded k) (sym same) (done k (omega arith))) done
          (subst (λ b. Step map b current) (sym same) step, way) in
      (path', extract_link fuel k expanded current path e ∙ eq, r)

  some_inj : (a b : Sets D) → some a ≡ some b → a ≡ b
  some_inj a b e = cc

  -- When the search of `command`, from the pose, has found the goal, the loop over the back links
  -- ends within as many rounds as nodes were expanded and one, and pushes a way from the pose to
  -- the goal: it begins at the pose and ends at the goal, and each node is one step from the one
  -- before it, in one of the eight directions, to a free cell, and not between two obstacles.
  pub extract_lem :
      (fuel : ℕ) (s s' : Sets D) (current : Node D)
      → start_sets d map goal_x goal_y pose_x pose_y ≡ some s
      → search d map goal_x goal_y fuel s ≡ found current s'
      → (path : Chain D) × (extract d map goal_x goal_y
            (length s'.expanded + 1)
            s'.expanded
            current
            (new_list d.zero_score)
          ≡ some path)
        × IsRoute map goal_x goal_y pose_x pose_y path
  unfolding From new_list new_node Linked AllIn
  extract_lem fuel s s' current started reached =
      extract-IsRoute (length s'.expanded + 1) (length s'.expanded) s'.expanded current
        (new_list d.zero_score) (omega arith) (omega arith) ends.last ends.done ends.at_goal
    where
      start : Node D
      start = new_node pose_x pose_y d.zero_score

      open_set : Chain D
      open_set = cell (some start) (est_distance_g d map goal_x goal_y start) null

      first : Sets D
      first = record {
        open_set = open_set;
        closed_set = cell none d.zero_score null;
        expanded = [];
      }

      same : some first ≡ some s
      same = sym (start_sets_lem d map goal_x goal_y pose_x pose_y) ∙ started

      start_links : Links [] open_set
      start_links = record {
        done = λ i lt. absurd (omega arith);
        opened = (inl (refl, record { at_x = refl; at_y = refl }), tt);
      }

      ends : Reached d map goal_x goal_y pose_x pose_y current s'
      ends =
          subst (OnFound d map goal_x goal_y pose_x pose_y)
            (ap (search d map goal_x goal_y fuel) (some_inj first s same) ∙ reached)
            (search-OnFound d map goal_x goal_y pose_x pose_y fuel open_set
              (cell none d.zero_score null) [] start_links)
