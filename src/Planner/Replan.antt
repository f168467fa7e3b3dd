-- ===== src/Planner/Replan.antt =====
-- What `command` of controllers/a_star.c leaves: the waypoints it aims at, and that it does not
-- send them again.
use pint.Common.{
  ℕ, suc, zero, ◌+◌, ◌≡◌, refl, sym, ◌∙◌, ap, subst, ◌⊎◌, inl, inr, true, List, Option, none, some,
  arith, length, get_or, bind_inv,
}
use pint.Common.Int.{ℤ, eq_of_parts}
use pint.Os.{Os, Log}
use pint.CommTypes.Types.{TypedPipe}
use pint.Mapping.{
  Node, Chain, null, cell, node_equals, nodes_equal, push, erase_list, new_list, or_new,
}
use pint.Mapping.Sorted.{IsTidy, IsCell}
use pint.Planner.Grid.{Grid, Doubles}
use pint.Planner.Search.{
  Sets, Outcome, found, exhausted, fault, out_of_fuel, start_sets, search, search_fuel, extract,
}
use pint.Planner.Command.{AStar, PipeIndexes, offer_path, finish, command}

-- The list begins with a node and has no gap.
abbrev pub IsPath : {D : Type 0} → Chain D → Type 0
IsPath null = ⊥
IsPath (cell none val rest) = ⊥
IsPath (cell (some n) val rest) = IsTidy rest

pub erase_list_lem :
    {D : Type 0} (z : D) (l : Chain D) → IsCell l → IsTidy l → erase_list z l ≡ some (new_list z)
unfolding erase_list IsCell IsTidy or_new
erase_list_lem z null c t = absurd c
erase_list_lem z (cell none val rest) c t = rw t refl
erase_list_lem z (cell (some n) val null) c t = refl
erase_list_lem z (cell (some n) val (cell h v r)) c t = erase_list_lem z (cell h v r) tt t

node_equals_refl : {D : Type 0} (n : Node D) → node_equals n n ≡ true
unfolding node_equals
node_equals_refl n = ground arith

pub node_equals-same :
    {D : Type 0} (a b : Node D) → node_equals a b ≡ true → (a.x ≡ b.x) × (a.y ≡ b.y)
unfolding node_equals
node_equals-same a b e =
    (eq_of_parts a.x b.x (ground (arith, e)), eq_of_parts a.y b.y (ground (arith, e)))

nodes_equal_inv :
    {D : Type 0} (a b : Option (Node D))
    → nodes_equal a b ≡ true
    → (n : Node D) × (m : Node D) × (a ≡ some n) × (b ≡ some m) × (n.x ≡ m.x) × (n.y ≡ m.y)
unfolding nodes_equal
nodes_equal_inv none b e = cc
nodes_equal_inv (some a) none e = cc
nodes_equal_inv (some a) (some b) e = let h = node_equals-same a b e in (a, b, refl, refl, h.0, h.1)

pub some_inj : {A : Type 0} (a b : A) → some a ≡ some b → a ≡ b
some_inj a b e = cc

module _ {D : Type 0} (d : Doubles D) (goal_x goal_y : ℤ) where
  pub extract-IsPath :
      (map : Grid) (fuel : ℕ) (expanded : List (Node D)) (current : Node D) (path p : Chain D)
      → IsTidy path
      → extract d map goal_x goal_y fuel expanded current path ≡ some p
      → IsPath p
  unfolding extract push IsTidy
  extract-IsPath map zero expanded current path p t e = cc
  extract-IsPath map (suc fuel) expanded current path p t e =
      by_link current.back_link
        (λ k l. extract-IsPath map fuel expanded (get_or expanded k current) path' p t l) e
    where
      path' : Chain D
      path' = cell (some current) d.zero_score path

      by_link :
          (o : Option ℕ)
          → ((k : ℕ)
              → extract d map goal_x goal_y fuel expanded (get_or expanded k current) path' ≡ some p
              → IsPath p)
          → elim o as (λ x. Option (Chain D)) [
            | none ↦ some path'
            | some link ↦
                extract d map goal_x goal_y fuel expanded (get_or expanded link current) path'
          ]
            ≡ some p
          → IsPath p
      by_link none deeper l = subst IsPath (some_inj path' p l) t
      by_link (some k) deeper l = deeper k l

  -- A run of command that found a path.
  pub record Planned (os : Os) (pipes : List TypedPipe) (indexes : PipeIndexes) (st st' : AStar D)
      (w w' : Log) : Type 0 where
    pub sets : Sets D
    pub sets' : Sets D
    pub current : Node D
    pub path : Chain D
    pub started : start_sets d st.obstacle_map goal_x goal_y st.pose_x st.pose_y ≡ some sets
    pub reached : search d st.obstacle_map goal_x goal_y search_fuel sets ≡ found current sets'
    pub extracted :
        extract d st.obstacle_map goal_x goal_y
          (length sets'.expanded + 1)
          sets'.expanded
          current
          (new_list d.zero_score)
        ≡ some path
    pub is_path : IsPath path
    pub offered :
        offer_path d goal_x goal_y os pipes indexes (record st { goal_path = path }) w
        ≡ some (st', w')

  -- A run of command whose search ended with an empty open set, and which then did nothing.
  pub record Unplanned (st st' : AStar D) (w w' : Log) : Type 0 where
    pub sets : Sets D
    pub sets' : Sets D
    pub started : start_sets d st.obstacle_map goal_x goal_y st.pose_x st.pose_y ≡ some sets
    pub ended : search d st.obstacle_map goal_x goal_y search_fuel sets ≡ exhausted sets'
    pub same : st ≡ st'
    pub same_log : w ≡ w'

  module _ (os : Os) (pipes : List TypedPipe) (indexes : PipeIndexes) where
    pub command_inv :
        (st st' : AStar D) (w w' : Log)
        → IsCell st.goal_path
        → IsTidy st.goal_path
        → command d goal_x goal_y os pipes indexes st w ≡ some (st', w')
        → Unplanned st st' w w' ⊎ Planned os pipes indexes st st' w w'
    unfolding command finish IsTidy new_list
    command_inv st st' w w' c t e =
        let map = st.obstacle_map in
        let (s, started, h) =
          bind_inv (start_sets d map goal_x goal_y st.pose_x st.pose_y) _ (st', w') e in
        by_outcome s started (search d map goal_x goal_y search_fuel s) refl h
      where
        by_outcome :
            (s : Sets D)
            → start_sets d st.obstacle_map goal_x goal_y st.pose_x st.pose_y ≡ some s
            → (o : Outcome D) → search d st.obstacle_map goal_x goal_y search_fuel s ≡ o
            → finish d goal_x goal_y os pipes indexes st w o ≡ some (st', w')
            → Unplanned st st' w w' ⊎ Planned os pipes indexes st st' w w'
        by_outcome s started (found current s') q h =
            let steps = length s'.expanded + 1 in
            let (empty, erased, h1) =
              bind_inv (erase_list d.zero_score st.goal_path) _ (st', w') h in
            let (path, got, h2) =
              bind_inv (extract d st.obstacle_map goal_x goal_y steps s'.expanded current empty) _
                (st', w') h1 in
            let cleared =
              some_inj (new_list d.zero_score) empty
                (sym (erase_list_lem d.zero_score st.goal_path c t) ∙ erased) in
            let got' : extract d st.obstacle_map goal_x goal_y steps s'.expanded current
                  (new_list d.zero_score)
                ≡ some path =
              rw cleared got in
            inr (record {
              sets = s;
              sets' = s';
              current = current;
              path = path;
              started = started;
              reached = q;
              extracted = got';
              is_path =
                  extract-IsPath st.obstacle_map steps s'.expanded current (new_list d.zero_score)
                    path refl got';
              offered = h2;
            })
        by_outcome s started (exhausted s') q h =
            let k = some_inj (st, w) (st', w') h in
            inl (record {
              sets = s;
              sets' = s';
              started = started;
              ended = q;
              same = ap (λ p. p.0) k;
              same_log = ap (λ p. p.1) k;
            })
        by_outcome s started fault q h = cc
        by_outcome s started out_of_fuel q h = cc
