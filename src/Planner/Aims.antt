-- ===== src/Planner/Aims.antt =====
-- `command` of controllers/a_star.c as a whole: where its waypoints lie, and that a second call
-- sends nothing.
use pint.Common.{
  ◌+◌, ◌≡◌, sym, ◌∙◌, subst, ◌⊎◌, inl, inr, List, Option, none, some, length, bind_of,
}
use pint.Common.Int.{ℤ}
use pint.Os.{Os, Log}
use pint.CommTypes.Types.{TypedPipe}
use pint.Mapping.{Node, Chain, null, cell, peek, new_list}
use pint.Mapping.Sorted.{IsTidy, IsCell}
use pint.Planner.Grid.{Grid, Doubles}
use pint.Planner.Search.{Sets, found, start_sets, search, search_fuel, extract}
use pint.Planner.Walks.{Step, At, From, IsRoute}
use pint.Planner.Routes.{extract_lem}
use pint.Planner.Exhausted.{search_exhausted}
use pint.Planner.Command.{AStar, PipeIndexes, offer_path, finish, command}
use pint.Planner.Replan.{Planned, command_inv, erase_list_lem, some_inj}
use pint.Planner.Offer.{Follows, SamePlace, Offered, offer_path-Offered, offer_path_again}

-- What the two current goals of the planner are for a map, a pose and a goal: the first is at the
-- pose; the second, where there is one, is one step from the first; without a second, the first is
-- at the goal.
pub Aims : {D : Type 0} → Grid → ℤ → ℤ → ℤ → ℤ → Option (Node D) → Option (Node D) → Type 0
Aims map pose_x pose_y goal_x goal_y none b = ⊥
Aims map pose_x pose_y goal_x goal_y (some n) none = At pose_x pose_y n × At goal_x goal_y n
Aims map pose_x pose_y goal_x goal_y (some n) (some m) = At pose_x pose_y n × Step map n m

At-same : {D : Type 0} (x y : ℤ) (n m : Node D) → At x y n → SamePlace n m → At x y m
At-same x y n m a s = record { at_x = sym s.x_same ∙ a.at_x; at_y = sym s.y_same ∙ a.at_y }

Step-same :
    {D : Type 0} (map : Grid) (n n' m m' : Node D)
    → SamePlace n n'
    → SamePlace m m'
    → Step map n m
    → Step map n' m'
Step-same map n n' m m' s r step = record {
  i = step.i;
  j = step.j;
  short = step.short;
  to_x = rw (← s.x_same, ← r.x_same) step.to_x;
  to_y = rw (← s.y_same, ← r.y_same) step.to_y;
  free = rw (← s.x_same, ← s.y_same) step.free;
}

module _ {D : Type 0} (map : Grid) (goal_x goal_y pose_x pose_y : ℤ) where
  route-Aims :
      (p : Chain D) (a b : Option (Node D))
      → IsRoute map goal_x goal_y pose_x pose_y p
      → Follows (peek p 0) a
      → Follows (peek p 1) b
      → Aims map pose_x pose_y goal_x goal_y a b
  unfolding IsRoute From peek Aims
  route-Aims null a b r f g = absurd r
  route-Aims (cell none v rest) a b r f g = absurd r
  route-Aims (cell (some n) v rest) none b r f g = absurd f
  route-Aims (cell (some n) v null) (some n') none r f g =
      (At-same pose_x pose_y n n' r.0 f, At-same goal_x goal_y n n' r.1 f)
  route-Aims (cell (some n) v null) (some n') (some m') r f g = absurd g
  route-Aims (cell (some n) v (cell none v' rest)) (some n') none r f g =
      (At-same pose_x pose_y n n' r.0 f, At-same goal_x goal_y n n' r.1 f)
  route-Aims (cell (some n) v (cell none v' rest)) (some n') (some m') r f g = absurd g
  route-Aims (cell (some n) v (cell (some m) v' rest)) (some n') none r f g = absurd g
  route-Aims (cell (some n) v (cell (some m) v' rest)) (some n') (some m') r f g =
      (At-same pose_x pose_y n n' r.0 f, Step-same map n n' m m' f g r.1.0)

module _ {D : Type 0} (d : Doubles D) (goal_x goal_y : ℤ) (os : Os) (pipes : List TypedPipe)
    (indexes : PipeIndexes) where
  Offered-of :
      (st st' : AStar D) (w w' : Log)
      → (p : Planned d goal_x goal_y os pipes indexes st st' w w')
      → Offered (record st { goal_path = p.path }) st'
  Offered-of st st' w w' p =
      offer_path-Offered d goal_x goal_y os pipes indexes st st' p.path w w' p.is_path p.offered

  -- A call of command from the pose and on the map of an earlier one.
  command_of :
      (map : Grid) (pose_x pose_y : ℤ) (v : AStar D) (w : Log) (s s' : Sets D) (current : Node D)
      (path : Chain D) (r : Option (AStar D × Log))
      → v.obstacle_map ≡ map
      → v.pose_x ≡ pose_x
      → v.pose_y ≡ pose_y
      → IsCell v.goal_path
      → IsTidy v.goal_path
      → start_sets d map goal_x goal_y pose_x pose_y ≡ some s
      → search d map goal_x goal_y search_fuel s ≡ found current s'
      → extract d map goal_x goal_y
          (length s'.expanded + 1)
          s'.expanded
          current
          (new_list d.zero_score)
        ≡ some path
      → offer_path d goal_x goal_y os pipes indexes (record v { goal_path = path }) w ≡ r
      → command d goal_x goal_y os pipes indexes v w ≡ r
  unfolding command finish
  command_of map pose_x pose_y v w s s' current path r on_map at_x at_y c t started reached
        extracted offered =
      let a : start_sets d v.obstacle_map goal_x goal_y v.pose_x v.pose_y ≡ some s =
        rw (on_map, at_x, at_y) started in
      let b : search d v.obstacle_map goal_x goal_y search_fuel s ≡ found current s' =
        rw on_map reached in
      let e : extract d v.obstacle_map goal_x goal_y (length s'.expanded + 1) s'.expanded current
            (new_list d.zero_score)
          ≡ some path =
        rw on_map extracted in
      bind_of _ _ s r a (
        subst (λ o. finish d goal_x goal_y os pipes indexes v w o ≡ r) (sym b)
          (bind_of _ _ (new_list d.zero_score) r (erase_list_lem d.zero_score v.goal_path c t)
            (bind_of _ _ path r e offered)))

  second_command :
      (st st' : AStar D) (w w' : Log)
      → (p : Planned d goal_x goal_y os pipes indexes st st' w w')
      → Offered (record st { goal_path = p.path }) st'
      → (u : AStar D) × (command d goal_x goal_y os pipes indexes st' w' ≡ some (u, w'))
  second_command st st' w w' p o =
      let (u, again) =
        offer_path_again d goal_x goal_y os pipes indexes st' p.path w' p.is_path o.now o.next in
      (
        u,
        command_of st.obstacle_map st.pose_x st.pose_y st' w' p.sets p.sets' p.current p.path
            (some (u, w')) o.map_same o.pose_x_same o.pose_y_same o.is_cell o.tidy p.started
            p.reached p.extracted again,
      )

  -- A second `command` on the same map, from the same pose, sends nothing: if a call of command,
  -- whose list for the path is well formed, returns, then a call right after it returns and leaves
  -- the log of the system calls as it is.
  pub command_again :
      (st st' : AStar D) (w w' : Log)
      → IsCell st.goal_path
      → IsTidy st.goal_path
      → command d goal_x goal_y os pipes indexes st w ≡ some (st', w')
      → (u : AStar D) × (command d goal_x goal_y os pipes indexes st' w' ≡ some (u, w'))
  command_again st st' w w' c t e =
      elim (command_inv d goal_x goal_y os pipes indexes st st' w w' c t e) [
        | inl u ↦ (
          st',
          subst (λ l. command d goal_x goal_y os pipes indexes st' l ≡ some (st', w')) u.same_log
              (subst (λ v. command d goal_x goal_y os pipes indexes v w ≡ some (st', w')) u.same e),
        )
        | inr p ↦ second_command st st' w w' p (Offered-of st st' w w' p)
      ]

  -- A call of command that returns, with a well-formed list for the path, either changes nothing and
  -- sends nothing, and then there is no way over the map from the pose to the goal, or leaves current
  -- goals that are the start of a way to the goal: the first is at the pose, the second one step from
  -- it in one of the eight directions, to a free cell and not between two obstacles; if there is no
  -- second, the pose is the goal.
  pub command-Aims :
      (st st' : AStar D) (w w' : Log)
      → IsCell st.goal_path
      → IsTidy st.goal_path
      → command d goal_x goal_y os pipes indexes st w ≡ some (st', w')
      → ((st ≡ st')
          × (w ≡ w')
          × (¬ ((path : Chain D) × IsRoute st.obstacle_map goal_x goal_y st.pose_x st.pose_y path)))
        ⊎ Aims st.obstacle_map st.pose_x st.pose_y goal_x goal_y st'.current_goal st'.n_current_goal
  command-Aims st st' w w' c t e =
      elim (command_inv d goal_x goal_y os pipes indexes st st' w w' c t e) [
        | inl u ↦ inl (
          u.same,
          u.same_log,
          search_exhausted d st.obstacle_map goal_x goal_y st.pose_x st.pose_y search_fuel u.sets
              u.sets' u.started u.ended,
        )
        | inr p ↦
            let o = Offered-of st st' w w' p in
            let (path, got, route) =
              extract_lem d st.obstacle_map goal_x goal_y st.pose_x st.pose_y search_fuel p.sets
                p.sets' p.current p.started p.reached in
            let same : path ≡ p.path = some_inj path p.path (sym got ∙ p.extracted) in
            inr (
              route-Aims st.obstacle_map goal_x goal_y st.pose_x st.pose_y p.path st'.current_goal
                st'.n_current_goal
                (subst (IsRoute st.obstacle_map goal_x goal_y st.pose_x st.pose_y) same route) o.now
                o.next)
      ]
