-- ===== src/Planner/Offer.antt =====
-- What `command` of controllers/a_star.c does with a new path: the nodes it takes as current goals.
use pint.Common.{
  ◌≡◌, refl, sym, ◌∙◌, ap, subst, inl, inr, Bool, true, false, ◌&&◌, List, Option, none, some,
  arith, if◌then◌else◌, Bool-cases,
}
use pint.Common.Int.{ℤ}
use pint.Os.{Os, Log}
use pint.CommTypes.Types.{TypedPipe}
use pint.Mapping.{Node, Chain, null, cell, node_equals, nodes_equal, peek, pop, new_list, or_new}
use pint.Mapping.Sorted.{IsTidy, IsCell}
use pint.Planner.Grid.{Doubles}
use pint.Planner.Command.{AStar, PipeIndexes, send_waypoints, offer_path}
use pint.Planner.Chains.{or_new-IsTidy}
use pint.Planner.Replan.{IsPath, node_equals-same, some_inj}

-- Two nodes at one place.
pub record SamePlace {D : Type 0} (a b : Node D) : Type 0 where
  pub x_same : a.x ≡ b.x
  pub y_same : a.y ≡ b.y

-- A goal is NULL with the path's node, or at the same place.
abbrev pub Follows : {D : Type 0} → Option (Node D) → Option (Node D) → Type 0
Follows none none = Unit {0}
Follows none (some m) = ⊥
Follows (some n) none = ⊥
Follows (some n) (some m) = SamePlace n m

-- What offering the path of st leaves in st'.
pub record Offered {D : Type 0} (st st' : AStar D) : Type 0 where
  pub is_cell : IsCell st'.goal_path
  pub tidy : IsTidy st'.goal_path
  pub now : Follows (peek st.goal_path 0) st'.current_goal
  pub next : Follows (peek st.goal_path 1) st'.n_current_goal
  pub map_same : st'.obstacle_map ≡ st.obstacle_map
  pub pose_x_same : st'.pose_x ≡ st.pose_x
  pub pose_y_same : st'.pose_y ≡ st.pose_y

pub or_new-IsCell : {D : Type 0} (z : D) (l : Chain D) → IsCell (or_new z l)
unfolding or_new IsCell new_list
or_new-IsCell z null = tt
or_new-IsCell z (cell h v r) = tt

Follows-of_equal : {D : Type 0} (a b : Option (Node D)) → nodes_equal a b ≡ true → Follows a b
unfolding nodes_equal
Follows-of_equal none b e = cc
Follows-of_equal (some a) none e = cc
Follows-of_equal (some a) (some b) e =
    let h = node_equals-same a b e in record { x_same = h.0; y_same = h.1 }

pub IsPath-IsCell : {D : Type 0} (p : Chain D) → IsPath p → IsCell p
unfolding IsCell
IsPath-IsCell null h = h
IsPath-IsCell (cell none v r) h = absurd h
IsPath-IsCell (cell (some n) v r) h = tt

pub IsPath-IsTidy : {D : Type 0} (p : Chain D) → IsPath p → IsTidy p
unfolding IsTidy
IsPath-IsTidy null h = tt
IsPath-IsTidy (cell none v r) h = absurd h
IsPath-IsTidy (cell (some n) v r) h = h

equal_of_Follows :
    {D : Type 0} (n : Node D) (b : Option (Node D))
    → Follows (some n) b
    → nodes_equal (some n) b ≡ true
unfolding nodes_equal node_equals
equal_of_Follows n none f = absurd f
equal_of_Follows n (some m) f = ground (arith, f.x_same, f.y_same)

either_way :
    {A B : Type 0} (b : Bool) (x y : A) (w : B)
    → let first : Option (A × B) = some (x, w) in
      let second : Option (A × B) = some (y, w) in
      (u : A) × ((if b then first else second) ≡ some (u, w))
either_way true x y w = (x, refl)
either_way false x y w = (y, refl)

both_true : (a b : Bool) → (a && b) ≡ true → (a ≡ true) × (b ≡ true)
both_true true true e = (refl, refl)
both_true true false e = cc
both_true false b e = cc

module _ {D : Type 0} (d : Doubles D) (goal_x goal_y : ℤ) (os : Os) (pipes : List TypedPipe)
    (indexes : PipeIndexes) where
  -- sendWaypoints of a path takes its first two nodes.
  send_waypoints-Offered :
      (st : AStar D) (p : Chain D) (w : Log)
      → IsPath p
      → (u : AStar D) × (w' : Log) × (send_waypoints d goal_x goal_y os pipes indexes
            (record st { goal_path = p })
            w
          ≡ some (u, w'))
        × Offered (record st { goal_path = p }) u
  unfolding send_waypoints pop or_new new_list IsCell IsTidy peek
  send_waypoints-Offered st null w h = absurd h
  send_waypoints-Offered st (cell none v r) w h = absurd h
  send_waypoints-Offered st (cell (some n) v null) w h = (
    _,
    _,
    refl,
    record {
      is_cell = tt;
      tidy = refl;
      now = record { x_same = refl; y_same = refl };
      next = tt;
      map_same = refl;
      pose_x_same = refl;
      pose_y_same = refl;
    },
  )
  send_waypoints-Offered st (cell (some n) v (cell none v' r)) w h = (
    _,
    _,
    refl,
    record {
      is_cell = or_new-IsCell d.zero_score r;
      tidy = rw h refl;
      now = record { x_same = refl; y_same = refl };
      next = tt;
      map_same = refl;
      pose_x_same = refl;
      pose_y_same = refl;
    },
  )
  send_waypoints-Offered st (cell (some n) v (cell (some m) v' r)) w h = (
    _,
    _,
    refl,
    record {
      is_cell = or_new-IsCell d.zero_score r;
      tidy = or_new-IsTidy d.zero_score r h;
      now = record { x_same = refl; y_same = refl };
      next = record { x_same = refl; y_same = refl };
      map_same = refl;
      pose_x_same = refl;
      pose_y_same = refl;
    },
  )

  pub offer_path-Offered :
      (st st' : AStar D) (p : Chain D) (w w' : Log)
      → IsPath p
      → offer_path d goal_x goal_y os pipes indexes (record st { goal_path = p }) w ≡ some (st', w')
      → Offered (record st { goal_path = p }) st'
  unfolding offer_path
  offer_path-Offered st st' p w w' h e =
      let test =
        nodes_equal (peek p 0) st.current_goal && nodes_equal (peek p 1) st.n_current_goal in
      elim (Bool-cases test) [
        | inl same ↦
            let k : some (record st { goal_path = p }, w) ≡ some (st', w') = rw same at e in
            let both =
              both_true (nodes_equal (peek p 0) st.current_goal)
                (nodes_equal (peek p 1) st.n_current_goal) same in
            subst (Offered (record st { goal_path = p }))
              (ap (λ r. r.0) (some_inj (record st { goal_path = p }, w) (st', w') k))
              (record {
                is_cell = IsPath-IsCell p h;
                tidy = IsPath-IsTidy p h;
                now = Follows-of_equal (peek p 0) st.current_goal both.0;
                next = Follows-of_equal (peek p 1) st.n_current_goal both.1;
                map_same = refl;
                pose_x_same = refl;
                pose_y_same = refl;
              })
        | inr differ ↦
            let (u, w1, sent, o) = send_waypoints-Offered st p w h in
            let k : send_waypoints d goal_x goal_y os pipes indexes (record st { goal_path = p }) w
                ≡ some (st', w') =
              rw differ at e in
            subst (Offered (record st { goal_path = p }))
              (ap (λ r. r.0) (some_inj (u, w1) (st', w') (sym sent ∙ k))) o
      ]

  -- The same path, offered again, is not sent.
  pub offer_path_again :
      (u : AStar D) (p : Chain D) (w : Log)
      → IsPath p
      → Follows (peek p 0) u.current_goal
      → Follows (peek p 1) u.n_current_goal
      → (u' : AStar D) × (offer_path d goal_x goal_y os pipes indexes (record u { goal_path = p }) w
          ≡ some (u', w))
  unfolding offer_path send_waypoints pop or_new new_list IsTidy peek nodes_equal
  offer_path_again u null w h now next = absurd h
  offer_path_again u (cell none v r) w h now next = absurd h
  offer_path_again u (cell (some n) v null) w h now next =
      either_way (nodes_equal (some n) u.current_goal && false) _ _ w
  offer_path_again u (cell (some n) v (cell none v' r)) w h now next =
      either_way (nodes_equal (some n) u.current_goal && false) _ _ w
  offer_path_again u (cell (some n) v (cell (some m) v' r)) w h now next =
      rw (equal_of_Follows n u.current_goal now)
        (rw (equal_of_Follows m u.n_current_goal next) (_, refl))
