-- ===== src/Planner/Rounds.antt =====
-- The loop of controllers/a_star.c keeps its list for the path well formed.
use pint.Common.{
  ℕ, ◌+◌, ◌≡◌, refl, ◌&&◌, List, [], ◌∷◌, Option, none, some, if◌then◌else◌, length, get_or, OnSome,
  OnSome-bind, if_inv, ◌>>=◌,
}
use pint.Common.Int.{ℤ, pos, pos_part, ltb_ℤ}
use pint.Os.{Os, Log, selects, contains}
use pint.CommTypes.Types.{TypedPipe}
use pint.CommTypes.Messages.{comm_recv_map_update}
use pint.Mapping.{Chain, null, cell, nodes_equal, peek, pop, or_new, new_list}
use pint.Mapping.Sorted.{IsTidy, IsCell}
use pint.Planner.Grid.{Doubles}
use pint.Planner.Search.{
  Outcome, found, exhausted, fault, out_of_fuel, start_sets, search, search_fuel, extract,
}
use pint.Planner.Chains.{or_new-IsTidy}
use pint.Planner.Command.{
  AStar, PipeIndexes, send_waypoints, offer_path, finish, command, answer_update, answer_request,
  no_pipe, on_map_update, on_way_req, loop_round, placed, mark_obstacles,
}
use pint.Planner.Replan.{IsPath, extract-IsPath, erase_list_lem}
use pint.Planner.Offer.{or_new-IsCell, IsPath-IsCell, IsPath-IsTidy}

-- goal_path is no NULL, and a cell with no node ends it.
pub record IsReady {D : Type 0} (goal_path : Chain D) : Type 0 where
  pub is_cell : IsCell goal_path
  pub tidy : IsTidy goal_path

abbrev pub Ready : {D : Type 0} → AStar D × Log → Type 0
Ready r = IsReady r.0.goal_path

or_new-IsReady : {D : Type 0} (z : D) (l : Chain D) → IsTidy l → IsReady (or_new z l)
or_new-IsReady z l t = record { is_cell = or_new-IsCell z l; tidy = or_new-IsTidy z l t }

each :
    {A B : Type 0} (P : B → Type 0) (o : Option A) (f : A → Option B)
    → ((a : A) → OnSome P (f a))
    → OnSome P (o >>= f)
each P none f h = tt
each P (some a) f h = h a

module _ {D : Type 0} (d : Doubles D) (goal_x goal_y : ℤ) (os : Os) (pipes : List TypedPipe)
    (indexes : PipeIndexes) where
  send_waypoints-Ready :
      (st : AStar D) (w : Log) (p : Chain D)
      → IsReady p
      → OnSome Ready
          (send_waypoints d goal_x goal_y os pipes indexes (record st { goal_path = p }) w)
  unfolding send_waypoints pop or_new new_list IsTidy IsCell
  send_waypoints-Ready st w null h = tt
  send_waypoints-Ready st w (cell none v rest) h = or_new-IsReady d.zero_score rest (rw h.tidy tt)
  send_waypoints-Ready st w (cell (some n) v null) h = record { is_cell = tt; tidy = refl }
  send_waypoints-Ready st w (cell (some n) v (cell none v' rest)) h =
      or_new-IsReady d.zero_score rest (rw h.tidy tt)
  send_waypoints-Ready st w (cell (some n) v (cell (some m) v' rest)) h =
      or_new-IsReady d.zero_score rest h.tidy

  offer_path-Ready :
      (st : AStar D) (w : Log) (p : Chain D)
      → IsReady p
      → OnSome Ready (offer_path d goal_x goal_y os pipes indexes (record st { goal_path = p }) w)
  unfolding offer_path
  offer_path-Ready st w p h =
      if_inv (OnSome Ready)
        (nodes_equal (peek p 0) st.current_goal && nodes_equal (peek p 1) st.n_current_goal)
        (some (record st { goal_path = p }, w))
        (send_waypoints d goal_x goal_y os pipes indexes (record st { goal_path = p }) w) h
        (send_waypoints-Ready st w p h)

  finish-Ready :
      (st : AStar D) (w : Log) (o : Outcome D)
      → IsReady st.goal_path
      → OnSome Ready (finish d goal_x goal_y os pipes indexes st w o)
  unfolding finish new_list IsTidy
  finish-Ready st w (found current s) h =
      let steps = length s.expanded + 1 in
      rw (erase_list_lem d.zero_score st.goal_path h.is_cell h.tidy) (
        by_path
          (extract d st.obstacle_map goal_x goal_y steps s.expanded current (new_list d.zero_score))
          (λ p e.
            extract-IsPath d goal_x goal_y st.obstacle_map steps s.expanded current
              (new_list d.zero_score) p refl e))
    where
      by_path :
          (o : Option (Chain D))
          → ((p : Chain D) → o ≡ some p → IsPath p)
          → OnSome Ready (
              o >>= λ path.
              offer_path d goal_x goal_y os pipes indexes (record st { goal_path = path }) w)
      by_path none k = tt
      by_path (some p) k =
          offer_path-Ready st w p
            (record { is_cell = IsPath-IsCell p (k p refl); tidy = IsPath-IsTidy p (k p refl) })
  finish-Ready st w (exhausted s) h = h
  finish-Ready st w fault h = tt
  finish-Ready st w out_of_fuel h = tt

  command-Ready :
      (st : AStar D) (w : Log)
      → IsReady st.goal_path
      → OnSome Ready (command d goal_x goal_y os pipes indexes st w)
  unfolding command
  command-Ready st w h =
      each Ready (start_sets d st.obstacle_map goal_x goal_y st.pose_x st.pose_y)
        (λ s.
          finish d goal_x goal_y os pipes indexes st w
            (search d st.obstacle_map goal_x goal_y search_fuel s))
        (λ s. finish-Ready st w (search d st.obstacle_map goal_x goal_y search_fuel s) h)

  answer_update-Ready :
      (st : AStar D) (w : Log)
      → IsReady st.goal_path
      → OnSome Ready (answer_update d goal_x goal_y os pipes indexes st w)
  unfolding answer_update
  answer_update-Ready st w h =
      if_inv (OnSome Ready) (ltb_ℤ (pos 0) st.recv_map_update.obs_count) _ _ (command-Ready st _ h)
        h

  on_map_update-Ready :
      (st : AStar D) (w : Log)
      → IsReady st.goal_path
      → OnSome Ready (on_map_update d goal_x goal_y os pipes indexes st w)
  unfolding on_map_update placed
  on_map_update-Ready st w h =
      let r =
        comm_recv_map_update os (get_or pipes indexes.updates_index no_pipe) st.recv_map_update w in
      if_inv (OnSome Ready) (ltb_ℤ (pos 0) r.0) _ _
        (each Ready (mark_obstacles (pos_part r.1.obs_count) 0 r.1 st.obstacle_map)
          (λ map.
            answer_update d goal_x goal_y os pipes indexes
              (placed d goal_x goal_y os pipes indexes st r.1 map) r.2)
          (λ map. answer_update-Ready (placed d goal_x goal_y os pipes indexes st r.1 map) r.2 h))
        h

  answer_request-Ready :
      (p : Chain D) (st : AStar D) (w : Log)
      → IsReady st.goal_path
      → OnSome Ready (answer_request d goal_x goal_y os pipes indexes p st w)
  unfolding answer_request
  answer_request-Ready null st w h = tt
  answer_request-Ready (cell none val rest) st w h = h
  answer_request-Ready (cell (some n) val rest) st w h = send_waypoints-Ready st w st.goal_path h

  on_way_req-Ready :
      (st : AStar D) (w : Log)
      → IsReady st.goal_path
      → OnSome Ready (on_way_req d goal_x goal_y os pipes indexes st w)
  unfolding on_way_req
  on_way_req-Ready st w h =
      by_answer (os.read_answer w (get_or pipes indexes.way_req_index no_pipe).fd_in 4) _
    where
      by_answer :
          (answer : Option (List ℕ)) (w1 : Log)
          → OnSome Ready (elim answer as (λ x. Option (AStar D × Log)) [
            | none ↦ some (st, w1)
            | some [] ↦ some (st, w1)
            | some (b ∷ bytes) ↦ answer_request d goal_x goal_y os pipes indexes st.goal_path st w1
          ])
      by_answer none w1 = h
      by_answer (some []) w1 = h
      by_answer (some (b ∷ bytes)) w1 = answer_request-Ready st.goal_path st w1 h

  -- A round of the planner's loop, whatever the system answers, keeps its list for the path well
  -- formed, as the theorems about `command` need it: it has a cell, and a cell without a node ends
  -- it.
  loop_round-Ready :
      (st : AStar D) (w : Log)
      → IsReady st.goal_path
      → OnSome Ready (loop_round d goal_x goal_y os pipes indexes st w)
  unfolding loop_round
  loop_round-Ready st w h = by_answer (os.select_answer w1)
    where
      updates : ℕ
      updates = (get_or pipes indexes.updates_index no_pipe).fd_in

      requests : ℕ
      requests = (get_or pipes indexes.way_req_index no_pipe).fd_in

      w1 : Log
      w1 = selects (updates ∷ requests ∷ []) (pos 1000000) ∷ w

      updated :
          (ready : List ℕ)
          → OnSome Ready (
              if contains ready updates
              then on_map_update d goal_x goal_y os pipes indexes st w1
              else some (st, w1))
      updated ready =
          if_inv (OnSome Ready) (contains ready updates) _ _ (on_map_update-Ready st w1 h) h

      by_answer :
          (answer : Option (List ℕ))
          → OnSome Ready (elim answer as (λ x. Option (AStar D × Log)) [
            | none ↦ some (st, w1)
            | some ready ↦
                (if contains ready updates
                  then on_map_update d goal_x goal_y os pipes indexes st w1
                  else some (st, w1))
                >>= λ r.
                    if contains ready requests
                    then on_way_req d goal_x goal_y os pipes indexes r.0 r.1
                    else some r
          ])
      by_answer none = h
      by_answer (some ready) = OnSome-bind Ready Ready _ _ (updated ready) (λ r k.
          if_inv (OnSome Ready) (contains ready requests) _ (some r) (on_way_req-Ready r.0 r.1 k) k)
