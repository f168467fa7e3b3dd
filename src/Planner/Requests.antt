-- ===== src/Planner/Requests.antt =====
-- How the loop of controllers/a_star.c answers a request for waypoints.
use pint.Common.{
  ℕ, suc, ◌≡◌, refl, sym, ap, subst, if◌then◌else◌, true, false, List, [], ◌∷◌, ◌++◌, Option, none,
  some, get_or,
}
use pint.Common.Int.{ℤ, pos}
use pint.Os.{Os, Call, Log, reads, writes, selects, contains, read, write}
use pint.CommTypes.Types.{TypedPipe, way_res}
use pint.CommTypes.Fixed.{cannot_send, comm_send_waypoints, doubles_bytes}
use pint.Mapping.{Node, Chain, null, cell, peek, pop, new_list, or_new}
use pint.Mapping.Sorted.{IsTidy, IsCell}
use pint.Planner.Grid.{Doubles}
use pint.Planner.Command.{
  AStar, PipeIndexes, send_points, send_waypoints, answer_request, on_way_req, loop_round, no_pipe,
}
use pint.Planner.Rounds.{IsReady}

module _ {D : Type 0} (d : Doubles D) (goal_x goal_y : ℤ) (os : Os) (pipes : List TypedPipe)
    (indexes : PipeIndexes) where
  abbrev request_pipe : TypedPipe
  request_pipe = get_or pipes indexes.way_req_index no_pipe

  abbrev response_pipe : TypedPipe
  response_pipe = get_or pipes indexes.way_res_index no_pipe

  abbrev updates_pipe : TypedPipe
  updates_pipe = get_or pipes indexes.updates_index no_pipe

  abbrev select_call : Call
  select_call = selects (updates_pipe.fd_in ∷ request_pipe.fd_in ∷ []) (pos 1000000)

  abbrev answer_call : D → D → D → D → Call
  answer_call x y n_x n_y = writes response_pipe.fd_out (
      doubles_bytes d.zero_score d.double_bytes
        (x ∷ y ∷ d.zero_score ∷ n_x ∷ n_y ∷ d.zero_score ∷ []))

  -- The answers to a request when the path starts with these two nodes.
  abbrev answers : Option (Node D) → Option (Node D) → Log
  answers none next = answer_call d.seven d.seven d.seven d.seven ∷ []
  answers (some now) none = []
  answers (some now) (some next) =
      answer_call (d.degridify now.x) (d.degridify now.y) (d.degridify next.x) (d.degridify next.y)
      ∷ []

  peek-or_new : (p : Chain D) (k : ℕ) → peek (or_new d.zero_score p) k ≡ peek p k
  unfolding peek or_new new_list
  peek-or_new null k = refl
  peek-or_new (cell h v r) k = refl

  -- What a request leaves, after the calls w.
  abbrev Answered : Chain D → Log → Option (AStar D × Log) → Type 0
  Answered p w o =
      (st' : AStar D) × (o ≡ some (st', answers (peek p 0) (peek p 1) ++ w))
      × ((k : ℕ) → peek st'.goal_path k ≡ peek p (suc (suc k)))

  module _ (sends : cannot_send response_pipe way_res ≡ false) where
    sent :
        (x y n_x n_y : D) (w : Log)
        → send_points d goal_x goal_y os pipes indexes x y n_x n_y w ≡ answer_call x y n_x n_y ∷ w
    unfolding send_points comm_send_waypoints write
    sent x y n_x n_y w =
        subst
          (λ refused.
            (if refused
              then (pos 0, w)
              else write os response_pipe.fd_out
                  (doubles_bytes d.zero_score d.double_bytes
                    (x ∷ y ∷ d.zero_score ∷ n_x ∷ n_y ∷ d.zero_score ∷ []))
                  w).1
            ≡ answer_call x y n_x n_y ∷ w)
          (sym sends) refl

    answer_request-Answered :
        (st : AStar D) (p : Chain D) (w : Log)
        → IsReady p
        → Answered p w
            (answer_request d goal_x goal_y os pipes indexes p (record st { goal_path = p }) w)
    unfolding answer_request send_waypoints pop peek or_new new_list IsTidy IsCell
    answer_request-Answered st null w h = absurd h.is_cell
    answer_request-Answered st (cell none v rest) w h = (
      _,
      ap (λ w'. some (record st { goal_path = cell none v rest }, w')) (sent _ _ _ _ w),
      λ k. refl,
    )
    answer_request-Answered st (cell (some n) v null) w h = (_, refl, λ k. refl)
    answer_request-Answered st (cell (some n) v (cell none v' rest)) w h =
        (_, refl, λ k. rw h.tidy refl)
    answer_request-Answered st (cell (some n) v (cell (some m) v' rest)) w h = (
      _,
      ap
          (λ w'. some (
            record st {
              goal_path = or_new d.zero_score rest;
              current_goal = some n;
              n_current_goal = some m;
            },
            w',
          ))
          (sent _ _ _ _ w),
      peek-or_new rest,
    )

    -- For a list goal_path that is not NULL and that a cell with no node ends, and a pipe for
    -- responses that can be written: when select reports a request and no update, and the request
    -- can be read, the round answers it. It writes one message of the first two places of the path,
    -- which are then gone from the path, one message of sevens when the path is empty, and no
    -- message when the path has a single place, which is then gone.
    pub loop_round-Answered :
        (st : AStar D) (w : Log) (ready : List ℕ) (b : ℕ) (bytes : List ℕ)
        → IsReady st.goal_path
        → os.select_answer (select_call ∷ w) ≡ some ready
        → contains ready updates_pipe.fd_in ≡ false
        → contains ready request_pipe.fd_in ≡ true
        → os.read_answer (select_call ∷ w) request_pipe.fd_in 4 ≡ some (b ∷ bytes)
        → Answered st.goal_path
            (reads request_pipe.fd_in 4 ∷ select_call ∷ w)
            (loop_round d goal_x goal_y os pipes indexes st w)
    unfolding loop_round on_way_req read
    loop_round-Answered st w ready b bytes h selected quiet asked came =
        rw (loop_round, selected)
          (rw quiet (
            rw asked (
              rw (on_way_req, came)
                (answer_request-Answered st st.goal_path
                  (reads request_pipe.fd_in 4 ∷ select_call ∷ w) h))))
