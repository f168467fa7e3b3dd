-- ===== src/ArtPot/Served.antt =====
-- The theorems about controllers/art_pot.c at its goals, alone and with controllers/a_star.c.
use pint.Common.{
  ℕ, ◌≡◌, refl, ap, ◌∙◌, Bool, true, false, List, [], ◌∷◌, some, if◌then◌else◌, get_or, length,
}
use pint.Common.Int.{ℤ, pos}
use pint.Os.{Os, Log, reads, writes, selects, contains}
use pint.CommTypes.Types.{TypedPipe, way_req, way_res, mov_cmd}
use pint.CommTypes.Bytes.{int_bytes}
use pint.CommTypes.Fixed.{cannot_send}
use pint.Mapping.{Node, peek}
use pint.Planner.Grid
use pint.Planner.Command
use pint.Planner.Command.{AStar, loop_round}
use pint.Planner.Rounds.{IsReady}
use pint.Planner.Requests.{loop_round-Answered}
use pint.ArtPot.{
  Doubles, ArtPot, PipeIndexes, no_pipe, pipe_count_max, arrived, goal_dist, advance, velocity,
  command,
}
use pint.ArtPot.Rounds.{Decoders, art_round}
use pint.ArtPot.Steering.{move_call, request_call}
use pint.ArtPot.Arrivals.{command-arrived}
use pint.ArtPot.Waypoints.{art_round-headed, way_bytes, IsLayout, headed}

if_false : {A : Type 0} (b : Bool) (x y : A) → b ≡ false → (if b then x else y) ≡ y
if_false b x y e = rw e refl

module _ {D : Type 0} (d : Doubles D) where
  velocity-halt :
      (st : ArtPot D)
      → d.lt d.dist_epsilon (goal_dist d st) ≡ false
      → velocity d st ≡ (d.whole 0, d.whole 0)
  unfolding velocity
  velocity-halt st h = if_false _ _ _ h

  module _ (os : Os) (pipes : List TypedPipe) (indexes : PipeIndexes) (i : ℕ)
      (sends : cannot_send (get_or pipes indexes.out_index no_pipe) mov_cmd ≡ false)
      (known : indexes.way_req_index ≡ some i)
      (asks : cannot_send (get_or pipes i no_pipe) way_req ≡ false) where
    -- A robot that is within DIST_EPSILON of its goal and of its next goal gets, whatever obstacles
    -- its rays hit, the command to stand still, after one request for a way; the pipes for both
    -- being set, no fault being injected, and <= excluding > on doubles.
    pub command_halts :
        (st : ArtPot D) (w : Log)
        → ((a b : D) → d.le a b ≡ true → d.lt b a ≡ false)
        → arrived d st ≡ true
        → arrived d (advance d st) ≡ true
        → st.insert_sdc ≡ false
        → command d os pipes indexes st w
          ≡ some (
            record (advance d st) { insert_sdc = false },
            move_call d os pipes indexes sends (d.whole 0) (d.whole 0)
                ∷ request_call d os pipes indexes sends i known asks
                ∷ w,
          )
    command_halts st w order here there sound =
        command-arrived d os pipes indexes i st w sends known asks here sound
        ∙ ap
            (λ (v : D × D). some (
              record (advance d st) { insert_sdc = false },
              move_call d os pipes indexes sends v.0 v.1
                  ∷ request_call d os pipes indexes sends i known asks
                  ∷ w,
            ))
            (velocity-halt (advance d st) (order _ _ there))

    module _ (from : Decoders D) (planner : Grid.Doubles D) (goal_x goal_y : ℤ) (planner_os : Os)
        (planner_pipes : List TypedPipe) (planner_indexes : Command.PipeIndexes)
        (responds : cannot_send (get_or planner_pipes planner_indexes.way_res_index no_pipe) way_res
          ≡ false) where
      -- The planner's doubles are the robot's.
      abbrev plan_doubles : Grid.Doubles D
      plan_doubles = record planner { zero_score = d.whole 0; double_bytes = d.double_bytes }

      abbrev places : Node D → Node D → List ℕ
      places now next =
          way_bytes d from (planner.degridify now.x) (planner.degridify now.y)
            (planner.degridify next.x) (planner.degridify next.y)

      abbrev planner_pipe : ℕ → TypedPipe
      planner_pipe k = get_or planner_pipes k no_pipe

      abbrev planner_wait : Log → Log
      planner_wait w =
          selects
            ((planner_pipe planner_indexes.updates_index).fd_in
              ∷ (planner_pipe planner_indexes.way_req_index).fd_in
              ∷ [])
            (pos 1000000)
          ∷ w

      abbrev robot_wait : ℕ → Log → Log
      robot_wait j w =
          selects
            ((get_or pipes indexes.data_index no_pipe).fd_in ∷ (get_or pipes j no_pipe).fd_in ∷ [])
            (pos 1000000)
          ∷ w

      -- From a goal to the next way. A robot that comes to its goal takes its next goal and writes a
      -- request; the planner, reading the bytes of that request when its path has two places, writes
      -- one message; and the robot, reading the bytes of that message, has these two places as its
      -- goal and next goal. The pipes at both sides are set, no fault is injected, each round finds
      -- nothing else to read, and a message of waypoints is read with the layout that it is written
      -- with.
      pub way_served :
          (j : ℕ) (st later : ArtPot D) (plan : AStar D) (now next : Node D) (w w' w'' : Log)
          (ready ready' : List ℕ)
          → arrived d st ≡ true
          → st.insert_sdc ≡ false
          → IsReady plan.goal_path
          → peek plan.goal_path 0 ≡ some now
          → peek plan.goal_path 1 ≡ some next
          → planner_os.select_answer (planner_wait w') ≡ some ready
          → contains ready (planner_pipe planner_indexes.updates_index).fd_in ≡ false
          → contains ready (planner_pipe planner_indexes.way_req_index).fd_in ≡ true
          → planner_os.read_answer
              (planner_wait w')
              (planner_pipe planner_indexes.way_req_index).fd_in
              4
            ≡ some (int_bytes (pos 0))
          → IsLayout d from
          → indexes.way_res_index ≡ some j
          → length later.goal ≡ 3
          → length later.next_goal ≡ 3
          → os.select_answer (robot_wait j w'') ≡ some ready'
          → contains ready' (get_or pipes indexes.data_index no_pipe).fd_in ≡ false
          → contains ready' (get_or pipes j no_pipe).fd_in ≡ true
          → os.read_answer (robot_wait j w'') (get_or pipes j no_pipe).fd_in 48
            ≡ some (places now next)
          → (command d os pipes indexes st w
              ≡ some (
                record (advance d st) { insert_sdc = false },
                move_call d os pipes indexes sends
                      (velocity d (advance d st)).0
                      (velocity d (advance d st)).1
                    ∷ writes (get_or pipes i no_pipe).fd_out (int_bytes (pos 0))
                    ∷ w,
              ))
            × ((plan' : AStar D) × (loop_round plan_doubles goal_x goal_y planner_os planner_pipes
                    planner_indexes plan w'
                  ≡ some (
                    plan',
                    writes (planner_pipe planner_indexes.way_res_index).fd_out (places now next)
                        ∷ reads (planner_pipe planner_indexes.way_req_index).fd_in 4
                        ∷ planner_wait w',
                  )))
            × (art_round d from os pipes pipe_count_max indexes later w''
                ≡ some (
                  headed d from later
                      (planner.degridify now.x)
                      (planner.degridify now.y)
                      (planner.degridify next.x)
                      (planner.degridify next.y),
                  reads (get_or pipes j no_pipe).fd_in 48 ∷ robot_wait j w'',
                ))
      unfolding int_bytes
      way_served j st later plan now next w w' w'' ready ready' here sound path first second woken
            quiet asked came layout known' lg ln woken' quiet' asked' came' =
          let (plan', answered, dropped) =
            loop_round-Answered plan_doubles goal_x goal_y planner_os planner_pipes planner_indexes
              responds plan w' ready 0 (0 ∷ 0 ∷ 0 ∷ []) path woken quiet asked came in
          (
            command-arrived d os pipes indexes i st w sends known asks here sound,
            (plan', rw (first, second) at answered),
            art_round-headed d from os pipes indexes j later w'' ready' _ _ _ _ layout known' lg ln
                woken' quiet' asked' came',
          )
