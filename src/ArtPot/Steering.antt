-- ===== src/ArtPot/Steering.antt =====
-- What `command` of controllers/art_pot.c does at its goals.
use pint.Common.{
  ℕ, ◌<◌, ◌≡◌, ◌≢◌, refl, sym, subst, true, false, List, [], ◌∷◌, none, some, arith, if◌then◌else◌,
  get_or, for_up_inv,
}
use pint.Common.Int.{pos}
use pint.Os.{Os, Call, Log, write, writes}
use pint.CommTypes.Types.{
  Message, TypedPipe, comm_error, way_req, way_res, mov_cmd, range_pose_data, map_update, comm_ack,
  msg_buffer,
}
use pint.CommTypes.Bytes.{int_bytes}
use pint.CommTypes.Fixed.{
  cannot_send, comm_send_move_command, comm_send_waypoint_request, doubles_bytes,
}
use pint.ArtPot.{
  Doubles, ArtPot, PipeIndexes, no_pipe, set_pipe_index, set_pipe_indexes, arrived, request_way,
  command,
}

-- With no pipe of the type WAY_REQ, setPipeIndexes leaves the index -1.
no_way_req :
    (pipes : List TypedPipe) (pipe_count : ℕ) (indexes : PipeIndexes)
    → ((i : ℕ) → i < pipe_count → (get_or pipes i no_pipe).type ≢ way_req)
    → (set_pipe_indexes pipes pipe_count indexes).way_req_index ≡ none
unfolding set_pipe_indexes
no_way_req pipes pipe_count indexes absent =
    for_up_inv (λ i (t : PipeIndexes). t.way_req_index ≡ none) (set_pipe_index pipes) pipe_count 0
      pipe_count (record indexes { way_req_index = none; way_res_index = none }) (omega arith)
      (λ i t lt h. kept i t (get_or pipes i no_pipe).type (absent i lt) h) refl
  where
    kept :
        (i : ℕ) (t : PipeIndexes) (type : Message)
        → type ≢ way_req
        → t.way_req_index ≡ none
        → (elim type as (λ m. PipeIndexes) [
          | range_pose_data ↦ record t { data_index = i }
          | mov_cmd ↦ record t { out_index = i }
          | way_res ↦ record t { way_res_index = some i }
          | way_req ↦ record t { way_req_index = some i }
          | _ ↦ t
        ]).way_req_index
          ≡ none
    kept i t comm_error ne h = h
    kept i t way_req ne h = absurd (ne refl)
    kept i t way_res ne h = h
    kept i t mov_cmd ne h = h
    kept i t range_pose_data ne h = h
    kept i t map_update ne h = h
    kept i t comm_ack ne h = h
    kept i t msg_buffer ne h = h

module _ {D : Type 0} (d : Doubles D) (os : Os) (pipes : List TypedPipe) where
  -- Without a pipe of the type WAY_REQ, as in a configuration without a planner, the command of a
  -- robot that has come within DIST_EPSILON of its goal uses pipes[-1].
  command_no_planner :
      (pipe_count : ℕ) (indexes : PipeIndexes) (st : ArtPot D) (w : Log)
      → ((i : ℕ) → i < pipe_count → (get_or pipes i no_pipe).type ≢ way_req)
      → arrived d st ≡ true
      → command d os pipes (set_pipe_indexes pipes pipe_count indexes) st w ≡ none
  unfolding command request_way
  command_no_planner pipe_count indexes st w absent here =
      rw (command, here) (rw (request_way, no_way_req pipes pipe_count indexes absent) refl)

  module _ (indexes : PipeIndexes)
      (sends : cannot_send (get_or pipes indexes.out_index no_pipe) mov_cmd ≡ false) where
    -- The message of a command.
    abbrev pub move_call : D → D → Call
    move_call speed turn =
        writes (get_or pipes indexes.out_index no_pipe).fd_out
          (doubles_bytes (d.whole 0) d.double_bytes (speed ∷ turn ∷ []))

    pub moved :
        (speed turn : D) (w : Log)
        → (comm_send_move_command
            (d.whole 0)
            d.double_bytes
            os
            (get_or pipes indexes.out_index no_pipe)
            speed
            turn
            w).1
          ≡ move_call speed turn ∷ w
    unfolding comm_send_move_command write
    moved speed turn w =
        subst
          (λ refused.
            (if refused
              then (pos 0, w)
              else write os (get_or pipes indexes.out_index no_pipe).fd_out
                  (doubles_bytes (d.whole 0) d.double_bytes (speed ∷ turn ∷ [])) w).1
            ≡ move_call speed turn ∷ w)
          (sym sends) refl

    module _ (i : ℕ) (known : indexes.way_req_index ≡ some i)
        (asks : cannot_send (get_or pipes i no_pipe) way_req ≡ false) where
      abbrev pub request_call : Call
      request_call = writes (get_or pipes i no_pipe).fd_out (int_bytes (pos 0))

      pub requested : (w : Log) → request_way d os pipes indexes w ≡ some (request_call ∷ w)
      unfolding request_way comm_send_waypoint_request write
      requested w =
          rw (request_way, known)
            (subst
              (λ refused.
                some
                  (if refused
                    then (pos 0, w)
                    else write os (get_or pipes i no_pipe).fd_out (int_bytes (pos 0)) w).1
                ≡ some (request_call ∷ w))
              (sym asks) refl)
