-- ===== src/ArtPot/Arrivals.antt =====
-- What `command` of controllers/art_pot.c sends when the robot comes to its goal.
use pint.Common.{ℕ, ◌≡◌, ap, ◌∙◌, Bool, true, false, List, ◌∷◌, some, if◌then◌else◌, get_or}
use pint.Os.{Os, Log}
use pint.CommTypes.Types.{TypedPipe, way_req, mov_cmd}
use pint.CommTypes.Fixed.{cannot_send, comm_send_move_command}
use pint.ArtPot.{
  Doubles, ArtPot, PipeIndexes, no_pipe, arrived, advance, velocity, send_velocity, command,
}
use pint.ArtPot.Steering.{move_call, moved, request_call, requested}

module _ {D : Type 0} (d : Doubles D) where
  advance_sound : (st : ArtPot D) → st.insert_sdc ≡ false → (advance d st).insert_sdc ≡ false
  unfolding advance
  advance_sound st h = h

  module _ (os : Os) (pipes : List TypedPipe) (indexes : PipeIndexes) where
    -- Without an injected fault the velocity is sent as it is.
    send_velocity_lem :
        (st : ArtPot D) (w : Log)
        → (sends : cannot_send (get_or pipes indexes.out_index no_pipe) mov_cmd ≡ false)
        → st.insert_sdc ≡ false
        → send_velocity d os pipes indexes st w ≡ (
          record st { insert_sdc = false },
          move_call d os pipes indexes sends (velocity d st).0 (velocity d st).1 ∷ w,
        )
    unfolding send_velocity
    send_velocity_lem st w sends sound =
        let out = get_or pipes indexes.out_index no_pipe in
        let v = velocity d st in
        let after : ArtPot D = record st { insert_sdc = false } in
        ap
          (λ (b : Bool). (
            after,
            (comm_send_move_command (d.whole 0) d.double_bytes os out
                (if b then d.plus v.0 (d.whole 1) else v.0) v.1 w).1,
          ))
          sound
        ∙ ap (λ (l : Log). (after, l)) (moved d os pipes indexes sends v.0 v.1 w)

    -- What a robot does that has come to its goal: it heads to the next one, asks for a way, and
    -- then moves.
    pub command-arrived :
        (i : ℕ) (st : ArtPot D) (w : Log)
        → (sends : cannot_send (get_or pipes indexes.out_index no_pipe) mov_cmd ≡ false)
        → (known : indexes.way_req_index ≡ some i)
        → (asks : cannot_send (get_or pipes i no_pipe) way_req ≡ false) → arrived d st ≡ true
        → st.insert_sdc ≡ false
        → let vel_cmd = velocity d (advance d st) in
          command d os pipes indexes st w
          ≡ some (
            record (advance d st) { insert_sdc = false },
            move_call d os pipes indexes sends vel_cmd.0 vel_cmd.1
                ∷ request_call d os pipes indexes sends i known asks
                ∷ w,
          )
    unfolding command
    command-arrived i st w sends known asks here sound =
        let w1 : Log = request_call d os pipes indexes sends i known asks ∷ w in
        rw (command, here)
          (rw (requested d os pipes indexes sends i known asks w)
            (ap some (send_velocity_lem (advance d st) w1 sends (advance_sound st sound))))
