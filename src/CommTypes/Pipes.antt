-- ===== src/CommTypes/Pipes.antt =====
-- resetPipe, convertTypedToVote and convertVoteToTyped of src/commtypes.c.

use pint.Common.{◌≡◌, refl}
use pint.Os.{Log}
use pint.CommTypes.Types.{
  Message, comm_error, way_req, way_res, mov_cmd, range_pose_data, map_update, comm_ack, msg_buffer,
  message_name, comm_to_enum, TypedPipe,
}
use pint.VoteBuff.{VotePipe, close_set}
use pint.FdServer.{vote_to_typed}

unfoldable pub reset_pipe : TypedPipe → Log → TypedPipe × Log
unfolding close_set
reset_pipe p w =
    (record { type = comm_error; fd_in = 0; fd_out = 0 }, close_set p.fd_out (close_set p.fd_in w))

-- One pipe of convertTypedToVote: the rest of the vote pipe stays as it is.
unfoldable pub typed_to_vote : TypedPipe → VotePipe → VotePipe
typed_to_vote t v = record v { rep_info = message_name t.type; fd_in = t.fd_in; fd_out = t.fd_out }

-- commToEnum finds every message type by its name in MESSAGE_T.
pub comm_to_enum-message_name : (m : Message) → comm_to_enum (message_name m) ≡ m
unfolding comm_to_enum message_name
comm_to_enum-message_name comm_error = refl
comm_to_enum-message_name way_req = refl
comm_to_enum-message_name way_res = refl
comm_to_enum-message_name mov_cmd = refl
comm_to_enum-message_name range_pose_data = refl
comm_to_enum-message_name map_update = refl
comm_to_enum-message_name comm_ack = refl
comm_to_enum-message_name msg_buffer = refl

-- A typed pipe that convertTypedToVote writes into a vote pipe, whatever that held, is what
-- convertVoteToTyped reads back.
vote_to_typed-typed_to_vote : (t : TypedPipe) (v : VotePipe) → vote_to_typed (typed_to_vote t v) ≡ t
unfolding vote_to_typed typed_to_vote
vote_to_typed-typed_to_vote t v =
    λ i. record { type = comm_to_enum-message_name t.type i; fd_in = t.fd_in; fd_out = t.fd_out }
