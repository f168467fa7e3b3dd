-- ===== src/CommTypes/Types.antt =====
-- The types of include/commtypes.h, and the names of the message types.
use Prim.Native.String.{String}
use text.Mathlib.Text.{◌==◌}
use pint.Common.{ℕ, if◌then◌else◌}

-- `comm_message_t`
pub data Message : Type 0 where
  comm_error way_req way_res mov_cmd range_pose_data map_update comm_ack msg_buffer : Message

-- `MESSAGE_T`
unfoldable pub message_name : Message → String
message_name comm_error = "COMM_ERROR"
message_name way_req = "WAY_REQ"
message_name way_res = "WAY_RES"
message_name mov_cmd = "MOV_CMD"
message_name range_pose_data = "RANGE_POSE_DATA"
message_name map_update = "MAP_UPDATE"
message_name comm_ack = "COMM_ACK"
message_name msg_buffer = "MSG_BUFFER"

unfoldable pub comm_to_enum : String → Message
comm_to_enum name =
    if name == "WAY_REQ"
    then way_req
    else if name == "WAY_RES"
    then way_res
    else if name == "MOV_CMD"
    then mov_cmd
    else if name == "RANGE_POSE_DATA"
    then range_pose_data
    else if name == "MAP_UPDATE"
    then map_update
    else if name == "COMM_ACK"
    then comm_ack
    else if name == "MSG_BUFFER"
    then msg_buffer
    else comm_error

-- `struct typed_pipe`
pub record TypedPipe : Type 0 where
  pub type : Message
  pub fd_in : ℕ
  pub fd_out : ℕ
