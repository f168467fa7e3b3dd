-- ===== src/CommTypes/Fixed.antt =====
-- The messages of src/commtypes.c with a fixed size. A double is a parameter: the type D, its zero,
-- and `double_bytes`, the eight bytes that stand for it in memory.
use pint.Common.{
  ℕ, ◌-◌, ◌*◌, ◌/◌, ◌%◌, ◌^◌, Bool, List, [], ◌∷◌, ◌++◌, ◌==◌, ◌||◌, not, if◌then◌else◌, get_or,
  set, for_up, replicate,
}
use pint.Common.Int.{ℤ, pos, negsuc}
use pint.Os.{Os, Log, write}
use pint.CommTypes.Types.{
  Message, comm_error, way_req, way_res, mov_cmd, range_pose_data, map_update, comm_ack, msg_buffer,
  TypedPipe,
}
use pint.CommTypes.Bytes.{int_bytes}

abbrev pub ranger_count : ℕ
ranger_count = 16

-- The enum's number of a message type.
unfoldable pub message_index : Message → ℕ
message_index comm_error = 0
message_index way_req = 1
message_index way_res = 2
message_index mov_cmd = 3
message_index range_pose_data = 4
message_index map_update = 5
message_index comm_ack = 6
message_index msg_buffer = 7

abbrev pub cannot_send : TypedPipe → Message → Bool
cannot_send pipe type = pipe.fd_out == 0 || not (message_index pipe.type == message_index type)

-- The eight bytes of a long, little-endian, two's complement.
unfoldable pub long_bytes : ℤ → List ℕ
long_bytes z =
    let w = elim z as (λ x. ℕ) [ pos n ↦ n % 2 ^ 64 | negsuc n ↦ 2 ^ 64 - (n % 2 ^ 64) - 1 ] in
    for_up 8 0 (λ i bytes. bytes ++ ((w / 2 ^ (8 * i) % 256) ∷ [])) []

-- `struct comm_way_req`
unfoldable pub comm_send_waypoint_request : Os → TypedPipe → Log → ℤ × Log
unfolding message_index write
comm_send_waypoint_request os pipe w =
    if cannot_send pipe way_req then (pos 0, w) else write os pipe.fd_out (int_bytes (pos 0)) w

unfoldable pub comm_send_ack : Os → TypedPipe → ℤ → Log → ℤ × Log
unfolding message_index write long_bytes
comm_send_ack os pipe state_hash w =
    if cannot_send pipe comm_ack then (pos 0, w) else write os pipe.fd_out (long_bytes state_hash) w

-- `struct comm_way_res`
pub record WayRes (D : Type 0) : Type 0 where
  pub point : List D
  pub n_point : List D

-- `struct comm_range_pose_data`
pub record RangePoseData (D : Type 0) : Type 0 where
  pub ranges : List D
  pub pose : List D

module _ {D : Type 0} (zero_d : D) where
  -- A loop that copies the first n entries of an array into another.
  unfoldable pub copy_entries : ℕ → List D → List D → List D
  copy_entries n from to = for_up n 0 (λ i l. set l i (get_or from i zero_d)) to

  unfoldable pub comm_copy_waypoints : WayRes D → List D → List D → List D × List D
  unfolding copy_entries
  comm_copy_waypoints msg waypoints n_waypoints =
      (copy_entries 3 msg.point waypoints, copy_entries 3 msg.n_point n_waypoints)

  unfoldable pub comm_copy_ranger : RangePoseData D → List D → List D → List D × List D
  unfolding copy_entries
  comm_copy_ranger msg range_data pose_data =
      (copy_entries ranger_count msg.ranges range_data, copy_entries 3 msg.pose pose_data)

  module _ (double_bytes : D → List ℕ) where
    unfoldable pub doubles_bytes : List D → List ℕ
    doubles_bytes [] = []
    doubles_bytes (d ∷ ds) = double_bytes d ++ doubles_bytes ds

    unfoldable pub comm_send_waypoints : Os → TypedPipe → D → D → D → D → D → D → Log → ℤ × Log
    unfolding message_index write doubles_bytes
    comm_send_waypoints os pipe x y a nx ny na w =
        let msg : WayRes D = record { point = x ∷ y ∷ a ∷ []; n_point = nx ∷ ny ∷ na ∷ [] } in
        if cannot_send pipe way_res
        then (pos 0, w)
        else write os pipe.fd_out (doubles_bytes (msg.point ++ msg.n_point)) w

    unfoldable pub comm_send_move_command : Os → TypedPipe → D → D → Log → ℤ × Log
    unfolding message_index write doubles_bytes
    comm_send_move_command os pipe vel_0 vel_1 w =
        if cannot_send pipe mov_cmd
        then (pos 0, w)
        else write os pipe.fd_out (doubles_bytes (vel_0 ∷ vel_1 ∷ [])) w

    unfoldable pub comm_send_ranger : Os → TypedPipe → List D → List D → Log → ℤ × Log
    unfolding message_index write doubles_bytes copy_entries
    comm_send_ranger os pipe ranger_data pose_data w =
        let msg : RangePoseData D = record {
          ranges = copy_entries ranger_count ranger_data (replicate ranger_count zero_d);
          pose = copy_entries 3 pose_data (replicate 3 zero_d);
        } in
        if cannot_send pipe range_pose_data
        then (pos 0, w)
        else write os pipe.fd_out (doubles_bytes (msg.ranges ++ msg.pose)) w
