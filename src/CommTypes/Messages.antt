-- ===== src/CommTypes/Messages.antt =====
-- The messages of src/commtypes.c with a variable part: map updates and message buffers. A C array
-- of a message is a list; the int arrays of the code on the stack are lists of what was stored.
use pint.Common.{
  ℕ, zero, suc, ◌+◌, ◌*◌, Bool, true, false, List, [], ◌∷◌, ◌++◌, none, some, ltb, ◌==◌, ◌||◌, not,
  if◌then◌else◌, length, get_or, set, take, for_up,
}
use pint.Common.Int.{ℤ, pos, negsuc, pos_part, ltb_ℤ}
use pint.Os.{Os, Log, read, write}
use pint.CommTypes.Types.{Message, map_update, msg_buffer, TypedPipe}
use pint.CommTypes.Bytes.{int_size, int_bytes, int_at, ints_bytes}

abbrev pub max_typed_pipe_buff : ℕ
max_typed_pipe_buff = 4096

abbrev pub header_ints : ℕ
header_ints = 3

-- `struct comm_map_update`
pub record MapUpdate : Type 0 where
  pub pose_x : ℤ
  pub pose_y : ℤ
  pub obs_count : ℤ
  pub obs_x : List ℤ
  pub obs_y : List ℤ

unfoldable pub is_map_update : Message → Bool
is_map_update map_update = true
is_map_update _ = false

unfoldable pub is_msg_buffer : Message → Bool
is_msg_buffer msg_buffer = true
is_msg_buffer _ = false

-- The loop of commSendMapUpdate. The test for the size comes after the two stores.
unfoldable pub gather : ℕ → ℕ → List ℤ → List ℤ → List ℤ → List ℤ
gather zero index xs ys buffer = buffer
gather (suc rounds) index xs ys buffer =
    let buffer' = buffer ++ (get_or xs index (pos 0) ∷ get_or ys index (pos 0) ∷ []) in
    let rest = gather rounds (index + 1) xs ys buffer' in
    if ltb max_typed_pipe_buff (length buffer' * int_size) then buffer' else rest

unfoldable pub update_ints : MapUpdate → List ℤ
unfolding gather
update_ints msg =
    gather (pos_part msg.obs_count) 0 msg.obs_x msg.obs_y
      (msg.pose_x ∷ msg.pose_y ∷ msg.obs_count ∷ [])

unfoldable pub comm_send_map_update : Os → TypedPipe → MapUpdate → Log → ℤ × Log
unfolding is_map_update write
comm_send_map_update os pipe msg w =
    if pipe.fd_out == 0 || not (is_map_update pipe.type)
    then (pos 0, w)
    else write os pipe.fd_out (ints_bytes (update_ints msg)) w

-- The obstacles, read behind the header.
unfoldable pub store_obstacles : List ℕ → ℕ → MapUpdate → MapUpdate
store_obstacles bytes count msg =
    for_up count 0
      (λ i m. record m {
        obs_x = set m.obs_x i (int_at bytes (int_size * (2 * i)));
        obs_y = set m.obs_y i (int_at bytes (int_size * (2 * i + 1)));
      })
      msg

unfoldable pub recv_obstacles : Os → TypedPipe → MapUpdate → Log → ℤ × MapUpdate × Log
unfolding read store_obstacles
recv_obstacles os pipe msg w =
    let size = int_size * 2 * pos_part msg.obs_count in
    let (answer, w') = read os pipe.fd_in size w in
    elim answer [
      | none ↦ (negsuc 0, msg, w')
      | some bytes ↦ (
        pos (length bytes),
        if length bytes == size then store_obstacles bytes (pos_part msg.obs_count) msg else msg,
        w',
      )
    ]

-- Returns what the last read returned.
unfoldable pub comm_recv_map_update : Os → TypedPipe → MapUpdate → Log → ℤ × MapUpdate × Log
unfolding read is_map_update recv_obstacles
comm_recv_map_update os pipe msg w =
    let (answer, w') = read os pipe.fd_in (int_size * header_ints) w in
    if pipe.fd_in == 0 || not (is_map_update pipe.type) then (pos 0, msg, w) else elim answer [
      | none ↦ (negsuc 0, msg, w')
      | some bytes ↦
          let msg' = record msg {
            pose_x = int_at bytes 0;
            pose_y = int_at bytes 4;
            obs_count = int_at bytes 8;
          } in
          if not (length bytes == int_size * header_ints)
          then (pos (length bytes), msg, w')
          else if ltb_ℤ (pos 0) msg'.obs_count
          then recv_obstacles os pipe msg' w'
          else (pos (length bytes), msg', w')
    ]

-- `struct comm_msg_buffer`
pub record MsgBuffer : Type 0 where
  pub len : ℤ
  pub message : List ℕ

unfoldable pub comm_send_msg_buffer : Os → TypedPipe → MsgBuffer → Log → ℤ × Log
unfolding is_msg_buffer write
comm_send_msg_buffer os pipe msg w =
    if pipe.fd_out == 0 || not (is_msg_buffer pipe.type)
    then (pos 0, w)
    else write os pipe.fd_out (int_bytes msg.len ++ take (pos_part msg.len) msg.message) w

-- The bytes of a short read stand at the start of the new buffer.
unfoldable pub comm_recv_msg_buffer : Os → TypedPipe → MsgBuffer → Log → ℤ × MsgBuffer × Log
unfolding is_msg_buffer read
comm_recv_msg_buffer os pipe msg w =
    let (answer, w') = read os pipe.fd_in int_size w in
    if pipe.fd_in == 0 || not (is_msg_buffer pipe.type) then (pos 0, msg, w) else elim answer [
      | none ↦ (negsuc 0, msg, w')
      | some header ↦
          let len = int_at header 0 in
          let (answer2, w2) = read os pipe.fd_in (pos_part len) w' in
          if not (length header == int_size)
          then (pos (length header), msg, w')
          else if ltb_ℤ (pos 0) len
          then (elim answer2 [
            | none ↦ (negsuc 0, record { len = len; message = [] }, w2)
            | some bytes ↦ (pos (length bytes), record { len = len; message = bytes }, w2)
          ])
          else (pos (length header), record { len = len; message = [] }, w')
    ]
