-- ===== src/CommTypes/Tests.antt =====
-- The theorems about src/commtypes.c at concrete messages.
use pint.Common.{
  ℕ, zero, suc, ◌≡◌, ◌<◌, refl, ◌*◌, List, [], ◌∷◌, ◌++◌, some, arith, ◌==◌, if◌then◌else◌, get_or,
  take, drop, length,
}
use pint.Common.Int.{pos, negsuc}
use pint.Os.{Os}
use pint.CommTypes.Types.{TypedPipe, map_update, msg_buffer}
use pint.CommTypes.Bytes.{int_bytes, ints_bytes, IsInt}
use pint.CommTypes.Messages.{
  MapUpdate, update_ints, comm_send_map_update, comm_recv_map_update, MsgBuffer,
  comm_send_msg_buffer, comm_recv_msg_buffer,
}
use pint.CommTypes.Delivery.{Fits, map_update_arrives}
use pint.CommTypes.Stores.{update_ints_overrun}
use pint.CommTypes.Buffers.{msg_buffer_arrives}
use pint.CommTypes.Serial.{serialize_pipe, deserialize_pipe, deserialize_pipe-serialize_pipe}
use pint.Samples.Scan.{printing, scanf, scanf-ReadsBack}
use pint.Samples
use pint.Samples.{holding}

abbrev out_end : TypedPipe
out_end = record { type = map_update; fd_in = 0; fd_out = 8 }

abbrev in_end : TypedPipe
in_end = record { type = map_update; fd_in = 7; fd_out = 0 }

abbrev update : MapUpdate
update = record {
  pose_x = pos 12;
  pose_y = negsuc 3;
  obs_count = pos 1;
  obs_x = negsuc 0 ∷ [];
  obs_y = pos 70000 ∷ [];
}

abbrev old : MapUpdate
old = record {
  pose_x = pos 0;
  pose_y = pos 0;
  obs_count = pos 0;
  obs_x = pos 0 ∷ pos 0 ∷ [];
  obs_y = pos 0 ∷ pos 0 ∷ [];
}

abbrev wire : List ℕ
wire = ints_bytes (update_ints update)

-- The kernel hands over the bytes that were written.
abbrev loopback : Os
loopback = record Samples.os {
  read_answer = λ w fd max. if max == 12 then some (take 12 wire) else some (drop 12 wire);
}

obs-IsInt :
    (k : ℕ) → k < 1 → IsInt (get_or update.obs_x k (pos 0)) × IsInt (get_or update.obs_y k (pos 0))
obs-IsInt zero lt = (
  record { not_above = omega arith; not_below = omega arith },
  record { not_above = omega arith; not_below = omega arith },
)
obs-IsInt (suc k) lt = absurd (omega arith)

update-Fits : Fits update 1
update-Fits = record {
  counted = refl;
  some_obs = omega arith;
  few = omega arith;
  pose_x_int = record { not_above = omega arith; not_below = omega arith };
  pose_y_int = record { not_above = omega arith; not_below = omega arith };
  obs_x_int = λ k lt. (obs-IsInt k lt).0;
  obs_y_int = λ k lt. (obs-IsInt k lt).1;
}

map_update_arrives_example :
    let (ret, m, u') = comm_recv_map_update loopback in_end old [] in
    (ret ≡ pos (8 * 1))
    × (m.pose_x ≡ pos 12)
    × (m.pose_y ≡ negsuc 3)
    × (m.obs_count ≡ pos 1)
    × (get_or m.obs_x 0 (pos 0) ≡ negsuc 0)
    × (get_or m.obs_y 0 (pos 0) ≡ pos 70000)
unfolding comm_send_map_update
map_update_arrives_example =
    map_update_arrives loopback out_end in_end update old 1 0 wire [] [] update-Fits (omega arith)
      (λ e. ground arith) refl (λ e. ground arith) refl (omega arith) (omega arith) refl refl refl

abbrev crowded : MapUpdate
crowded = record old { obs_count = pos 600 }

update_ints_overrun_example : length (update_ints crowded) ≡ 1025
update_ints_overrun_example = update_ints_overrun crowded (omega arith)

abbrev text_out : TypedPipe
text_out = record { type = msg_buffer; fd_in = 0; fd_out = 8 }

abbrev text_in : TypedPipe
text_in = record { type = msg_buffer; fd_in = 7; fd_out = 0 }

abbrev greeting : MsgBuffer
greeting = record { len = pos 2; message = 72 ∷ 105 ∷ [] }

abbrev text_wire : List ℕ
text_wire = int_bytes (pos 2) ++ (72 ∷ 105 ∷ [])

abbrev text_loopback : Os
text_loopback = record Samples.os {
  read_answer = λ w fd max. if max == 4 then some (take 4 text_wire) else some (drop 4 text_wire);
}

msg_buffer_arrives_example :
    let (ret, m, u') =
      comm_recv_msg_buffer text_loopback text_in (record { len = pos 0; message = [] }) [] in
    (ret ≡ pos 2) × (m.len ≡ pos 2) × (m.message ≡ 72 ∷ 105 ∷ [])
unfolding comm_send_msg_buffer
msg_buffer_arrives_example =
    msg_buffer_arrives text_loopback text_out text_in greeting
      (record { len = pos 0; message = [] }) 2 text_wire [] [] refl (omega arith)
      (record { not_above = omega arith; not_below = omega arith }) refl (λ e. ground arith) refl
      (λ e. ground arith) refl refl refl refl

-- Both ends are set: the reading end is kept.
deserialize_pipe-serialize_pipe_example :
    deserialize_pipe scanf
      (serialize_pipe printing (record { type = msg_buffer; fd_in = 5; fd_out = 6 }))
    ≡ some (record { type = msg_buffer; fd_in = 5; fd_out = 0 })
deserialize_pipe-serialize_pipe_example =
    deserialize_pipe-serialize_pipe printing scanf
      (record { type = msg_buffer; fd_in = 5; fd_out = 6 }) scanf-ReadsBack
      (record { in_fits = omega arith; out_fits = omega arith })
