-- ===== src/Voter/Send.antt =====
-- writeBuffer, processData and sendPipe of voter/voterd.c: bytes to the replicas, and out.
use pint.Common.{ℕ, true, false, List, ◌∷◌, ◌==◌, if◌then◌else◌, for_up, take}
use pint.Common.Int.{ℤ, pos, negsuc}
use pint.Os.{Os, Log, write, overruns, stamps}
use pint.VoteBuff.{buff_to_pipe, fake_to_pipe}
use pint.Replicas.Types.{Replica, vot_pipe, set_vot_pipe}
use pint.Replicas.Votes.{bytes_ready}
use pint.Replicas.Balance.{balance_reps}
use pint.Voter.State.{Voter, ext_pipe}

-- What write returns is only printed.
unfoldable pub write_buffer : Os → ℕ → List ℕ → ℤ → Log → Log
unfolding write
write_buffer os fd_out buffer buff_count w = elim buff_count [
  | pos n ↦ (write os fd_out (take n buffer) w).1
  | negsuc n ↦ overruns fd_out ∷ w
]

unfoldable pub start_timer : Os → Voter → Voter
start_timer os v = record v {
  timer_started = true;
  watchdog = os.time_answer v.log;
  log = stamps ∷ v.log;
}

-- processData(&ext_pipes[pipe], pipe)
unfoldable pub process_data : Os → ℕ → Voter → Voter
unfolding write_buffer start_timer
process_data os pipe v =
    let v1 =
      if pipe == v.timer_start_index
      then (if v.timer_started then v else start_timer os v)
      else v in
    let (reps, w) = balance_reps os v1.replicas v1.rep_count v1.replica_priority v1.log in
    let ext = ext_pipe v1 pipe in
    record v1 {
      replicas = reps;
      log =
          for_up v1.rep_count 0
            (λ r w'. write_buffer os (vot_pipe reps r pipe).fd_out ext.buffer ext.buff_count w') w;
    }

-- The chosen replica's bytes go out, and the other replicas' are dropped.
unfoldable pub send_one : Os → ℕ → ℕ → ℕ → ℕ → ℕ → List Replica × Log → List Replica × Log
send_one os pipe chosen fd_out bytes_avail r (reps, w) =
    if chosen == r
    then (let (retval, p, w') = buff_to_pipe os (vot_pipe reps r pipe) fd_out bytes_avail w in
        (set_vot_pipe reps r pipe p, w'))
    else (set_vot_pipe reps r pipe (fake_to_pipe (vot_pipe reps r pipe) bytes_avail), w)

unfoldable pub send_pipe : Os → ℕ → ℕ → Voter → Voter
unfolding send_one
send_pipe os pipe chosen v =
    let bytes_avail = bytes_ready v.replicas v.rep_count pipe in
    let (reps, w) =
      for_up v.rep_count 0 (send_one os pipe chosen (ext_pipe v pipe).fd_out bytes_avail)
        (v.replicas, v.log) in
    if bytes_avail == 0 then v else record v {
      timer_started = if pipe == v.timer_stop_index then false else v.timer_started;
      replicas = reps;
      log = w;
    }
