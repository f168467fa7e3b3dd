-- ===== src/Voter/Recover.antt =====
-- stealPipes, returnPipes, restart_prep and voterRestartHandler of voter/voterd.c, as built with
-- bench_config.h: neither TIME_RESTART_REPLICA nor PIPE_SMASH is defined.
use pint.Common.{
  ℕ, ◌+◌, ◌-◌, ◌%◌, false, List, [], ◌∷◌, Option, none, some, ltb, ◌==◌, if◌then◌else◌, for_up,
  get_or, set, length, replicate,
}
use pint.Common.Int.{pos}
use pint.Os.{Os, Log, read, selects, contains}
use pint.VoteBuff.{smr, dmr, tmr, none_rep, rep_type_error, max_buff, pipe_limit, copy_pipe}
use pint.Replicas.Types.{Replica, rep_at, vot_pipe, set_vot_pipe}
use pint.Replicas.Votes.{behind_rep}
use pint.Replicas.Start.{cleanup_replica, start_replicas}
use pint.Replicas.Restart.{restart_replica}
use pint.Voter.State.{Voter, ext_pipe}
use pint.Voter.Send.{write_buffer, process_data, send_pipe}

-- The descriptors that an FD_SET loop collects: those that are set.
unfoldable pub collect : ℕ → (ℕ → ℕ) → List ℕ
collect n fd = for_up n 0 (λ i fds. if fd i == 0 then fds else fd i ∷ fds) []

-- A stolen buffer with a count of 0, or of -1 after a read error, is empty: it is not returned.
unfoldable pub steal_one : Os → Replica → List ℕ → ℕ → List (List ℕ) × Log → List (List ℕ) × Log
unfolding read contains
steal_one os r ready i (stolen, w) =
    let fd = get_or r.voter_rep_in_copy i 0 in
    if contains ready fd
    then (let (answer, w') = read os fd max_buff w in
        (elim answer [ none ↦ (stolen, w') | some bytes ↦ (set stolen i bytes, w') ]))
    else (stolen, w)

-- The timeout of select is 0. FD_ISSET is asked of the answer.
unfoldable pub steal_pipes : Os → Replica → Log → List (List ℕ) × Log
unfolding collect steal_one
steal_pipes os r w =
    let fds = collect r.pipe_count (λ i. get_or r.voter_rep_in_copy i 0) in
    let w' = selects fds (pos 0) ∷ w in
    elim (os.select_answer w') [
      | none ↦ (replicate pipe_limit [], w')
      | some ready ↦ for_up r.pipe_count 0 (steal_one os r ready) (replicate pipe_limit [], w')
    ]

unfoldable pub return_pipes : Os → Replica → List (List ℕ) → Log → Log
unfolding write_buffer
return_pipes os r stolen w =
    for_up r.pipe_count 0
      (λ i w'.
        let bytes = get_or stolen i [] in
        if ltb 0 (length bytes)
        then write_buffer os (vot_pipe (r ∷ []) 0 i).fd_out bytes (pos (length bytes)) w'
        else w')
      w

-- The loop after restartReplica: the new replica's output buffers are copied, and what is ready on
-- each output pipe is sent.
unfoldable pub align : Os → ℕ → ℕ → ℕ → Voter → Voter
align os restartee restarter i v =
    let src = vot_pipe v.replicas restarter i in
    let dest = vot_pipe v.replicas restartee i in
    let copied = record v { replicas = set_vot_pipe v.replicas restartee i (copy_pipe dest src) } in
    if src.fd_in == 0 then v else send_pipe os i restarter copied

unfoldable pub restart_prep : Os → ℕ → ℕ → Voter → Voter
unfolding align
restart_prep os restartee restarter v =
    let (stolen, w1) = steal_pipes os (rep_at v.replicas restarter) v.log in
    let (reps, w2) =
      restart_replica os v.replicas v.rep_count v.sock_fd v.ext_pipes restarter restartee
        v.replica_priority w1 in
    let v2 = record v { timer_started = false; replicas = reps; log = w2 } in
    let v3 = for_up (rep_at reps restarter).pipe_count 0 (align os restartee restarter) v2 in
    record v3 {
      log =
          return_pipes os (rep_at v3.replicas restarter) stolen
            (return_pipes os (rep_at v3.replicas restartee) stolen v3.log);
    }

-- The replica that is killed for being behind on the timed pipe, and the one that replaces it.
unfoldable pub victim : Voter → ℕ
victim v = behind_rep v.replicas v.rep_count v.timer_stop_index

unfoldable pub restarter_of : Voter → ℕ → ℕ
restarter_of v restartee = (restartee + (v.rep_count - 1)) % v.rep_count

-- A cold start of the only replica, and the last inputs once more.
unfoldable pub cold_restart : Os → Voter → Option Voter
cold_restart os v =
    let w1 = cleanup_replica (rep_at v.replicas 0) v.log in
    elim (start_replicas os v.replicas v.rep_count v.sock_fd v.controller_name v.ext_pipes
      v.pipe_count v.replica_priority w1) [
        | none ↦ none
        | some (reps, w2) ↦ some (
            for_up v.pipe_count 0
              (λ p u. if (ext_pipe u p).fd_in == 0 then u else process_data os p u)
              (record v { last_dead = (rep_at v.replicas 0).pid; replicas = reps; log = w2 }))
      ]

-- `none`: the process has exited.
unfoldable pub voter_restart_handler : Os → Voter → Option Voter
unfolding cold_restart victim restarter_of
voter_restart_handler os v = elim v.rep_type [
  | smr ↦ cold_restart os v
  | dmr ↦ some (restart_prep os (victim v) (restarter_of v (victim v)) v)
  | tmr ↦ some (restart_prep os (victim v) (restarter_of v (victim v)) v)
  | none_rep ↦ some v
  | rep_type_error ↦ some v
]
