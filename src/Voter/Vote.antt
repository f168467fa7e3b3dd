-- ===== src/Voter/Vote.antt =====
-- checkSDC and processFromRep of voter/voterd.c: the vote on what the replicas put out.
use pint.Common.{ℕ, zero, suc, ◌+◌, ◌%◌, Bool, ◌==◌, if◌then◌else◌}
use pint.Common.Int.{is_zero}
use pint.Os.{Os}
use pint.VoteBuff.{smr, dmr, tmr, none_rep, rep_type_error, pipe_to_buff, compare_buffs}
use pint.Replicas.Types.{vot_pipe, set_vot_pipe}
use pint.Replicas.Votes.{bytes_ready}
use pint.Replicas.Balance.{balance_reps}
use pint.Voter.State.{Voter}
use pint.Voter.Send.{send_pipe}
use pint.Voter.Recover.{restart_prep}

-- Replicas a and b agree on the next n bytes.
unfoldable pub agree : Voter → ℕ → ℕ → ℕ → ℕ → Bool
agree v pipe n a b =
    is_zero (compare_buffs (vot_pipe v.replicas a pipe) (vot_pipe v.replicas b pipe) n)

-- The loop of the TMR case, from replica r on with `rounds` left: what to do with the first that
-- agrees with its neighbour.
unfoldable pub check_from : Os → ℕ → ℕ → ℕ → ℕ → Voter → Voter
check_from os pipe n zero r v = v
check_from os pipe n (suc rounds) r v =
    let rest = check_from os pipe n rounds (r + 1) v in
    if agree v pipe n r ((r + 1) % v.rep_count)
    then (if agree v pipe n r ((r + 2) % v.rep_count)
        then send_pipe os pipe r v
        else restart_prep os ((r + 2) % v.rep_count) r v)
    else rest

-- In the DMR case a disagreement is only reported.
unfoldable pub check_sdc : Os → ℕ → Voter → Voter
unfolding check_from
check_sdc os pipe v =
    let bytes_avail = bytes_ready v.replicas v.rep_count pipe in
    let voted = check_from os pipe bytes_avail v.rep_count 0 v in
    if bytes_avail == 0 then v else elim v.rep_type [
      | smr ↦ send_pipe os pipe 0 v
      | dmr ↦ send_pipe os pipe 0 v
      | tmr ↦ voted
      | none_rep ↦ v
      | rep_type_error ↦ v
    ]

unfoldable pub process_from_rep : Os → ℕ → ℕ → Voter → Voter
unfolding check_sdc
process_from_rep os rep pipe v =
    let (status, p, w) = pipe_to_buff os (vot_pipe v.replicas rep pipe) v.log in
    let reps = set_vot_pipe v.replicas rep pipe p in
    let (balanced, w') = balance_reps os reps v.rep_count v.replica_priority w in
    if is_zero status
    then check_sdc os pipe (record v { replicas = balanced; log = w' })
    else record v { replicas = reps; log = w }
