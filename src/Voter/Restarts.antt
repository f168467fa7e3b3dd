-- ===== src/Voter/Restarts.antt =====
-- Votes and restarts in voter/voterd.c keep the vote buffers of all replicas well formed.
use pint.Common.{
  ℕ, List, Option, none, some, arith, for_up, for_up_inv, if◌then◌else◌, if_inv, OnSome, ◌==◌,
}
use pint.Common.Int.{is_zero}
use pint.Os.{Os, Log}
use pint.VoteBuff.{Replication, smr, dmr, tmr, none_rep, rep_type_error, pipe_to_buff}
use pint.VoteBuff.Refine.{pipe_to_buff_refines}
use pint.Replicas.Types.{Replica, rep_at, vot_pipe, set_vot_pipe}
use pint.Replicas.Votes.{bytes_ready}
use pint.Replicas.Balance.{balance_reps}
use pint.Replicas.Start.{start_replicas, cleanup_replica}
use pint.Replicas.Revival.{start_replicas-PipesValid}
use pint.Replicas.Wellformed.{PipesValid, set_vot_pipe-PipesValid, balance_reps-PipesValid}
use pint.Voter.State.{Voter, ext_pipe}
use pint.Voter.Send.{send_pipe, process_data}
use pint.Voter.Recover.{restart_prep, victim, restarter_of, cold_restart, voter_restart_handler}
use pint.Voter.Vote.{check_from, check_sdc, process_from_rep}
use pint.Voter.Wellformed.{
  Valid, send_pipe-Valid, process_data-Valid, restart_prep-Valid, check_from-Valid,
}

-- By the kinds of replication, for a value that the code picks by a switch.
by_type :
    {A : Type 0} (P : A → Type 0) (t : Replication) (a b c d e : A)
    → P a
    → P b
    → P c
    → P d
    → P e
    → P (elim t [ smr ↦ a | dmr ↦ b | tmr ↦ c | none_rep ↦ d | rep_type_error ↦ e ])
by_type P smr a b c d e ha hb hc hd he = ha
by_type P dmr a b c d e ha hb hc hd he = hb
by_type P tmr a b c d e ha hb hc hd he = hc
by_type P none_rep a b c d e ha hb hc hd he = hd
by_type P rep_type_error a b c d e ha hb hc hd he = he

check_sdc-Valid : (os : Os) (pipe : ℕ) (v : Voter) → Valid v → Valid (check_sdc os pipe v)
unfolding check_sdc
check_sdc-Valid os pipe v h =
    let n = bytes_ready v.replicas v.rep_count pipe in
    let voted = check_from os pipe n v.rep_count 0 v in
    let sent = send_pipe os pipe 0 v in
    if_inv Valid (n == 0) v
      (elim v.rep_type [
        | smr ↦ sent
        | dmr ↦ sent
        | tmr ↦ voted
        | none_rep ↦ v
        | rep_type_error ↦ v
      ])
      h
      (by_type Valid v.rep_type sent sent voted v v (send_pipe-Valid os pipe 0 v h)
        (send_pipe-Valid os pipe 0 v h) (check_from-Valid os pipe n v.rep_count 0 v h) h h)

-- Reading from a replica and voting on what it put out keeps the vote buffers well formed.
pub process_from_rep-Valid :
    (os : Os) (rep pipe : ℕ) (v : Voter) → Valid v → Valid (process_from_rep os rep pipe v)
unfolding process_from_rep
process_from_rep-Valid os rep pipe v h =
    let (status, p, w) = pipe_to_buff os (vot_pipe v.replicas rep pipe) v.log in
    let reps = set_vot_pipe v.replicas rep pipe p in
    let (balanced, w') = balance_reps os reps v.rep_count v.replica_priority w in
    let stored =
      set_vot_pipe-PipesValid v.replicas rep pipe p
        (pipe_to_buff_refines os (vot_pipe v.replicas rep pipe) v.log (h rep pipe)).1 h in
    if_inv Valid (is_zero status) (check_sdc os pipe (record v { replicas = balanced; log = w' }))
      (record v { replicas = reps; log = w })
      (check_sdc-Valid os pipe (record v { replicas = balanced; log = w' })
        (balance_reps-PipesValid os reps v.rep_count v.replica_priority w stored))
      stored

cold_restart-Valid : (os : Os) (v : Voter) → Valid v → OnSome Valid (cold_restart os v)
unfolding cold_restart
cold_restart-Valid os v h =
    by_start
      (start_replicas os v.replicas v.rep_count v.sock_fd v.controller_name v.ext_pipes v.pipe_count
        v.replica_priority (cleanup_replica (rep_at v.replicas 0) v.log))
      (start_replicas-PipesValid os v.replicas v.rep_count v.sock_fd v.controller_name v.ext_pipes
        v.pipe_count v.replica_priority (cleanup_replica (rep_at v.replicas 0) v.log) h)
  where
    resend : ℕ → Voter → Voter
    resend p u = if (ext_pipe u p).fd_in == 0 then u else process_data os p u

    resend-Valid : (p : ℕ) (u : Voter) → Valid u → Valid (resend p u)
    resend-Valid p u k =
        if_inv Valid ((ext_pipe u p).fd_in == 0) u (process_data os p u) k
          (process_data-Valid os p u k)

    by_start :
        (o : Option (List Replica × Log))
        → OnSome (λ s. PipesValid s.0) o
        → OnSome Valid (elim o [
          | none ↦ none
          | some (reps, w2) ↦ some (
              for_up v.pipe_count 0 resend
                (record v { last_dead = (rep_at v.replicas 0).pid; replicas = reps; log = w2 }))
        ])
    by_start none k = tt
    by_start (some (reps, w2)) k =
        for_up_inv (λ i u. Valid u) resend v.pipe_count 0 v.pipe_count
          (record v { last_dead = (rep_at v.replicas 0).pid; replicas = reps; log = w2 })
          (omega arith) (λ i u lt m. resend-Valid i u m) k

pub handler-Valid : (os : Os) (v : Voter) → Valid v → OnSome Valid (voter_restart_handler os v)
unfolding voter_restart_handler
handler-Valid os v h =
    by_type (OnSome Valid) v.rep_type (cold_restart os v)
      (some (restart_prep os (victim v) (restarter_of v (victim v)) v))
      (some (restart_prep os (victim v) (restarter_of v (victim v)) v)) (some v) (some v)
      (cold_restart-Valid os v h) (restart_prep-Valid os (victim v) (restarter_of v (victim v)) v h)
      (restart_prep-Valid os (victim v) (restarter_of v (victim v)) v h) h h
