-- ===== src/Voter/Wellformed.antt =====
-- Every round of voter/voterd.c keeps the vote buffers of all replicas well formed.
use pint.Common.{
  ℕ, zero, suc, ◌+◌, ◌%◌, false, List, arith, for_up, for_up_inv, if◌then◌else◌, if_inv, ◌==◌,
}
use pint.Os.{Os, Log}
use pint.VoteBuff.{buff_to_pipe, fake_to_pipe, copy_pipe}
use pint.VoteBuff.Compare.{copy_pipe-IsValid}
use pint.VoteBuff.Refine.{buff_to_pipe_refines, fake_to_pipe-IsValid}
use pint.Replicas.Types.{Replica, rep_at, vot_pipe, set_vot_pipe}
use pint.Replicas.Votes.{bytes_ready}
use pint.Replicas.Restart.{restart_replica}
use pint.Replicas.Revival.{restart_replica-PipesValid}
use pint.Replicas.Wellformed.{PipesValid, set_vot_pipe-PipesValid, balance_reps-PipesValid}
use pint.Voter.State.{Voter, ext_pipe}
use pint.Voter.Send.{send_one, send_pipe, process_data, start_timer}
use pint.Voter.Recover.{align, steal_pipes, restart_prep}
use pint.Voter.Vote.{agree, check_from}

abbrev pub Valid : Voter → Type 0
Valid v = PipesValid v.replicas

send_one-Valid :
    (os : Os) (pipe chosen fd n r : ℕ) (s : List Replica × Log)
    → PipesValid s.0
    → PipesValid (send_one os pipe chosen fd n r s).0
unfolding send_one
send_one-Valid os pipe chosen fd n r (reps, w) v =
    let sent = buff_to_pipe os (vot_pipe reps r pipe) fd n w in
    if_inv (λ (s : List Replica × Log). PipesValid s.0) (chosen == r)
      (set_vot_pipe reps r pipe sent.1, sent.2)
      (set_vot_pipe reps r pipe (fake_to_pipe (vot_pipe reps r pipe) n), w)
      (set_vot_pipe-PipesValid reps r pipe sent.1
        (buff_to_pipe_refines os (vot_pipe reps r pipe) fd n w (v r pipe)).3 v)
      (set_vot_pipe-PipesValid reps r pipe (fake_to_pipe (vot_pipe reps r pipe) n)
        (fake_to_pipe-IsValid (vot_pipe reps r pipe) n (v r pipe)) v)

pub send_pipe-Valid :
    (os : Os) (pipe chosen : ℕ) (v : Voter) → Valid v → Valid (send_pipe os pipe chosen v)
unfolding send_pipe
send_pipe-Valid os pipe chosen v h =
    let n = bytes_ready v.replicas v.rep_count pipe in
    let fd = (ext_pipe v pipe).fd_out in
    let s = for_up v.rep_count 0 (send_one os pipe chosen fd n) (v.replicas, v.log) in
    if_inv Valid (n == 0) v
      (record v {
        timer_started = if pipe == v.timer_stop_index then false else v.timer_started;
        replicas = s.0;
        log = s.1;
      })
      h
      (for_up_inv (λ i (t : List Replica × Log). PipesValid t.0) (send_one os pipe chosen fd n)
        v.rep_count 0 v.rep_count (v.replicas, v.log) (omega arith)
        (λ i t lt k. send_one-Valid os pipe chosen fd n i t k) h)

pub start_timer-Valid : (os : Os) (v : Voter) → Valid v → Valid (start_timer os v)
unfolding start_timer
start_timer-Valid os v h = h

pub process_data-Valid : (os : Os) (pipe : ℕ) (v : Voter) → Valid v → Valid (process_data os pipe v)
unfolding process_data
process_data-Valid os pipe v h =
    balance_reps-PipesValid os v1.replicas v1.rep_count v1.replica_priority v1.log (
      if_inv Valid (pipe == v.timer_start_index) (if v.timer_started then v else start_timer os v) v
        (if_inv Valid v.timer_started v (start_timer os v) h (start_timer-Valid os v h)) h)
  where
    v1 : Voter
    v1 =
        if pipe == v.timer_start_index then (if v.timer_started then v else start_timer os v) else v

align-Valid :
    (os : Os) (restartee restarter i : ℕ) (v : Voter)
    → Valid v
    → Valid (align os restartee restarter i v)
unfolding align
align-Valid os restartee restarter i v h =
    let src = vot_pipe v.replicas restarter i in
    let dest = vot_pipe v.replicas restartee i in
    let copied = record v { replicas = set_vot_pipe v.replicas restartee i (copy_pipe dest src) } in
    if_inv Valid (src.fd_in == 0) v (send_pipe os i restarter copied) h (
      send_pipe-Valid os i restarter copied (
        set_vot_pipe-PipesValid v.replicas restartee i (copy_pipe dest src)
          (copy_pipe-IsValid dest src (h restartee i) (h restarter i)) h))

pub restart_prep-Valid :
    (os : Os) (restartee restarter : ℕ) (v : Voter)
    → Valid v
    → Valid (restart_prep os restartee restarter v)
unfolding restart_prep
restart_prep-Valid os restartee restarter v h =
    for_up_inv (λ i u. Valid u) (align os restartee restarter) (rep_at s.0 restarter).pipe_count 0
      (rep_at s.0 restarter).pipe_count
      (record v { timer_started = false; replicas = s.0; log = s.1 }) (omega arith)
      (λ i u lt k. align-Valid os restartee restarter i u k)
      (restart_replica-PipesValid os v.replicas v.rep_count v.sock_fd v.ext_pipes restarter
        restartee v.replica_priority (steal_pipes os (rep_at v.replicas restarter) v.log).1 h)
  where
    s : List Replica × Log
    s =
        restart_replica os v.replicas v.rep_count v.sock_fd v.ext_pipes restarter restartee
          v.replica_priority (steal_pipes os (rep_at v.replicas restarter) v.log).1

pub check_from-Valid :
    (os : Os) (pipe n rounds r : ℕ) (v : Voter) → Valid v → Valid (check_from os pipe n rounds r v)
unfolding check_from
check_from-Valid os pipe n zero r v h = h
check_from-Valid os pipe n (suc rounds) r v h =
    if_inv Valid (agree v pipe n r ((r + 1) % v.rep_count))
      (if agree v pipe n r ((r + 2) % v.rep_count)
        then send_pipe os pipe r v
        else restart_prep os ((r + 2) % v.rep_count) r v)
      (check_from os pipe n rounds (r + 1) v)
      (if_inv Valid (agree v pipe n r ((r + 2) % v.rep_count)) (send_pipe os pipe r v)
        (restart_prep os ((r + 2) % v.rep_count) r v) (send_pipe-Valid os pipe r v h)
        (restart_prep-Valid os ((r + 2) % v.rep_count) r v h))
      (check_from-Valid os pipe n rounds (r + 1) v h)
