-- ===== src/Voter/Rounds.antt =====
-- Every round of voter/voterd.c keeps the vote buffers of all replicas well formed.
use pint.Common.{
  ℕ, false, List, ◌∷◌, Option, none, some, arith, for_up, for_up_inv, if◌then◌else◌, if_inv, OnSome,
  ◌==◌, not, ◌&&◌, ltb, length, set,
}
use pint.Common.Int.{ℤ, pos, negsuc, is_zero, ltb_ℤ, ◌-ℤ◌}
use pint.Os.{Os, stamps, waits, selects, reads, contains}
use pint.VoteBuff.{max_buff}
use pint.VoteBuff.Memory.{splice}
use pint.Replicas.Types.{ExtPipe, vot_pipe}
use pint.Voter.State.{Voter, ext_pipe}
use pint.Voter.Send.{process_data, start_timer}
use pint.Voter.Recover.{voter_restart_handler}
use pint.Voter.Vote.{process_from_rep}
use pint.Voter.Update.{
  is_smr, check_sync, check_child, check_timer, check_lag, listened, read_ext, serve_ext, serve_rep,
  serve, do_one_update, ◌>>=◌,
}
use pint.Voter.Wellformed.{Valid, start_timer-Valid, process_data-Valid}
use pint.Voter.Restarts.{process_from_rep-Valid, handler-Valid}

-- What holds of the result of a step holds after a further step that keeps it.
>>=-OnSome :
    (m : Option Voter) (f : Voter → Option Voter)
    → OnSome Valid m
    → ((u : Voter) → Valid u → OnSome Valid (f u))
    → OnSome Valid (m >>= f)
>>=-OnSome none f h keep = tt
>>=-OnSome (some u) f h keep = keep u h

check_child-Valid : (os : Os) (v : Voter) → Valid v → OnSome Valid (check_child os v)
unfolding check_child
check_child-Valid os v h =
    let waited = record v { log = waits ∷ v.log } in
    let restarted =
      voter_restart_handler os waited >>= λ u. some (record u { timer_started = false }) in
    if_inv (OnSome Valid) (not (is_smr v.rep_type)) (some v)
      (if ltb_ℤ (pos 0) (os.wait_answer v.log)
          && not (is_zero (os.wait_answer v.log -ℤ v.last_dead))
        then restarted
        else some waited)
      h
      (if_inv (OnSome Valid)
        (ltb_ℤ (pos 0) (os.wait_answer v.log)
          && not (is_zero (os.wait_answer v.log -ℤ v.last_dead)))
        restarted (some waited)
        (>>=-OnSome (voter_restart_handler os waited)
          (λ u. some (record u { timer_started = false })) (handler-Valid os waited h) (λ u k. k))
        h)

check_timer-Valid :
    (os : Os) (v : Voter) → Valid v → OnSome (λ (s : ℤ × Voter). Valid s.1) (check_timer os v)
unfolding check_timer
check_timer-Valid os v h =
    if_inv P (not v.timer_started) (some (pos 50000, v))
      (if ltb_ℤ (pos 0) remaining
        then some (remaining, stamped)
        else late (voter_restart_handler os stamped))
      h
      (if_inv P (ltb_ℤ (pos 0) remaining) (some (remaining, stamped))
        (late (voter_restart_handler os stamped)) h
        (late-Valid (voter_restart_handler os stamped) (handler-Valid os stamped h)))
  where
    P : Option (ℤ × Voter) → Type 0
    P = OnSome (λ (s : ℤ × Voter). Valid s.1)

    remaining : ℤ
    remaining = os.remaining v.voting_timeout (os.time_answer v.log) v.watchdog

    stamped : Voter
    stamped = record v { log = stamps ∷ v.log }

    late : Option Voter → Option (ℤ × Voter)
    late o = elim o [ none ↦ none | some u ↦ some (pos 50000, u) ]

    late-Valid : (o : Option Voter) → OnSome Valid o → P (late o)
    late-Valid none k = tt
    late-Valid (some u) k = k

check_lag-Valid : (os : Os) (v : Voter) → Valid v → Valid (check_lag os v)
unfolding check_lag
check_lag-Valid os v h =
    let timed =
      if ltb_ℤ v.voter_priority (pos 5) && not v.timer_started then start_timer os v else v in
    if_inv Valid (check_sync v) v timed h (
      if_inv Valid (ltb_ℤ v.voter_priority (pos 5) && not v.timer_started) (start_timer os v) v
        (start_timer-Valid os v h) h)

read_ext-Valid : (os : Os) (p : ℕ) (v : Voter) → Valid v → Valid (read_ext os p v)
unfolding read_ext
read_ext-Valid os p v h = by_answer (os.read_answer v.log (ext_pipe v p).fd_in max_buff)
  where
    ext : ExtPipe
    ext = ext_pipe v p

    taken : List ℕ → Voter
    taken bytes = record v {
      ext_pipes =
          set v.ext_pipes p
            (record ext { buff_count = pos (length bytes); buffer = splice ext.buffer 0 bytes });
      log = reads ext.fd_in max_buff ∷ v.log;
    }

    by_answer :
        (o : Option (List ℕ))
        → Valid (elim o [
          | none ↦ record v {
            ext_pipes = set v.ext_pipes p (record ext { buff_count = negsuc 0 });
            log = reads ext.fd_in max_buff ∷ v.log;
          }
          | some bytes ↦
              if ltb 0 (length bytes) then process_data os p (taken bytes) else taken bytes
        ])
    by_answer none = h
    by_answer (some bytes) =
        if_inv Valid (ltb 0 (length bytes)) (process_data os p (taken bytes)) (taken bytes)
          (process_data-Valid os p (taken bytes) h) h

serve_ext-Valid :
    (os : Os) (ready : List ℕ) (p : ℕ) (v : Voter) → Valid v → Valid (serve_ext os ready p v)
unfolding serve_ext
serve_ext-Valid os ready p v h =
    let rest = if contains ready (ext_pipe v p).fd_in then read_ext os p v else v in
    if_inv Valid ((ext_pipe v p).fd_in == 0) v rest h (
      if_inv Valid (contains ready (ext_pipe v p).fd_in) (read_ext os p v) v
        (read_ext-Valid os p v h) h)

serve_rep-Valid :
    (os : Os) (ready : List ℕ) (p r : ℕ) (v : Voter) → Valid v → Valid (serve_rep os ready p r v)
unfolding serve_rep
serve_rep-Valid os ready p r v h =
    let fd = (vot_pipe v.replicas r p).fd_in in
    let rest = if contains ready fd then process_from_rep os r p v else v in
    if_inv Valid (fd == 0) v rest h (
      if_inv Valid (contains ready fd) (process_from_rep os r p v) v
        (process_from_rep-Valid os r p v h) h)

serve-Valid : (os : Os) (ready : List ℕ) (v : Voter) → Valid v → Valid (serve os ready v)
unfolding serve
serve-Valid os ready v h =
    let v' = for_up v.pipe_count 0 (serve_ext os ready) v in
    let h' : Valid v' =
      for_up_inv (λ i u. Valid u) (serve_ext os ready) v.pipe_count 0 v.pipe_count v (omega arith)
        (λ i u lt k. serve_ext-Valid os ready i u k) h in
    for_up_inv (λ i u. Valid u) (λ p u. for_up u.rep_count 0 (serve_rep os ready p) u) v'.pipe_count
      0 v'.pipe_count v' (omega arith)
      (λ p u lt k.
        for_up_inv (λ i t. Valid t) (serve_rep os ready p) u.rep_count 0 u.rep_count u (omega arith)
          (λ r t lt' m. serve_rep-Valid os ready p r t m) k)
      h'

-- A round of the voter's loop, whatever the system answers, either ends the process or leaves every
-- vote buffer of every replica well formed: of 4096 bytes, its index below 4096, and its count too.
pub do_one_update-Valid : (os : Os) (v : Voter) → Valid v → OnSome Valid (do_one_update os v)
unfolding do_one_update
do_one_update-Valid os v h =
    >>=-OnSome (check_child os v) rest (check_child-Valid os v h)
      (λ v1 h1. by_timer (check_timer os v1) (check_timer-Valid os v1 h1))
  where
    selected : ℤ → Voter → Voter
    selected timeout v2 = record (check_lag os v2) {
      log = selects (listened (check_lag os v2)) timeout ∷ (check_lag os v2).log;
    }

    finish : Voter → Option (List ℕ) → Voter
    finish v4 o = elim o [ none ↦ v4 | some ready ↦ serve os ready v4 ]

    finish-Valid : (v4 : Voter) (o : Option (List ℕ)) → Valid v4 → Valid (finish v4 o)
    finish-Valid v4 none k = k
    finish-Valid v4 (some ready) k = serve-Valid os ready v4 k

    after : Option (ℤ × Voter) → Option Voter
    after o = elim o [
      | none ↦ none
      | some (timeout, v2) ↦
          some (finish (selected timeout v2) (os.select_answer (selected timeout v2).log))
    ]

    rest : Voter → Option Voter
    rest v1 = after (check_timer os v1)

    by_timer :
        (o : Option (ℤ × Voter)) → OnSome (λ (s : ℤ × Voter). Valid s.1) o → OnSome Valid (after o)
    by_timer none k = tt
    by_timer (some (timeout, v2)) k =
        finish-Valid (selected timeout v2) (os.select_answer (selected timeout v2).log)
          (check_lag-Valid os v2 k)
