-- ===== src/Voter/Update.antt =====
-- checkSync and doOneUpdate of voter/voterd.c: one round of the voter's main loop. A round that
-- ends the process, by a failed cold restart, has the result `none`.
use pint.Common.{
  ℕ, ◌-◌, Bool, true, false, List, [], ◌∷◌, ◌++◌, Option, none, some, ltb, ◌==◌, ◌&&◌, not,
  if◌then◌else◌, for_up, set, length,
}
use pint.Common.Int.{ℤ, pos, negsuc, ◌-ℤ◌, ltb_ℤ, is_zero}
use pint.Os.{Os, read, selects, waits, stamps, contains}
use pint.VoteBuff.{Replication, smr, max_buff}
use pint.VoteBuff.Memory.{splice}
use pint.Replicas.Types.{vot_pipe, count_at}
use pint.Voter.State.{Voter, ext_pipe}
use pint.Voter.Send.{start_timer, process_data}
use pint.Voter.Recover.{collect, voter_restart_handler}
use pint.Voter.Vote.{process_from_rep}

infixl 5 ◌>>=◌
abbrev pub ◌>>=◌ : Option Voter → (Voter → Option Voter) → Option Voter
none >>= f = none
some v >>= f = f v

-- Every replica has put out as many bytes as replica 0, on every pipe.
unfoldable pub check_sync : Voter → Bool
check_sync v =
    for_up v.pipe_count 0
      (λ p nsync.
        for_up (v.rep_count - 1) 1
          (λ r nsync'. if count_at v.replicas 0 p == count_at v.replicas r p then nsync' else false)
          nsync)
      true

unfoldable pub is_smr : Replication → Bool
is_smr smr = true
is_smr _ = false

-- A replica without redundancy may end by itself.
unfoldable pub check_child : Os → Voter → Option Voter
unfolding is_smr
check_child os v =
    let exit_pid = os.wait_answer v.log in
    let waited = record v { log = waits ∷ v.log } in
    let restarted =
      voter_restart_handler os waited >>= λ u. some (record u { timer_started = false }) in
    if not (is_smr v.rep_type)
    then some v
    else if ltb_ℤ (pos 0) exit_pid && not (is_zero (exit_pid -ℤ v.last_dead))
    then restarted
    else some waited

-- The watchdog: the select timeout in microseconds, or a restart if the time is up.
unfoldable pub check_timer : Os → Voter → Option (ℤ × Voter)
check_timer os v =
    let current = os.time_answer v.log in
    let remaining = os.remaining v.voting_timeout current v.watchdog in
    let stamped = record v { log = stamps ∷ v.log } in
    if not v.timer_started
    then some (pos 50000, v)
    else if ltb_ℤ (pos 0) remaining
    then some (remaining, stamped)
    else elim (voter_restart_handler os stamped) [ none ↦ none | some u ↦ some (pos 50000, u) ]

-- A lagging controller that is not real-time gets a timer.
unfoldable pub check_lag : Os → Voter → Voter
unfolding start_timer
check_lag os v =
    if check_sync v
    then v
    else if ltb_ℤ v.voter_priority (pos 5) && not v.timer_started
    then start_timer os v
    else v

-- The external inputs are listened to only while the replicas are in step.
unfoldable pub listened : Voter → List ℕ
unfolding collect
listened v =
    let exts = collect v.pipe_count (λ p. (ext_pipe v p).fd_in) in
    let reps =
      for_up v.pipe_count 0
        (λ p fds. collect v.rep_count (λ r. (vot_pipe v.replicas r p).fd_in) ++ fds) [] in
    if check_sync v then reps ++ exts else reps

unfoldable pub read_ext : Os → ℕ → Voter → Voter
unfolding read splice
read_ext os p v =
    let ext = ext_pipe v p in
    let (answer, w) = read os ext.fd_in max_buff v.log in
    elim answer [
      | none ↦ record v {
        ext_pipes = set v.ext_pipes p (record ext { buff_count = negsuc 0 });
        log = w;
      }
      | some bytes ↦
          let v' = record v {
            ext_pipes = set v.ext_pipes p (record ext {
              buff_count = pos (length bytes);
              buffer = splice ext.buffer 0 bytes;
            });
            log = w;
          } in
          if ltb 0 (length bytes) then process_data os p v' else v'
    ]

unfoldable pub serve_ext : Os → List ℕ → ℕ → Voter → Voter
unfolding read_ext contains
serve_ext os ready p v =
    if (ext_pipe v p).fd_in == 0
    then v
    else if contains ready (ext_pipe v p).fd_in
    then read_ext os p v
    else v

unfoldable pub serve_rep : Os → List ℕ → ℕ → ℕ → Voter → Voter
unfolding contains
serve_rep os ready p r v =
    if (vot_pipe v.replicas r p).fd_in == 0
    then v
    else if contains ready (vot_pipe v.replicas r p).fd_in
    then process_from_rep os r p v
    else v

unfoldable pub serve : Os → List ℕ → Voter → Voter
unfolding serve_ext serve_rep
serve os ready v =
    let v' = for_up v.pipe_count 0 (serve_ext os ready) v in
    for_up v'.pipe_count 0 (λ p u. for_up u.rep_count 0 (serve_rep os ready p) u) v'

unfoldable pub do_one_update : Os → Voter → Option Voter
unfolding check_child check_timer check_lag listened serve
do_one_update os v = do
  v1 ← check_child os v
  elim (check_timer os v1) [
    | none ↦ none
    | some (timeout, v2) ↦
        let v3 = check_lag os v2 in
        let v4 = record v3 { log = selects (listened v3) timeout ∷ v3.log } in
        some (elim (os.select_answer v4.log) [ none ↦ v4 | some ready ↦ serve os ready v4 ])
  ]
