-- ===== src/Replicas/Votes.antt =====
-- bytesReady, aheadRep, behindRep and rep_gap of src/replicas.c: how far each replica has come.
use pint.Common.{ℕ, ◌-◌, List, ltb, ◌==◌, ◌&&◌, if◌then◌else◌, for_up}
use pint.Common.Int.{ℤ, pos, sub_ℕ, ◌+ℤ◌, ltb_ℤ}
use pint.VoteBuff.{max_buff}
use pint.Replicas.Types.{Replica, rep_at, vot_pipe, count_at}

-- The bytes that every one of the first num replicas has put out on the pipe.
unfoldable pub bytes_ready : List Replica → ℕ → ℕ → ℕ
bytes_ready reps num pipe =
    for_up num 0 (λ r min. if ltb (count_at reps r pipe) min then count_at reps r pipe else min)
      max_buff

unfoldable pub ahead_rep : List Replica → ℕ → ℕ → ℕ
ahead_rep reps num pipe =
    for_up num 0
      (λ r most. if ltb (count_at reps most pipe) (count_at reps r pipe) then r else most) 0

-- The next candidate for the replica that is furthest behind.
unfoldable pub behind_step : List Replica → ℕ → ℕ → ℕ → ℕ
behind_step reps pipe r most =
    if ltb (count_at reps r pipe) (count_at reps most pipe)
    then r
    else if count_at reps r pipe == count_at reps most pipe
        && ltb_ℤ (rep_at reps most).priority (rep_at reps r).priority
    then r
    else most

-- The loop starts at 1.
unfoldable pub behind_rep : List Replica → ℕ → ℕ → ℕ
behind_rep reps num pipe = for_up (num - 1) 1 (behind_step reps pipe) 0

unfoldable pub rep_gap : List Replica → ℕ → ℕ → ℤ
unfolding ◌+ℤ◌
rep_gap reps num rep =
    for_up (rep_at reps 0).pipe_count 0
      (λ p gap.
        if (vot_pipe reps 0 p).fd_in == 0
        then gap
        else gap +ℤ sub_ℕ (count_at reps (ahead_rep reps num p) p) (count_at reps rep p))
      (pos 0)
