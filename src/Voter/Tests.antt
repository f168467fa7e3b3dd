-- ===== src/Voter/Tests.antt =====
-- The theorems about voter/voterd.c at concrete voters.
use pint.Common.{
  ℕ, zero, suc, ◌≡◌, ◌↔◌, ◌<◌, refl, [], ◌∷◌, OnSome, arith, take, drop, for_up, false, true,
}
use pint.Os.{writes}
use pint.VoteBuff.{tmr, dmr}
use pint.VoteBuff.Contents.{contents, window}
use pint.Replicas.Types.{count_at, zeros, vot_pipe}
use pint.Replicas.Votes.{bytes_ready}
use pint.Replicas.Slots.{HasSlot}
use pint.Voter.Sync.{check_sync_iff}
use pint.Voter.Resync.{InStep, align-InStep}
use pint.Voter.State.{Voter}
use pint.Voter.Send.{send_pipe}
use pint.Voter.Recover.{restart_prep, align}
use pint.Voter.Vote.{check_sdc}
use pint.Voter.Update.{check_sync, do_one_update}
use pint.Voter.Output.{send_pipe_lem}
use pint.Voter.Wellformed.{Valid}
use pint.Voter.Rounds.{do_one_update-Valid}
use pint.Voter.Majority.{Comparable, ballot, check_sdc_odd_out, check_sdc_unanimous}
use pint.Samples.{
  os, voter, trio, replica, trio-IsValid, trio-PipesValid, trio-in_step, trio-HasSlot,
}

-- Replica 2 disagrees.
abbrev split : Voter
split = voter tmr 3 (trio 5 5 8)

-- All agree.
abbrev level : Voter
level = voter tmr 3 (trio 5 5 5)

-- No two agree.
abbrev scattered : Voter
scattered = voter tmr 3 (trio 5 6 8)

abbrev pair : Voter
pair = voter dmr 2 (replica 5 ∷ replica 6 ∷ [])

trio-Comparable : (a b c : ℕ) → Comparable (voter tmr 3 (trio a b c)) 0
unfolding for_up bytes_ready
trio-Comparable a b c = record {
  triple = refl;
  voting = refl;
  valid = trio-IsValid a b c;
  in_step = λ r s lr ls. trio-in_step a b c r s;
  busy = λ e. ground arith;
}

check_sdc_odd_out_example : check_sdc os 0 split ≡ restart_prep os 2 0 split
unfolding for_up bytes_ready window zeros
check_sdc_odd_out_example =
    check_sdc_odd_out os split 0 2 (trio-Comparable 5 5 8) (omega arith) refl (λ e. ground arith)

check_sdc_unanimous_example :
    ((check_sdc os 0 level).log ≡ writes 9 (ballot level 0 0) ∷ [])
    × (contents (vot_pipe (check_sdc os 0 level).replicas 1 0)
        ≡ drop (bytes_ready level.replicas 3 0) (contents (vot_pipe level.replicas 1 0)))
unfolding for_up bytes_ready window zeros
check_sdc_unanimous_example =
    check_sdc_unanimous os level 0 1 (trio-Comparable 5 5 5) (trio-HasSlot 5 5 5) refl refl
      (omega arith)

pair-HasSlot : (r : ℕ) → r < 2 → HasSlot pair.replicas r 0
pair-HasSlot zero lt = record { rep_in = omega arith; pipe_in = omega arith }
pair-HasSlot (suc zero) lt = record { rep_in = omega arith; pipe_in = omega arith }
pair-HasSlot (suc (suc r)) lt = absurd (omega arith)

send_pipe_lem_example :
    let v = send_pipe os 0 1 level in
    (v.log
      ≡ writes 9 (take (bytes_ready level.replicas 3 0) (contents (vot_pipe level.replicas 1 0)))
        ∷ [])
    × (contents (vot_pipe v.replicas 2 0)
        ≡ drop (bytes_ready level.replicas 3 0) (contents (vot_pipe level.replicas 2 0)))
    × (vot_pipe v.replicas 2 1 ≡ vot_pipe level.replicas 2 1)
    × (v.timer_started ≡ false)
unfolding for_up bytes_ready
send_pipe_lem_example =
    send_pipe_lem os 0 1 level 2 1 (λ e. ground arith) (omega arith) (trio-HasSlot 5 5 5)
      (trio-IsValid 5 5 5 1) (omega arith) (λ e. ground arith)

do_one_update-Valid_example : OnSome Valid (do_one_update os split)
do_one_update-Valid_example = do_one_update-Valid os split (trio-PipesValid 5 5 8)

check_sync_iff_example :
    (check_sync level ≡ true)
    ↔ ((r p : ℕ) → r < 3 → p < 1 → count_at level.replicas 0 p ≡ count_at level.replicas r p)
check_sync_iff_example = check_sync_iff level

align-InStep_example :
    InStep
      (vot_pipe (align os 2 1 0 split).replicas 2 0)
      (vot_pipe (align os 2 1 0 split).replicas 1 0)
align-InStep_example =
    align-InStep os 2 1 0 split (λ e. ground arith) (omega arith) (omega arith) (trio-HasSlot 5 5 8)
      (trio-IsValid 5 5 8 2) (trio-IsValid 5 5 8 1) (λ e. ground arith)
