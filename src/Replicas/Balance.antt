-- ===== src/Replicas/Balance.antt =====
-- balanceReps of src/replicas.c: the replica with the most to catch up runs first.
use pint.Common.{ℕ, List, ◌==◌, if◌then◌else◌, for_up, set}
use pint.Common.Int.{ℤ, pos, ◌+ℤ◌, ltb_ℤ}
use pint.Os.{Os, Log}
use pint.Tas.{sched_set_policy}
use pint.Replicas.Types.{Replica, rep_at}
use pint.Replicas.Votes.{rep_gap}

-- The two who are to run first, while the loop looks at their gaps.
pub record Order : Type 0 where
  pub starting : ℕ
  pub second : ℕ

unfoldable pub order_step : (ℕ → ℤ) → ℕ → Order → Order
order_step gap index o =
    if ltb_ℤ (gap o.starting) (gap index)
    then record o { starting = index }
    else if ltb_ℤ (gap o.second) (gap index)
    then (if index == o.starting then o else record o { second = index })
    else o

unfoldable pub pick_order : (ℕ → ℤ) → ℕ → Order
pick_order gap num = for_up num 0 (order_step gap) (record { starting = 0; second = 1 })

unfoldable pub priority_for : Order → ℤ → ℕ → ℤ
unfolding ◌+ℤ◌
priority_for o default_priority index =
    if index == o.starting
    then default_priority +ℤ pos 2
    else if index == o.second
    then default_priority +ℤ pos 1
    else default_priority

-- A replica's new priority is recorded if the system takes it.
unfoldable pub set_priority : Os → ℕ → ℤ → List Replica × Log → List Replica × Log
unfolding sched_set_policy
set_priority os index priority (reps, w) =
    let (retval, w') = sched_set_policy os (rep_at reps index).pid priority w in
    (
      if ltb_ℤ retval (pos 0)
          then reps
          else set reps index (record (rep_at reps index) { priority = priority }),
      w',
    )

unfoldable pub balance_reps : Os → List Replica → ℕ → ℤ → Log → List Replica × Log
unfolding set_priority
balance_reps os reps num default_priority w =
    let o = pick_order (rep_gap reps num) num in
    for_up num 0 (λ index s. set_priority os index (priority_for o default_priority index) s)
      (reps, w)
