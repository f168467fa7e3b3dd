-- ===== src/Replicas/Ranked.antt =====
-- What balanceReps of src/replicas.c has done: whom it prefers, the calls it has made, and the
-- priorities it has recorded.
use pint.Common.{ℕ, ◌≤◌, ◌<◌, refl, List, arith, for_up_inv, length}
use pint.Common.Int.{ℤ, pos, ◌<ℤ◌, ◌+ℤ◌}
use pint.Os.{Os, Log}
use pint.Replicas.Types.{Replica, rep_at}
use pint.Replicas.Votes.{rep_gap}
use pint.Replicas.Balance.{pick_order, priority_for, balance_reps}
use pint.Replicas.Order.{pick_order-starting}
use pint.Replicas.Gaps.{put_out, rep_gap-put_out}
use pint.Replicas.Applied.{place, Applied, set_priority-Applied}

-- What balanceReps has done, with `first` the replica that is to run first.
pub record Ranked (os : Os) (reps : List Replica) (num : ℕ) (d : ℤ) (w : Log) (first second : ℕ)
    (s : List Replica × Log) : Type 0 where
  pub in_range : first < num
  pub least :
      (r : ℕ)
      → r < num
      → put_out reps first (rep_at reps 0).pipe_count ≤ put_out reps r (rep_at reps 0).pipe_count
  pub applied : Applied os (place d first second) reps w num s

place-real_time : (d : ℤ) (a b r : ℕ) → pos 0 <ℤ d → pos 0 <ℤ place d a b r
unfolding ◌+ℤ◌
place-real_time d a b r low = ground (arith, low)

place-below : (d m : ℤ) (a b r : ℕ) → d +ℤ pos 2 <ℤ m → place d a b r <ℤ m
unfolding ◌+ℤ◌
place-below d m a b r high = ground (arith, high)

-- balanceReps of num replicas, with a default priority that is positive and by more than two below
-- the maximum, prefers a replica that has put out the fewest bytes over the pipes that replicas
-- write. It asks the system for two above the default priority for this replica, for one above it
-- for at most one other, and for the default priority for the rest, by one call for each replica, in
-- order, and no other call. Each replica has the priority that was asked for if the system has taken
-- it, else its old one, and nothing else of the replicas changes, nor those from num on.
pub balance_reps_lem :
    (os : Os) (reps : List Replica) (num : ℕ) (default_priority : ℤ) (w : Log)
    → num ≤ length reps
    → 1 ≤ num
    → pos 0 <ℤ default_priority
    → default_priority +ℤ pos 2 <ℤ os.priority_max
    → (first : ℕ) × (second : ℕ) × Ranked os reps num default_priority w first second
        (balance_reps os reps num default_priority w)
unfolding balance_reps priority_for
balance_reps_lem os reps num d w fits some_rep low high =
    let o = pick_order (rep_gap reps num) num in
    (
      o.starting,
      o.second,
      record {
        in_range = (pick_order-starting (rep_gap reps num) num d 0 some_rep).0;
        least = λ r lt.
            rep_gap-put_out reps num r o.starting
              (pick_order-starting (rep_gap reps num) num d r lt).1;
        applied =
            for_up_inv (Applied os (place d o.starting o.second) reps w) _ num 0 num (reps, w)
              (omega arith)
              (λ i s lt b.
                set_priority-Applied os (place d o.starting o.second) reps w
                  (λ r. place-real_time d o.starting o.second r low)
                  (λ r. place-below d os.priority_max o.starting o.second r high) i s (omega arith)
                  b)
              (record {
                sized = refl;
                calls = refl;
                done = λ r none_yet. absurd (omega arith);
                rest = λ r le. refl;
              });
      },
    )
