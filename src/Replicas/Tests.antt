-- ===== src/Replicas/Tests.antt =====
-- The theorems about src/replicas.c at concrete replicas.
use pint.Common.{ℕ, ◌≡◌, ◌<◌, ◌⊎◌, [], arith, ◌==◌, if◌then◌else◌}
use pint.Common.Int.{ℤ, pos, ◌≤ℤ◌, ◌+ℤ◌}
use pint.Replicas.Types.{rep_at, count_at}
use pint.Replicas.Votes.{behind_rep}
use pint.Replicas.Balance.{balance_reps}
use pint.Replicas.Progress.{behind_rep_lem}
use pint.Replicas.Ranked.{Ranked, balance_reps_lem}
use pint.Samples.{os, trio}

behind_rep_lem_example :
    (behind_rep (trio 5 6 7) 3 0 < 3)
    × ((count_at (trio 5 6 7) (behind_rep (trio 5 6 7) 3 0) 0 < 1)
        ⊎ ((count_at (trio 5 6 7) (behind_rep (trio 5 6 7) 3 0) 0 ≡ 1)
            × (pos 0 ≤ℤ (rep_at (trio 5 6 7) (behind_rep (trio 5 6 7) 3 0)).priority)))
behind_rep_lem_example = behind_rep_lem (trio 5 6 7) 3 0 1 (omega arith)

abbrev second_leads : ℕ → ℤ
second_leads i = if i == 1 then pos 5 else pos 2

balance_reps_lem_example :
    (first : ℕ) × (second : ℕ) × Ranked os
      (trio 5 6 7)
      3
      (pos 7)
      []
      first
      second
      (balance_reps os (trio 5 6 7) 3 (pos 7) [])
unfolding ◌+ℤ◌
balance_reps_lem_example =
    balance_reps_lem os (trio 5 6 7) 3 (pos 7) [] (omega arith) (omega arith) (omega arith)
      (omega arith)
