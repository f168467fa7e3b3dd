-- ===== src/VoteBuff/Tests.antt =====
-- The theorems about voter/vote_buff.c at concrete pipes.
use pint.Common.{◌≡◌, ◌↔◌, [], ◌∷◌, arith, take}
use pint.Common.Int.{pos}
use pint.VoteBuff.{compare_buffs}
use pint.VoteBuff.Contents.{contents, IsValid}
use pint.VoteBuff.Compare.{compare_buffs_iff}
use pint.VoteBuff.Refine.{run_refines, run, run_queue, receives, sends}
use pint.Samples.{os, holding, holding-IsValid}

run_refines_example :
    let (p', w') = run os (holding 5) (receives ∷ sends 9 2 ∷ receives ∷ []) [] in
    ((contents p', w')
      ≡ run_queue os 7 (contents (holding 5)) (receives ∷ sends 9 2 ∷ receives ∷ []) [])
    × IsValid p'
run_refines_example =
    run_refines os (holding 5) (receives ∷ sends 9 2 ∷ receives ∷ []) [] (holding-IsValid 5)

compare_buffs_iff_example : (compare_buffs (holding 5) (holding 6) 1 ≡ pos 0) ↔ (
    ((holding 5).buff_index ≡ (holding 6).buff_index)
    × (take 1 (contents (holding 5)) ≡ take 1 (contents (holding 6))))
compare_buffs_iff_example =
    compare_buffs_iff (holding 5) (holding 6) 1 (holding-IsValid 5) (holding-IsValid 6)
      (omega arith) (omega arith)
