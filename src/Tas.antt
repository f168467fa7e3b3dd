-- ===== src/Tas.antt =====
-- sched_set_policy of tas_lib/taslimited.c.
pub mod Maps
pub mod Covered
pub mod Walked
mod Tests
use pint.Common.{◌∷◌, if◌then◌else◌}
use pint.Common.Int.{ℤ, pos, negsuc, ◌+ℤ◌, ◌-ℤ◌, ltb_ℤ}
use pint.Os.{Os, Log, sched_rr, sched_other, nices}

-- Real-time round robin for a positive priority, else the normal policy and a niceness.
unfoldable pub sched_set_policy : Os → ℤ → ℤ → Log → ℤ × Log
unfolding ◌+ℤ◌ ◌-ℤ◌
sched_set_policy os pid priority w =
    let nice = priority +ℤ (pos 0 -ℤ priority -ℤ priority) -ℤ pos 20 in
    let w' = sched_other pid ∷ w in
    if ltb_ℤ priority os.priority_max
    then (if ltb_ℤ (pos 0) priority
        then (if os.sched_answer w pid priority then pos 0 else negsuc 0, sched_rr pid priority ∷ w)
        else if os.sched_answer w pid (pos 0)
        then (if os.nice_answer w' pid nice then pos 0 else negsuc 0, nices pid nice ∷ w')
        else (negsuc 0, w'))
    else (negsuc 0, w)
