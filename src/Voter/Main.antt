-- ===== src/Voter/Main.antt =====
-- The loop of `main` of voter/voterd.c, for as many rounds as are asked for.
use pint.Common.{ℕ, zero, suc, Option, none, some, OnSome}
use pint.Os.{Os}
use pint.Voter.State.{Voter}
use pint.Voter.Update.{do_one_update}
use pint.Voter.Wellformed.{Valid}
use pint.Voter.Rounds.{do_one_update-Valid}

-- `none`: the process has exited in one of the rounds.
unfoldable pub main_loop : Os → ℕ → Option Voter → Option Voter
main_loop os zero o = o
main_loop os (suc rounds) none = none
main_loop os (suc rounds) (some v) = main_loop os rounds (do_one_update os v)

pub main_loop-OnSome :
    (os : Os) (rounds : ℕ) (o : Option Voter)
    → OnSome Valid o
    → OnSome Valid (main_loop os rounds o)
unfolding main_loop
main_loop-OnSome os zero o h = h
main_loop-OnSome os (suc rounds) none h = tt
main_loop-OnSome os (suc rounds) (some v) h =
    main_loop-OnSome os rounds (do_one_update os v) (do_one_update-Valid os v h)
