-- ===== src/Plumber/Arguments.antt =====
-- The command lines that launch_node of plumber/plumbing.c puts together, written out.
use Prim.Native.String.{String}
use pint.Common.{◌≡◌, ◌≢◌, refl, ap, ◌∙◌, List, ◌∷◌, [], for_up-append, listed}
use pint.Common.Int.{pos}
use pint.Os.{Os}
use pint.VoteBuff.{Replication, none_rep, smr, dmr, tmr, rep_type_error}
use pint.Plumber.{Component, launch_argv, serialize_rep, text_or, pipe_arg, timed_arg}

-- With a voter.
pub launch_argv-voted :
    (os : Os) (n : Component)
    → n.rep_strat ≢ none_rep
    → launch_argv os n
      ≡ text_or n.voter_name
        ∷ n.value
        ∷ serialize_rep n.rep_strat
        ∷ text_or n.voter_timer
        ∷ n.priority
        ∷ listed n.pipe_count 0 (timed_arg os n)
unfolding launch_argv
launch_argv-voted os n voted =
    by_strat n.rep_strat _ _ voted
    ∙ ap
        (λ args.
          text_or n.voter_name
          ∷ n.value
          ∷ serialize_rep n.rep_strat
          ∷ text_or n.voter_timer
          ∷ n.priority
          ∷ args)
        (for_up-append n.pipe_count 0 (timed_arg os n) [])
  where
    by_strat :
        (r : Replication) (x y : List String)
        → r ≢ none_rep
        → (elim r as (λ q. List String) [
          | none_rep ↦ x
          | smr ↦ y
          | dmr ↦ y
          | tmr ↦ y
          | rep_type_error ↦ y
        ])
          ≡ y
    by_strat none_rep x y h = absurd (h refl)
    by_strat smr x y h = refl
    by_strat dmr x y h = refl
    by_strat tmr x y h = refl
    by_strat rep_type_error x y h = refl

-- Without one.
pub launch_argv-direct :
    (os : Os) (n : Component)
    → n.rep_strat ≡ none_rep
    → launch_argv os n
      ≡ n.value ∷ n.priority ∷ os.decimal (pos n.pipe_count) ∷ listed n.pipe_count 0 (pipe_arg os n)
unfolding launch_argv
launch_argv-direct os n direct =
    rw (direct, launch_argv)
      (ap (λ args. n.value ∷ n.priority ∷ os.decimal (pos n.pipe_count) ∷ args)
        (for_up-append n.pipe_count 0 (pipe_arg os n) []))
