-- ===== src/Voter/Configured.antt =====
-- From the plumber to the voter: parseArgs of voter/voterd.c reads the command line that launch_node
-- of plumber/plumbing.c writes.
use pint.Common.{
  ℕ, zero, ◌≤◌, ◌<◌, ◌≡◌, ◌≢◌, refl, sym, ap, ◌∙◌, subst, Bool, false, not, ◌&&◌, some, arith, ◌==◌,
  get_or, get_or-replicate, for_up, bind_of,
}
use pint.Common.Int.{ℤ, pos}
use pint.Os.{Os}
use pint.VoteBuff.{
  Replication, none_rep, smr, dmr, tmr, rep_type_error, pipe_limit, max_buff, reptype_to_enum,
  reptype_to_count,
}
use pint.CommTypes.Types.{TypedPipe}
use pint.CommTypes.Serial.{Scanf, ReadsBack, HasIntFds}
use pint.Plumber.{Component, no_pipe, launch_argv, serialize_rep, text_or}
use pint.Plumber.Arguments.{launch_argv-voted}
use pint.Replicas.Types.{ExtPipe, blank_ext, zeros}
use pint.Voter.State.{Voter, ext_pipe}
use pint.Voter.Arguments.{parse_head, parse_args, note_timer, start_voter, period_usec}
use pint.Voter.Launch.{connected}
use pint.Voter.Launched.{parse_pipes-listed}
use pint.Voter.Timers.{LastBelow, LastBelow-same, timers-Noted, starts, stops}

-- Pipe i of a component, and whether it is timed.
abbrev pub pipe_of : Component → ℕ → TypedPipe
pipe_of n i = get_or n.pipes i no_pipe

abbrev pub timed_of : Component → ℕ → Bool
timed_of n i = get_or n.timed i false

abbrev start_ext : ExtPipe
start_ext = record blank_ext { buffer = zeros max_buff }

-- A voter that is set up for a component.
pub record Configured (s : Scanf) (n : Component) (v : Voter) : Type 0 where
  pub controller : v.controller_name ≡ n.value
  pub strategy : v.rep_type ≡ n.rep_strat
  pub replication : v.rep_count ≡ reptype_to_count n.rep_strat
  pub priority : v.voter_priority ≡ s.atoi n.priority
  pub timeout : v.voting_timeout ≡ (elim (s.atoi (text_or n.voter_timer)) as (λ z. ℤ) [
    | pos zero ↦ period_usec
    | other ↦ other
  ])
  pub count : v.pipe_count ≡ n.pipe_count
  pub pipes :
      (i : ℕ) → i < n.pipe_count → ext_pipe v i ≡ connected (pipe_of n i) (timed_of n i) start_ext
  pub start :
      LastBelow
        (λ i. timed_of n i && not ((pipe_of n i).fd_in == 0))
        n.pipe_count
        0
        v.timer_start_index
  pub stop :
      LastBelow (λ i. timed_of n i && ((pipe_of n i).fd_in == 0)) n.pipe_count 0 v.timer_stop_index

reptype_to_enum-serialize_rep : (r : Replication) → reptype_to_enum (serialize_rep r) ≡ r
unfolding reptype_to_enum serialize_rep
reptype_to_enum-serialize_rep none_rep = refl
reptype_to_enum-serialize_rep smr = refl
reptype_to_enum-serialize_rep dmr = refl
reptype_to_enum-serialize_rep tmr = refl
reptype_to_enum-serialize_rep rep_type_error = refl

-- The command line that the plumber starts a replicated component with, of at most PIPE_LIMIT pipes
-- whose descriptors are ints, parseArgs turns into a voter with the component's controller, strategy,
-- number of replicas, priority and timeout, 120 where it is 0, and its pipes in order, each with its
-- type, the end that is set and its flag; the timer's start and stop pipes are the last timed input
-- and the last timed output, or 0 where there is none; printf and sscanf reading back what they write.
pub parse_args-launch_argv :
    (os : Os) (s : Scanf) (n : Component)
    → ReadsBack os s
    → n.rep_strat ≢ none_rep
    → n.pipe_count ≤ pipe_limit
    → ((i : ℕ) → i < n.pipe_count → HasIntFds (pipe_of n i))
    → (v : Voter) × (parse_args s (launch_argv os n) start_voter ≡ some v) × Configured s n v
unfolding parse_args parse_head
parse_args-launch_argv os s n law voted few fits =
    let head =
      parse_head s n.value (serialize_rep n.rep_strat) (text_or n.voter_timer) n.priority
        start_voter in
    let (exts, read, f) =
      parse_pipes-listed os s law (pipe_of n) (timed_of n) pipe_limit n.pipe_count 0 n.pipe_count
        head (omega arith) few (omega arith) fits in
    let u = record head { ext_pipes = exts; pipe_count = n.pipe_count } in
    let (a, b, noted, first, last) = timers-Noted u n.pipe_count in
    let pipes = λ (i : ℕ) (lt : i < n.pipe_count).
      f.new i (omega arith) lt
      ∙ ap (connected (pipe_of n i) (timed_of n i))
          (get_or-replicate pipe_limit i start_ext blank_ext (omega arith)) in
    (
      for_up n.pipe_count 0 note_timer u,
      ap (λ argv. parse_args s argv start_voter) (launch_argv-voted os n voted)
          ∙ bind_of _ (λ t. some (for_up t.pipe_count 0 note_timer t)) u _ read refl,
      subst (Configured s n) (sym noted) (record {
        controller = refl;
        strategy = reptype_to_enum-serialize_rep n.rep_strat;
        replication = ap reptype_to_count (reptype_to_enum-serialize_rep n.rep_strat);
        priority = refl;
        timeout = refl;
        count = refl;
        pipes = pipes;
        start =
            LastBelow-same (starts u) _ n.pipe_count 0 a
              (λ j lt. ap (λ e. e.timed && not (e.fd_in == 0)) (pipes j lt)) first;
        stop =
            LastBelow-same (stops u) _ n.pipe_count 0 b
              (λ j lt. ap (λ e. e.timed && (e.fd_in == 0)) (pipes j lt)) last;
      }),
    )
