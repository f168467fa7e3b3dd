-- ===== src/Plumber.antt =====
-- plumber/plumbing.c and plumber/plumbing.h: the components of a configuration, the pipes between
-- them, and their start. A `struct nodelist` is the list of its nodes before the entry whose
-- `current` is NULL; a pointer to a node is the node's place in the list.
pub mod Boot
pub mod Lookup
pub mod Arguments
mod Tests
use Prim.Native.String.{String, ◌++◌ as concat}
use text.Mathlib.Text.{◌==◌ as str_eq}
use pint.Common.{
  ℕ, zero, suc, ◌+◌, Bool, true, false, List, [], ◌∷◌, ◌++◌, Option, none, some, ltb, ◌==◌,
  if◌then◌else◌, get_or, set, for_up,
}
use pint.Common.Int.{ℤ, pos, negsuc, ltb_ℤ}
use pint.Os.{Os, Log, pipes, forks}
use pint.VoteBuff.{Replication, none_rep, smr, dmr, tmr, rep_type_error, pipe_limit}
use pint.CommTypes.Types.{Message, comm_error, TypedPipe}
use pint.CommTypes.Serial.{serialize_pipe}
use mathlib.Core.Option

-- `struct node`
pub record Component : Type 0 where
  pub name : String
  pub value : String
  pub priority : String
  pub rep_strat : Replication
  pub voter_name : Option String
  pub voter_timer : Option String
  pub pipe_count : ℕ
  pub timed : List Bool
  pub pipes : List TypedPipe

unfoldable pub new_node : String → String → Replication → String → String → String → Component
new_node name value rep_type voter_name voter_timer priority =
    let voted = λ (s : String). elim rep_type as (λ x. Option String) [
      | none_rep ↦ none
      | smr ↦ some s
      | dmr ↦ some s
      | tmr ↦ some s
      | rep_type_error ↦ some s
    ] in
    record {
      name = name;
      value = value;
      priority = priority;
      rep_strat = rep_type;
      voter_name = voted voter_name;
      voter_timer = voted voter_timer;
      pipe_count = 0;
      timed = [];
      pipes = [];
    }

-- Returns whether it succeeds, and the list.
unfoldable pub add_node :
    List Component
    → String
    → String
    → Replication
    → String
    → String
    → String
    → Bool × List Component
unfolding new_node
add_node [] name value rep_type voter_name voter_timer priority =
    (true, new_node name value rep_type voter_name voter_timer priority ∷ [])
add_node (current ∷ next) name value rep_type voter_name voter_timer priority =
    let (added, next') = add_node next name value rep_type voter_name voter_timer priority in
    if str_eq name current.name then (false, current ∷ next) else (added, current ∷ next')

unfoldable pub get_node : List Component → String → Option ℕ
get_node [] name = none
get_node (current ∷ next) name =
    let deeper = Option.map suc (get_node next name) in
    if str_eq name current.name then some 0 else deeper

-- Appends a pipe. `none`: a store behind the arrays of PIPE_LIMIT entries.
unfoldable pub link_bench : Component → Message → ℕ → ℕ → Bool → Option Component
link_bench n type fd_in fd_out timed =
    if ltb n.pipe_count pipe_limit
    then some (record n {
      pipes = n.pipes ++ (record { type = type; fd_in = fd_in; fd_out = fd_out } ∷ []);
      timed = n.timed ++ (timed ∷ []);
      pipe_count = n.pipe_count + 1;
    })
    else none

abbrev pub no_component : Component
no_component = record {
  name = "";
  value = "";
  priority = "";
  rep_strat = none_rep;
  voter_name = none;
  voter_timer = none;
  pipe_count = 0;
  timed = [];
  pipes = [];
}

abbrev pub component_at : List Component → ℕ → Component
component_at nodes i = get_or nodes i no_component

-- One end of a new pipe, stored at the node at a place.
unfoldable pub link_end : List Component → ℕ → Message → ℕ → ℕ → Bool → Option (List Component)
unfolding link_bench
link_end nodes place type fd_in fd_out timed =
    Option.map (set nodes place) (link_bench (component_at nodes place) type fd_in fd_out timed)

-- The two nodes may be one and the same.
unfoldable pub link_node :
    Os → Message → List Component → ℕ → Bool → ℕ → Bool → Log → Option (List Component) × Log
unfolding link_end
link_node os type nodes from_node from_timed to_node to_timed w = (
  elim (os.pipe_answer w) [
    | none ↦ some nodes
    | some (read_end, write_end) ↦ elim (link_end nodes from_node type 0 write_end from_timed) [
      | none ↦ none
      | some linked ↦ link_end linked to_node type read_end 0 to_timed
    ]
  ],
  pipes ∷ w,
)

-- `REP_TYPE_T`
unfoldable pub serialize_rep : Replication → String
serialize_rep none_rep = "NONE"
serialize_rep smr = "SMR"
serialize_rep dmr = "DMR"
serialize_rep tmr = "TMR"
serialize_rep rep_type_error = "REP_TYPE_ERROR"

abbrev pub no_pipe : TypedPipe
no_pipe = record { type = comm_error; fd_in = 0; fd_out = 0 }

abbrev pub pipe_arg : Os → Component → ℕ → String
pipe_arg os n i = serialize_pipe os (get_or n.pipes i no_pipe)

abbrev pub timed_arg : Os → Component → ℕ → String
timed_arg os n i =
    concat (pipe_arg os n i)
      (concat ":" (os.decimal (if get_or n.timed i false then pos 1 else pos 0)))

abbrev pub text_or : Option String → String
text_or s = elim s [ none ↦ "" | some t ↦ t ]

-- The command line that launch_node puts together, up to its NULL.
unfoldable pub launch_argv : Os → Component → List String
unfolding serialize_pipe serialize_rep
launch_argv os n =
    let pipe_args =
      λ (arg : ℕ → String). for_up n.pipe_count 0 (λ i args. args ++ (arg i ∷ [])) [] in
    let direct = n.value ∷ n.priority ∷ os.decimal (pos n.pipe_count) ∷ pipe_args (pipe_arg os n) in
    let voted =
      text_or n.voter_name
      ∷ n.value
      ∷ serialize_rep n.rep_strat
      ∷ text_or n.voter_timer
      ∷ n.priority
      ∷ pipe_args (timed_arg os n) in
    elim n.rep_strat [
      | none_rep ↦ direct
      | smr ↦ voted
      | dmr ↦ voted
      | tmr ↦ voted
      | rep_type_error ↦ voted
    ]

-- What the plumber's own process does: a failed fork ends the start.
unfoldable pub launch_node : Os → List Component → Log → Log
unfolding launch_argv
launch_node os [] w = w
launch_node os (curr ∷ next) w =
    let w' = forks (launch_argv os curr) ∷ w in
    let rest = launch_node os next w' in if ltb_ℤ (os.fork_answer w) (pos 0) then w' else rest
