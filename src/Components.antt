-- ===== src/Components.antt =====
-- parseArgs of controllers/art_pot.c, controllers/a_star.c and controllers/mapper.c: a component takes
-- its pipes from its command line, or asks the voter for them.
pub mod Launched
mod Tests
use Prim.Native.String.{String}
use pint.Common.{
  ℕ, zero, suc, ◌+◌, List, [], ◌∷◌, Option, none, some, ltb, if◌then◌else◌, length, set, ◌>>=◌,
}
use pint.Common.Int.{ℤ, pos, ltb_ℤ}
use pint.Os.{Log}
use pint.CommTypes.Types.{TypedPipe}
use pint.CommTypes.Serial.{Scanf, deserialize_pipe}
use pint.FdClient.Connect.{Server, connect_recv_fds}

-- The globals that parseArgs sets. setPipeIndexes is a function of pipe_count.
pub record Globals : Type 0 where
  pub priority : ℤ
  pub pipe_count : ℤ
  pub pipes : List TypedPipe

-- The loop over the arguments for pipes, of which no more than `limit` are read, from entry i on.
-- `none`: an unset pointer is read.
unfoldable pub read_args : Scanf → ℕ → ℕ → List String → List TypedPipe → Option (List TypedPipe)
unfolding deserialize_pipe
read_args s zero i args pipes = some pipes
read_args s (suc limit) i [] pipes = some pipes
read_args s (suc limit) i (arg ∷ args) pipes =
    deserialize_pipe s arg >>= λ p. read_args s limit (i + 1) args (set pipes i p)

-- `priority` and `pipe_count`.
unfoldable pub take_head : Scanf → String → String → Globals → Globals
take_head s priority count st = record st { priority = s.atoi priority; pipe_count = s.atoi count }

unfoldable pub take_pipes : Scanf → ℕ → List String → Globals → Log → Option (Globals × Log)
unfolding read_args
take_pipes s limit args st w =
    read_args s limit 0 args st.pipes >>= λ pipes. some (record st { pipes = pipes }, w)

-- `none`: the process has exited, or reads through NULL.
unfoldable pub art_pot_args :
    Scanf → Server → ℤ → List String → Globals → Log → Option (Globals × Log)
unfolding take_head take_pipes connect_recv_fds
art_pot_args s server pid (name ∷ priority ∷ count ∷ args) st w =
    let st' = take_head s priority count st in
    if ltb (length args) 2
    then (let (retval, pipes, w') = connect_recv_fds server pid st'.pipes w in
        if ltb_ℤ retval (pos 0) then none else some (record st' { pipes = pipes }, w'))
    else take_pipes s 4 args st' w
art_pot_args s server pid _ st w = none

-- What connectRecvFDS returns is not looked at.
unfoldable pub a_star_args :
    Scanf → Server → ℤ → List String → Globals → Log → Option (Globals × Log)
unfolding take_head take_pipes connect_recv_fds
a_star_args s server pid (name ∷ priority ∷ count ∷ args) st w =
    let st' = take_head s priority count st in
    if ltb (length args) 3
    then (let (retval, pipes, w') = connect_recv_fds server pid st'.pipes w in
        some (record st' { pipes = pipes }, w'))
    else take_pipes s 4 args st' w
a_star_args s server pid _ st w = none

unfoldable pub mapper_args :
    Scanf → Server → ℤ → List String → Globals → Log → Option (Globals × Log)
unfolding take_head take_pipes connect_recv_fds
mapper_args s server pid (name ∷ priority ∷ count ∷ args) st w =
    let st' = take_head s priority count st in
    if ltb (length args) 3
    then (let (retval, pipes, w') = connect_recv_fds server pid st'.pipes w in
        some (record st' { pipes = pipes }, w'))
    else take_pipes s 3 args st' w
mapper_args s server pid _ st w = none
