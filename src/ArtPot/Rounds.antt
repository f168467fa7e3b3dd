-- ===== src/ArtPot/Rounds.antt =====
-- The loop of controllers/art_pot.c and what main does before it. The endless loop of an injected
-- control flow error is left out.
use pint.Common.{
  ℕ, List, [], ◌∷◌, Option, none, some, ◌==◌, if◌then◌else◌, length, get_or, set, ◌>>=◌,
}
use pint.Common.Int.{pos}
use pint.Os.{Os, Log, read, selects, contains}
use pint.CommTypes.Types.{TypedPipe}
use pint.CommTypes.Fixed.{RangePoseData, WayRes, comm_copy_ranger, comm_copy_waypoints}
use pint.ArtPot.{Doubles, ArtPot, PipeIndexes, no_pipe, pipe_count_max, command, request_way}

-- The structs that lie in the bytes of a message.
pub record Decoders (D : Type 0) : Type 0 where
  pub ranger : List ℕ → RangePoseData D
  pub waypoints : List ℕ → WayRes D

module _ {D : Type 0} (d : Doubles D) (from : Decoders D) (os : Os) (pipes : List TypedPipe)
    (pipe_count : ℕ) (indexes : PipeIndexes) where
  abbrev pub data_fd : ℕ
  data_fd = (get_or pipes indexes.data_index no_pipe).fd_in

  -- What is read from the data pipe. Data of another size, the end of the file and errors are only
  -- printed.
  unfoldable pub on_data : Option (List ℕ) → ArtPot D → Log → Option (ArtPot D × Log)
  unfolding comm_copy_ranger command
  on_data none st w = some (st, w)
  on_data (some bytes) st w =
      let copied = comm_copy_ranger (d.whole 0) (from.ranger bytes) st.ranges st.position in
      if length bytes == 152
      then command d os pipes indexes (record st { ranges = copied.0; position = copied.1 }) w
      else some (st, w)

  -- What is read from the planner.
  unfoldable pub on_waypoints : Option (List ℕ) → ArtPot D → ArtPot D
  unfolding comm_copy_waypoints
  on_waypoints none st = st
  on_waypoints (some bytes) st =
      let copied = comm_copy_waypoints (d.whole 0) (from.waypoints bytes) st.goal st.next_goal in
      if length bytes == 48 then record st { goal = copied.0; next_goal = copied.1 } else st

  unfoldable pub serve_data : List ℕ → ArtPot D → Log → Option (ArtPot D × Log)
  unfolding read on_data
  serve_data ready st w =
      if contains ready data_fd
      then on_data (read os data_fd 152 w).0 st (read os data_fd 152 w).1
      else some (st, w)

  unfoldable pub serve_waypoints : List ℕ → ℕ → ArtPot D → Log → ArtPot D × Log
  unfolding read on_waypoints
  serve_waypoints ready fd st w =
      if contains ready fd
      then (on_waypoints (read os fd 48 w).0 st, (read os fd 48 w).1)
      else (st, w)

  -- One round of enterLoop, where `planner` is the descriptor of the pipe from the planner, if
  -- there are four pipes.
  unfoldable pub serve_round : Option ℕ → ArtPot D → Log → Option (ArtPot D × Log)
  unfolding serve_data serve_waypoints
  serve_round none st w =
      let w1 : Log = selects (data_fd ∷ []) (pos 1000000) ∷ w in
      elim (os.select_answer w1) [ none ↦ some (st, w1) | some ready ↦ serve_data ready st w1 ]
  serve_round (some fd) st w =
      let w1 : Log = selects (data_fd ∷ fd ∷ []) (pos 1000000) ∷ w in
      elim (os.select_answer w1) [
        | none ↦ some (st, w1)
        | some ready ↦ serve_data ready st w1 >>= λ r. some (serve_waypoints ready fd r.0 r.1)
      ]

  -- `none`: with four pipes, and none of the type WAY_RES, pipes[-1] is read.
  unfoldable pub art_round : ArtPot D → Log → Option (ArtPot D × Log)
  unfolding serve_round
  art_round st w = elim indexes.way_res_index [
    | none ↦ if pipe_count == pipe_count_max then none else serve_round none st w
    | some i ↦
        serve_round
          (if pipe_count == pipe_count_max then some (get_or pipes i no_pipe).fd_in else none) st w
  ]

  -- The start of main, after the pipes are set.
  unfoldable pub start : (seven : D) → ArtPot D → Log → Option (ArtPot D × Log)
  unfolding request_way
  start seven st w =
      if pipe_count == pipe_count_max
      then (request_way d os pipes indexes w >>= λ w'. some (st, w'))
      else some (record st { goal = set (set st.goal 0 seven) 1 seven }, w)
