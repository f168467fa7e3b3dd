-- ===== src/Filter.antt =====
-- controllers/filter.c: a controller that hands the ranges and the pose that it reads to each of its
-- outputs. A double is a parameter, with its zero, its successor by ++ and its bytes in memory.
mod Forwards
mod Relayed
mod Tests
use pint.Common.{
  ℕ, zero, suc, ◌-◌, Bool, true, false, List, [], ◌∷◌, Option, none, some, ◌==◌, if◌then◌else◌,
  length, get_or, set, for_up,
}
use pint.Common.Int.{pos}
use pint.Os.{Os, Log, read, selects, contains}
use pint.CommTypes.Types.{TypedPipe, comm_ack}
use pint.CommTypes.Fixed.{RangePoseData, comm_copy_ranger, comm_send_ranger}

-- The globals of the filter.
pub record Filter (D : Type 0) : Type 0 where
  pub ranges : List D
  pub pose : List D
  pub insert_sdc : Bool
  pub insert_cfe : Bool

abbrev pub no_pipe : TypedPipe
no_pipe = record { type = comm_ack; fd_in = 0; fd_out = 0 }

module _ {D : Type 0} (zero_d : D) (successor : D → D) (double_bytes : D → List ℕ)
    (from_bytes : List ℕ → RangePoseData D) (os : Os) (pipes : List TypedPipe)
    (pipe_count : ℕ) where
  -- setPipeIndexes puts the data in pipe 0, and output i - 1 in pipe i.
  unfoldable pub send_output : Filter D → ℕ → Log → Log
  unfolding comm_send_ranger
  send_output st i w =
      (comm_send_ranger zero_d double_bytes os (get_or pipes i no_pipe) st.ranges st.pose w).1

  unfoldable pub command : Filter D → Log → Filter D × Log
  unfolding send_output
  command st w =
      let st' =
        if st.insert_sdc
        then record st {
          insert_sdc = false;
          ranges = set st.ranges 0 (successor (get_or st.ranges 0 zero_d));
        }
        else st in
      (st', for_up (pipe_count - 1) 1 (send_output st') w)

  -- Data of another size, the end of the file and errors are only printed.
  unfoldable pub on_data : Option (List ℕ) → Filter D → Log → Filter D × Log
  unfolding comm_copy_ranger command
  on_data none st w = (st, w)
  on_data (some bytes) st w =
      let copied = comm_copy_ranger zero_d (from_bytes bytes) st.ranges st.pose in
      if length bytes == 152
      then command (record st { ranges = copied.0; pose = copied.1 }) w
      else (st, w)

  -- What follows select, where `none` is a timeout or an error.
  unfoldable pub on_ready : Option (List ℕ) → Filter D → Log → Filter D × Log
  unfolding read on_data
  on_ready none st w = (st, w)
  on_ready (some ready) st w =
      let fd = (get_or pipes 0 no_pipe).fd_in in
      if contains ready fd then on_data (read os fd 152 w).0 st (read os fd 152 w).1 else (st, w)

  -- One round of enterLoop, which goes round for ever once a control flow error has been injected.
  unfoldable pub filter_round : Filter D → Log → Filter D × Log
  unfolding on_ready
  filter_round st w =
      let fd = (get_or pipes 0 no_pipe).fd_in in
      let w1 : Log = selects (fd ∷ []) (pos 1000000) ∷ w in
      let round = on_ready (os.select_answer w1) st w1 in if st.insert_cfe then (st, w) else round

  unfoldable pub filter_rounds : ℕ → Filter D → Log → Filter D × Log
  unfolding filter_round
  filter_rounds zero st w = (st, w)
  filter_rounds (suc rounds) st w = let (st', w') = filter_round st w in filter_rounds rounds st' w'
