-- ===== src/Logger.antt =====
-- controllers/logger.c: a component that writes the robot's progress and the messages of other
-- components to a file. A double is a parameter with the operations that the code applies. `none` is
-- a use of memory that the program does not have.
pub mod Rounds
pub mod Nearest
pub mod Finished
pub mod Overrun
mod Tests
use pint.Common.{
  ℕ, zero, suc, ◌+◌, ◌-◌, Bool, true, false, ◌&&◌, List, [], ◌∷◌, ◌++◌, Option, none, some, ltb,
  ◌==◌, if◌then◌else◌, length, get_or, for_up, ◌>>=◌,
}
use pint.Common.Int.{ℤ, pos, negsuc, ltb_ℤ}
use pint.Os.{Os, Log, read, selects, stamps, contains}
use pint.CommTypes.Types.{TypedPipe, comm_ack}
use pint.CommTypes.Fixed.{RangePoseData, comm_copy_ranger, ranger_count}
use pint.CommTypes.Messages.{MsgBuffer, comm_recv_msg_buffer}

-- Doubles. `cycles n` is n / (1000000 * CPU_MHZ).
pub record Doubles (D : Type 0) : Type 0 where
  pub zero_d : D
  pub one : D
  pub seven : D
  pub thousand : D
  pub plus : D → D → D
  pub minus : D → D → D
  pub times : D → D → D
  pub over : D → D → D
  pub sqrt : D → D
  pub lt : D → D → Bool
  pub eq : D → D → Bool
  pub cycles : ℕ → D

-- What is written to the file.
pub data Line (D : Type 0) : Type 0 where
  progress : (min_dist velocity distance time_elapsed x y : D) → Line D
  logged : (message : List ℕ) → Line D

-- The globals; `lines` is the file, newest line first.
pub record Logger (D : Type 0) : Type 0 where
  pub ranges : List D
  pub pose : List D
  pub finished : Bool
  pub prev_x : D
  pub prev_y : D
  pub prev_time : ℕ
  pub time_elapsed : D
  pub lines : List (Line D)

abbrev pub no_pipe : TypedPipe
no_pipe = record { type = comm_ack; fd_in = 0; fd_out = 0 }

module _ {D : Type 0} (d : Doubles D) where
  open d use {zero_d, plus, minus, times, over, sqrt, lt, eq}

  abbrev pub pose_at : Logger D → ℕ → D
  pose_at st i = get_or st.pose i zero_d

  -- The distance between two points.
  abbrev pub distance_of : D → D → D → D → D
  distance_of x y x' y' =
      sqrt (plus (times (minus x x') (minus x x')) (times (minus y y') (minus y y')))

  -- diff_time of tas_lib/tas_time.c.
  unfoldable pub diff_time : ℕ → ℕ → D
  diff_time current last = if ltb last current then d.cycles (current - last) else zero_d

  -- One round of the loop over the ranges.
  unfoldable pub nearer : List D → ℕ → D → D
  nearer ranges index min_dist =
      if lt (get_or ranges index zero_d) min_dist then get_or ranges index zero_d else min_dist

  unfoldable pub min_range : List D → D
  unfolding nearer
  min_range ranges = for_up ranger_count 0 (nearer ranges) d.thousand

  -- The velocity since the robot last moved, and the line of this round.
  unfoldable pub log_progress : ℕ → Logger D → Logger D
  unfolding diff_time min_range
  log_progress current_time st =
      let x = pose_at st 0 in
      let y = pose_at st 1 in
      let distance = distance_of x y st.prev_x st.prev_y in
      let time_this_round = diff_time current_time st.prev_time in
      let elapsed = plus st.time_elapsed time_this_round in
      let still = eq x st.prev_x && eq y st.prev_y in
      let velocity = if still then zero_d else over distance elapsed in
      record st {
        time_elapsed = if still then elapsed else zero_d;
        lines = progress (min_range st.ranges) velocity distance time_this_round x y ∷ st.lines;
      }

  unfoldable pub command : Os → Logger D → Log → Logger D × Log
  unfolding log_progress
  command os st w =
      let current_time = os.time_answer w in
      let x = pose_at st 0 in
      let y = pose_at st 1 in
      let st' =
        if lt (distance_of x y d.seven d.seven) d.one
        then record st { finished = true }
        else if st.prev_time == 0
        then st
        else log_progress current_time st in
      (record st' { prev_time = current_time; prev_x = x; prev_y = y }, stamps ∷ w)

  module _ (from_bytes : List ℕ → RangePoseData D) (os : Os) (pipes : List TypedPipe)
      (pipe_count : ℕ) where
    abbrev pub data_fd : ℕ
    data_fd = (get_or pipes 0 no_pipe).fd_in

    -- What is read from the data pipe. Data of another size, the end of the file and errors are
    -- only printed.
    unfoldable pub on_data : Option (List ℕ) → Logger D → Log → Logger D × Log
    unfolding comm_copy_ranger command
    on_data none st w = (st, w)
    on_data (some bytes) st w =
        let copied = comm_copy_ranger zero_d (from_bytes bytes) st.ranges st.pose in
        if length bytes == 152
        then command os (record st { ranges = copied.0; pose = copied.1 }) w
        else (st, w)
