-- ===== src/Mapper.antt =====
-- controllers/mapper.c: the mapper, which counts the obstacles that the ranger sees in each cell and
-- reports a cell to the planner when its count passes OBS_THRES; and gridify of
-- controllers/mapping.c. The conversions of doubles are parameters. `none` is an access outside an
-- array.
pub mod Squares
pub mod Marks
pub mod Agree
pub mod Run
pub mod Tracked
pub mod Rounds
pub mod Start
pub mod Updates
pub mod Delivered
mod Tests
use pint.Common.{
  ℕ, zero, suc, ◌+◌, ◌*◌, Bool, true, false, ◌||◌, List, [], ◌∷◌, Option, none, some, ltb, ◌==◌,
  if◌then◌else◌, length, get_or, set, replicate, for_up, ◌>>=◌,
}
use pint.Common.Int.{ℤ, pos, negsuc, pos_part, ltb_ℤ, ◌+ℤ◌}
use pint.Os.{Os, Log, read, selects, contains}
use pint.CommTypes.Types.{TypedPipe}
use pint.CommTypes.Messages.{MapUpdate, comm_send_map_update}
use pint.CommTypes.Fixed.{RangePoseData, ranger_count}
use mathlib.Core.Option
use pint.Planner.Grid.{grid_num}

abbrev pub obs_thres : ℕ
obs_thres = 2

-- The entries of the arrays that main allocates for send_msg.
abbrev pub obs_room : ℕ
obs_room = 128

-- The globals of the mapper.
pub record Mapper : Type 0 where
  pub current_x : ℤ
  pub current_y : ℤ
  pub obstacle_map : List (List ℕ)
  pub send_msg : MapUpdate
  pub insert_sdc : Bool

-- As main leaves it; no pose is known.
unfoldable pub start_mapper : Mapper
start_mapper = record {
  current_x = pos 0;
  current_y = pos 0;
  obstacle_map = replicate grid_num (replicate grid_num 0);
  send_msg = record {
    pose_x = pos 0;
    pose_y = pos 0;
    obs_count = pos 0;
    obs_x = replicate obs_room (pos 0);
    obs_y = replicate obs_room (pos 0);
  };
  insert_sdc = false;
}

-- The edge of the map belongs to its last cell.
unfoldable pub clamp : ℤ → ℤ
clamp (pos n) = if n == grid_num then pos 79 else pos n
clamp (negsuc n) = negsuc n

-- send_msg.obs_x[send_msg.obs_count] = x and so on.
unfoldable pub report : MapUpdate → ℕ → ℕ → Option MapUpdate
unfolding ◌+ℤ◌
report msg x y =
    let n = pos_part msg.obs_count in
    if ltb n obs_room
    then some (record msg {
      obs_x = set msg.obs_x n (pos x);
      obs_y = set msg.obs_y n (pos y);
      obs_count = msg.obs_count +ℤ pos 1;
    })
    else none

unfoldable pub count_obstacle : Mapper → ℕ → ℕ → Option (Bool × Mapper)
unfolding report
count_obstacle st x y =
    let row = get_or st.obstacle_map x [] in
    let count = get_or row y 0 in
    let map' = set st.obstacle_map x (set row y (count + 1)) in
    if ltb obs_thres count
    then some (false, st)
    else if ltb obs_thres (count + 1)
    then Option.map (λ msg. (true, record st { obstacle_map = map'; send_msg = msg }))
        (report st.send_msg x y)
    else some (true, record st { obstacle_map = map' })

-- True if something changed. A coordinate equal to GRID_NUM passes the test for erroneous ones.
unfoldable pub add_obstacle : Mapper → ℤ → ℤ → Option (Bool × Mapper)
unfolding count_obstacle
add_obstacle st (pos x) (pos y) =
    if ltb grid_num x || ltb grid_num y
    then some (false, st)
    else if x == grid_num || y == grid_num
    then none
    else count_obstacle st x y
add_obstacle st (pos x) (negsuc y) = some (false, st)
add_obstacle st (negsuc x) y = some (false, st)

-- What the code computes with doubles: the cut of (p + OFFSET) / interval to an int, the position of
-- the obstacle of range i in the world, and the bytes of a message of ranges.
pub record Geometry (D : Type 0) : Type 0 where
  pub zero_d : D
  pub cell_of : D → ℤ
  pub obstacle_x : ℕ → D → D → D → D → D
  pub obstacle_y : ℕ → D → D → D → D → D
  pub from_bytes : List ℕ → RangePoseData D

module _ {D : Type 0} (g : Geometry D) where
  unfoldable pub gridify : D → ℤ
  unfolding clamp
  gridify p = clamp (g.cell_of p)

  unfoldable pub add_range : RangePoseData D → ℕ → Mapper → Option Mapper
  unfolding gridify add_obstacle
  add_range readings i st =
      let pose_x = get_or readings.pose 0 g.zero_d in
      let pose_y = get_or readings.pose 1 g.zero_d in
      let theta = get_or readings.pose 2 g.zero_d in
      let range = get_or readings.ranges i g.zero_d in
      add_obstacle st (gridify (g.obstacle_x i range pose_x pose_y theta))
        (gridify (g.obstacle_y i range pose_x pose_y theta))
      >>= λ r. some r.1

  unfoldable pub add_ranges : ℕ → ℕ → RangePoseData D → Mapper → Option Mapper
  unfolding add_range
  add_ranges zero i readings st = some st
  add_ranges (suc rounds) i readings st =
      add_range readings i st >>= add_ranges rounds (i + 1) readings

  unfoldable pub update_map :
      Os → TypedPipe → RangePoseData D → Mapper → Log → Option (Mapper × Log)
  unfolding add_ranges comm_send_map_update ◌+ℤ◌
  update_map os pipe readings st w =
      let x = gridify (get_or readings.pose 0 g.zero_d) in
      let y = gridify (get_or readings.pose 1 g.zero_d) in
      let fresh = record st {
        current_x = x;
        current_y = y;
        send_msg = record st.send_msg { obs_count = pos 0 };
      } in
      add_ranges ranger_count 0 readings fresh >>= λ u.
      (let x' = if u.insert_sdc then u.current_x +ℤ pos 1 else u.current_x in
        let sent = record u {
          insert_sdc = false;
          current_x = x';
          send_msg = record u.send_msg { pose_x = x'; pose_y = u.current_y };
        } in
        some (sent, (comm_send_map_update os pipe sent.send_msg w).1))

  -- Data of another size, the end of the file and errors are only printed.
  unfoldable pub on_data : Os → TypedPipe → Option (List ℕ) × Log → Mapper → Option (Mapper × Log)
  unfolding update_map
  on_data os update_pipe (none, w) st = some (st, w)
  on_data os update_pipe (some bytes, w) st =
      if length bytes == 152
      then update_map os update_pipe (g.from_bytes bytes) st w
      else some (st, w)

  -- One round of enterLoop, which reads sizeof(struct comm_range_pose_data) or sizeof(struct
  -- comm_ack) bytes from what is ready, and does nothing with an acknowledgement.
  unfoldable pub mapper_round :
      Os → TypedPipe → TypedPipe → TypedPipe → Mapper → Log → Option (Mapper × Log)
  unfolding read on_data
  mapper_round os data_pipe update_pipe ack_pipe st w =
      let w1 : Log = selects (data_pipe.fd_in ∷ ack_pipe.fd_in ∷ []) (pos 1000000) ∷ w in
      let acknowledged : List ℕ → Mapper × Log → Mapper × Log = λ ready r.
        if contains ready ack_pipe.fd_in then (r.0, (read os ack_pipe.fd_in 8 r.1).1) else r in
      elim (os.select_answer w1) [
        | none ↦ some (st, w1)
        | some ready ↦ Option.map (acknowledged ready) (
            if contains ready data_pipe.fd_in
            then on_data os update_pipe (read os data_pipe.fd_in 152 w1) st
            else some (st, w1))
      ]
