-- ===== src/Mapper/Updates.antt =====
-- The loop of updateMap in controllers/mapper.c over the ranges, and updateMap as a whole.
use pint.Common.{
  ℕ, zero, suc, ◌+◌, ◌≤◌, ◌<◌, ◌≡◌, ◌≢◌, refl, inl, inr, false, ◌||◌, some, arith, ltb, ◌==◌,
  if◌then◌else◌, get_or, Bool-cases, Returns, Returns-bind, subst, bind_of, ◌∙◌,
}
use pint.Common.Int.{ℤ, pos, negsuc, ◌+ℤ◌}
use pint.Os.{Os, Log}
use pint.CommTypes.Types.{TypedPipe}
use pint.CommTypes.Messages.{comm_send_map_update}
use pint.CommTypes.Fixed.{RangePoseData, ranger_count}
use pint.Planner.Grid.{Grid, grid_num}
use pint.Planner.Command.{mark_obstacles}
use pint.Mapper.{
  Mapper, Geometry, obs_room, clamp, gridify, add_obstacle, add_range, add_ranges, update_map,
}
use pint.Mapper.Marks.{mark_obstacles_same}
use pint.Mapper.Agree.{Agree, HasRoom, Synced, count_obstacle-Synced}

-- Not the number behind the last cell.
OffEdge : ℤ → Type 0
OffEdge (pos n) = n ≢ grid_num
OffEdge (negsuc n) = Unit {0}

clamp-OffEdge : (z : ℤ) → OffEdge (clamp z)
unfolding clamp OffEdge
clamp-OffEdge (pos n) = elim (Bool-cases (n == grid_num)) [
  | inl edge ↦ rw edge (omega arith)
  | inr inside ↦ rw inside (ground (arith, inside))
]
clamp-OffEdge (negsuc n) = tt

later : (old : Grid) (rounds : ℕ) (st : Mapper) → Synced old rounds st → Synced old (rounds + 1) st
later old rounds st h = record {
  count = h.count;
  counted = h.counted;
  few = omega (arith, h.few);
  room = h.room;
  map = h.map;
  marked = h.marked;
  agree = h.agree;
}

add_obstacle-Synced :
    (old : Grid) (rounds : ℕ) (st : Mapper) (x y : ℤ)
    → OffEdge x
    → OffEdge y
    → rounds < obs_room
    → Synced old rounds st
    → Returns (λ r. Synced old (rounds + 1) r.1) (add_obstacle st x y)
unfolding add_obstacle OffEdge
add_obstacle-Synced old rounds st (pos x) (pos y) ex ey room h =
    elim (Bool-cases (ltb grid_num x || ltb grid_num y)) [
      | inl out ↦ ((false, st), rw out refl, later old rounds st h)
      | inr inside ↦
          let xl : x < grid_num = ground (arith, inside, ex) in
          let yl : y < grid_num = ground (arith, inside, ey) in
          let off : (x == grid_num || y == grid_num) ≡ false = ground (arith, xl, yl) in
          rw inside (rw off (count_obstacle-Synced old rounds st x y xl yl room h))
    ]
add_obstacle-Synced old rounds st (pos x) (negsuc y) ex ey room h =
    ((false, st), refl, later old rounds st h)
add_obstacle-Synced old rounds st (negsuc x) y ex ey room h =
    ((false, st), refl, later old rounds st h)

module _ {D : Type 0} (g : Geometry D) (readings : RangePoseData D) (old : Grid) where
  add_range-Synced :
      (i rounds : ℕ) (st : Mapper)
      → rounds < obs_room
      → Synced old rounds st
      → Returns (Synced old (rounds + 1)) (add_range g readings i st)
  unfolding add_range gridify
  add_range-Synced i rounds st room h =
      let pose_x = get_or readings.pose 0 g.zero_d in
      let pose_y = get_or readings.pose 1 g.zero_d in
      let theta = get_or readings.pose 2 g.zero_d in
      let range = get_or readings.ranges i g.zero_d in
      let x = g.cell_of (g.obstacle_x i range pose_x pose_y theta) in
      let y = g.cell_of (g.obstacle_y i range pose_x pose_y theta) in
      Returns-bind (λ r. Synced old (rounds + 1) r.1) (Synced old (rounds + 1)) _ _
        (add_obstacle-Synced old rounds st (clamp x) (clamp y) (clamp-OffEdge x) (clamp-OffEdge y)
          room h)
        (λ r k. (r.1, refl, k))

  add_ranges-Synced :
      (n i rounds total : ℕ) (st : Mapper)
      → rounds + n ≡ total
      → total ≤ obs_room
      → Synced old rounds st
      → Returns (Synced old total) (add_ranges g n i readings st)
  unfolding add_ranges
  add_ranges-Synced zero i rounds total st e room h =
      let same : rounds ≡ total = omega arith in (st, refl, subst (λ k. Synced old k st) same h)
  add_ranges-Synced (suc n) i rounds total st e room h =
      Returns-bind (Synced old (rounds + 1)) (Synced old total) (add_range g readings i st)
        (add_ranges g n (i + 1) readings) (add_range-Synced i rounds st (omega arith) h)
        (λ u k. add_ranges-Synced n (i + 1) (rounds + 1) total u (omega arith) room k)

-- The mapper and the planner keep one map: while the planner's map is that of the cells counted more
-- than OBS_THRES times, updateMap, whatever the readings, accesses no array outside its bounds,
-- sends one message, which has at most 16 obstacles, and the planner's loop over the obstacles of
-- that message makes its map again that of the cells counted more than OBS_THRES times.
pub update_map-Agree :
    {D : Type 0} (g : Geometry D) (os : Os) (pipe : TypedPipe) (readings : RangePoseData D)
    (st : Mapper) (w : Log) (map : Grid)
    → HasRoom st.send_msg
    → Agree st.obstacle_map map
    → (st' : Mapper) × (n : ℕ) × (map' : Grid) × (update_map g os pipe readings st w
        ≡ some (st', (comm_send_map_update os pipe st'.send_msg w).1))
      × (st'.send_msg.obs_count ≡ pos n)
      × (n ≤ 16)
      × (mark_obstacles n 0 st'.send_msg map ≡ some map')
      × HasRoom st'.send_msg
      × Agree st'.obstacle_map map'
unfolding update_map mark_obstacles
update_map-Agree g os pipe readings st w map room agree =
    let x = gridify g (get_or readings.pose 0 g.zero_d) in
    let y = gridify g (get_or readings.pose 1 g.zero_d) in
    let fresh = record st {
      current_x = x;
      current_y = y;
      send_msg = record st.send_msg { obs_count = pos 0 };
    } in
    let (u, e, s) =
      add_ranges-Synced g readings map ranger_count 0 0 16 fresh refl (omega arith) (record {
        count = 0;
        counted = refl;
        few = omega arith;
        room = record { room_x = room.room_x; room_y = room.room_y };
        map = map;
        marked = refl;
        agree = agree;
      }) in
    let x' = if u.insert_sdc then u.current_x +ℤ pos 1 else u.current_x in
    let sent = record u.send_msg { pose_x = x'; pose_y = u.current_y } in
    (
      record u { insert_sdc = false; current_x = x'; send_msg = sent },
      s.count,
      s.map,
      bind_of _ _ u _ e refl,
      s.counted,
      s.few,
      mark_obstacles_same s.count 0 sent u.send_msg map (λ k lt. (refl, refl)) ∙ s.marked,
      record { room_x = s.room.room_x; room_y = s.room.room_y },
      s.agree,
    )
