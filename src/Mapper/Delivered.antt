-- ===== src/Mapper/Delivered.antt =====
-- From updateMap of controllers/mapper.c through the pipe to the loop of controllers/a_star.c.
use pint.Common.{
  if_true, ℕ, zero, suc, ◌+◌, ◌*◌, ◌≤◌, ◌<◌, ◌≡◌, ◌≢◌, refl, sym, subst, ap, ◌∙◌, inl, inr, Bool,
  true, false, List, ◌∷◌, none, some, arith, ltb, ◌&&◌, ◌||◌, ◌==◌, not, if◌then◌else◌, length,
  get_or, take, drop, Bool-cases, bind_inv, bind_of, OnSome,
}
use pint.Common.Int.{ℤ, pos, negsuc, pos_part, ltb_ℤ}
use pint.Os.{Os, Log, reads, writes}
use pint.CommTypes.Types.{TypedPipe, map_update}
use pint.CommTypes.Bytes.{IsInt}
use pint.CommTypes.Messages.{MapUpdate, is_map_update, comm_send_map_update, comm_recv_map_update}
use pint.CommTypes.Fixed.{RangePoseData}
use pint.CommTypes.Delivery.{Fits, map_update_arrives}
use pint.Planner.Grid.{Grid, Doubles, grid_num}
use pint.Planner.Placed.{PlacedAt, answer_update-Stays}
use pint.Planner.Command.{
  AStar, PipeIndexes, no_pipe, write_map, mark_obstacles, placed, answer_update, on_map_update,
}
use pint.Mapper.{Mapper, Geometry, update_map}
use pint.Mapper.Marks.{mark_obstacles_same}
use pint.Mapper.Agree.{Agree, HasRoom}
use pint.Mapper.Updates.{update_map-Agree}

write_map-IsInt : (map map' : Grid) (x y : ℤ) → write_map map x y ≡ some map' → IsInt x × IsInt y
unfolding write_map
write_map-IsInt map map' (pos x) (pos y) e = elim (Bool-cases (ltb x grid_num && ltb y grid_num)) [
  | inl inside ↦ (
    record { not_above = ground (arith, inside); not_below = omega arith },
    record { not_above = ground (arith, inside); not_below = omega arith },
  )
  | inr outside ↦ absurd (no_map (rw outside at e))
]
  where
    no_map : none ≡ some map' → ⊥
    no_map e = cc
write_map-IsInt map map' (pos x) (negsuc y) e = cc
write_map-IsInt map map' (negsuc x) y e = cc

-- What the planner can mark are ints.
marked-IsInt :
    (n i k : ℕ) (msg : MapUpdate) (map map' : Grid)
    → mark_obstacles n i msg map ≡ some map'
    → i ≤ k
    → k < i + n
    → IsInt (get_or msg.obs_x k (pos 0)) × IsInt (get_or msg.obs_y k (pos 0))
unfolding mark_obstacles
marked-IsInt zero i k msg map map' e le lt = absurd (omega arith)
marked-IsInt (suc n) i k msg map map' e le lt =
    let first = write_map map (get_or msg.obs_x i (pos 0)) (get_or msg.obs_y i (pos 0)) in
    let (m, here, rest) = bind_inv first (mark_obstacles n (i + 1) msg) map' e in
    elim (Bool-cases (ltb i k)) [
      | inl later ↦ marked-IsInt n (i + 1) k msg m map' rest (ground (arith, later)) (omega arith)
      | inr now ↦
          let same : i ≡ k = ground (arith, now, le) in
          subst (λ j. IsInt (get_or msg.obs_x j (pos 0)) × IsInt (get_or msg.obs_y j (pos 0))) same
            (write_map-IsInt map m (get_or msg.obs_x i (pos 0)) (get_or msg.obs_y i (pos 0)) here)
    ]

same_log :
    (b : Bool) (p q q' : ℤ × Log) → q.1 ≡ q'.1 → (if b then p else q).1 ≡ (if b then p else q').1
same_log true p q q' e = refl
same_log false p q q' e = e

-- What is written does not depend on the answers.
send-same :
    (os os' : Os) (pipe : TypedPipe) (msg : MapUpdate) (w : Log)
    → (comm_send_map_update os pipe msg w).1 ≡ (comm_send_map_update os' pipe msg w).1
unfolding comm_send_map_update
send-same os os' pipe msg w =
    same_log (pipe.fd_out == 0 || not (is_map_update pipe.type)) _ _ _ refl

some_inj : {A : Type 0} (a b : A) → some a ≡ some b → a ≡ b
some_inj a b e = cc

-- A message of obstacles that can be marked is received as one that is marked alike.
received-marked :
    (os : Os) (from to : TypedPipe) (msg old : MapUpdate) (n : ℕ) (bytes : List ℕ) (w u : Log)
    (map map' : Grid)
    → msg.obs_count ≡ pos n
    → 0 < n
    → n ≤ 16
    → IsInt msg.pose_x
    → IsInt msg.pose_y
    → mark_obstacles n 0 msg map ≡ some map'
    → from.fd_out ≢ 0
    → from.type ≡ map_update
    → to.fd_in ≢ 0
    → to.type ≡ map_update
    → 16 ≤ length old.obs_x
    → 16 ≤ length old.obs_y
    → (comm_send_map_update os from msg w).1 ≡ writes from.fd_out bytes ∷ w
    → os.read_answer u to.fd_in 12 ≡ some (take 12 bytes)
    → os.read_answer (reads to.fd_in 12 ∷ u) to.fd_in (8 * n) ≡ some (drop 12 bytes)
    → let (ret, m, u') = comm_recv_map_update os to old u in
      (ltb_ℤ (pos 0) ret ≡ true)
      × (m.pose_x ≡ msg.pose_x)
      × (m.pose_y ≡ msg.pose_y)
      × (mark_obstacles (pos_part m.obs_count) 0 m map ≡ some map')
received-marked os from to msg old n bytes w u map map' counted some_obs few px py marked fd t fd'
      t' rx ry sent first second =
    let r = comm_recv_map_update os to old u in
    let start = arrives 0 some_obs in
    let total : pos_part r.1.obs_count ≡ n = ap pos_part (start.3 ∙ counted) in
    (
      rw start.0 (ground (arith, some_obs)),
      start.1,
      start.2,
      ap (λ c. mark_obstacles c 0 r.1 map) total
          ∙ mark_obstacles_same n 0 r.1 msg map
              (λ k lt. let a = arrives k (omega arith) in (a.4, a.5))
          ∙ marked,
    )
  where
    fits : Fits msg n
    fits = record {
      counted = counted;
      some_obs = some_obs;
      few = omega (arith, few);
      pose_x_int = px;
      pose_y_int = py;
      obs_x_int = λ k lt. (marked-IsInt n 0 k msg map map' marked (omega arith) (omega arith)).0;
      obs_y_int = λ k lt. (marked-IsInt n 0 k msg map map' marked (omega arith) (omega arith)).1;
    }

    arrives :
        (k : ℕ)
        → k < n
        → let (ret, m, u') = comm_recv_map_update os to old u in
          (ret ≡ pos (8 * n))
          × (m.pose_x ≡ msg.pose_x)
          × (m.pose_y ≡ msg.pose_y)
          × (m.obs_count ≡ msg.obs_count)
          × (get_or m.obs_x k (pos 0) ≡ get_or msg.obs_x k (pos 0))
          × (get_or m.obs_y k (pos 0) ≡ get_or msg.obs_y k (pos 0))
    arrives k lt =
        map_update_arrives os from to msg old n k bytes w u fits lt fd t fd' t'
          (omega (arith, few, rx)) (omega (arith, few, ry)) sent first second

-- The planner's loop, once it has received an update whose obstacles it can mark.
on_map_update-marked :
    {D : Type 0} (d : Doubles D) (goal_x goal_y : ℤ) (os : Os) (pipes : List TypedPipe)
    (indexes : PipeIndexes) (st : AStar D) (u : Log) (map' : Grid)
    → let to = get_or pipes indexes.updates_index no_pipe in
      let r = comm_recv_map_update os to st.recv_map_update u in
      (ltb_ℤ (pos 0) r.0 ≡ true)
      → let to = get_or pipes indexes.updates_index no_pipe in
        let r = comm_recv_map_update os to st.recv_map_update u in
        (mark_obstacles (pos_part r.1.obs_count) 0 r.1 st.obstacle_map ≡ some map')
        → let to = get_or pipes indexes.updates_index no_pipe in
          let r = comm_recv_map_update os to st.recv_map_update u in
          on_map_update d goal_x goal_y os pipes indexes st u
          ≡ answer_update d goal_x goal_y os pipes indexes
              (placed d goal_x goal_y os pipes indexes st r.1 map')
              r.2
unfolding on_map_update
on_map_update-marked d goal_x goal_y os pipes indexes st u map' some_bytes marked =
    if_true _ _ _ some_bytes ∙ bind_of _ _ map' _ marked refl

-- From the ranges to the planner's map: if updateMap has written a message with an obstacle, and the
-- planner's loop reads its bytes, header and obstacles, then it goes on to the acknowledgement and
-- the search in a state that has the pose of the message and a map that agrees again with the
-- mapper's counts, where the two maps agreed before, and when these return the planner has that pose
-- and that map; the pipes are set, the pose is ints and the planner's arrays have at least 16
-- entries.
pub update_delivered :
    {D : Type 0} (g : Geometry D) (d : Doubles D) (goal_x goal_y : ℤ) (os os' : Os)
    (from : TypedPipe) (pipes : List TypedPipe) (indexes : PipeIndexes) (readings : RangePoseData D)
    (st st' : Mapper) (planner : AStar D) (n : ℕ) (bytes : List ℕ) (w u : Log)
    → HasRoom st.send_msg
    → Agree st.obstacle_map planner.obstacle_map
    → update_map g os from readings st w ≡ some (st', writes from.fd_out bytes ∷ w)
    → st'.send_msg.obs_count ≡ pos n
    → 0 < n
    → IsInt st'.send_msg.pose_x
    → IsInt st'.send_msg.pose_y
    → from.fd_out ≢ 0
    → from.type ≡ map_update
    → (get_or pipes indexes.updates_index no_pipe).fd_in ≢ 0
    → (get_or pipes indexes.updates_index no_pipe).type ≡ map_update
    → 16 ≤ length planner.recv_map_update.obs_x
    → 16 ≤ length planner.recv_map_update.obs_y
    → let fd = (get_or pipes indexes.updates_index no_pipe).fd_in in
      os'.read_answer u fd 12 ≡ some (take 12 bytes)
      → let fd = (get_or pipes indexes.updates_index no_pipe).fd_in in
        os'.read_answer (reads fd 12 ∷ u) fd (8 * n) ≡ some (drop 12 bytes)
        → (v : AStar D) × (u' : Log) × (on_map_update d goal_x goal_y os' pipes indexes planner u
            ≡ answer_update d goal_x goal_y os' pipes indexes v u')
          × PlacedAt v.obstacle_map st'.send_msg.pose_x st'.send_msg.pose_y v
          × Agree st'.obstacle_map v.obstacle_map
          × OnSome
              (λ r. PlacedAt v.obstacle_map st'.send_msg.pose_x st'.send_msg.pose_y r.0)
              (on_map_update d goal_x goal_y os' pipes indexes planner u)
unfolding placed
update_delivered g d goal_x goal_y os os' from pipes indexes readings st st' planner n bytes w u
      room agree ran counted some_obs px py fd t fd' t' rx ry first second =
    let to = get_or pipes indexes.updates_index no_pipe in
    let (mid, k, map', done, count, few, marked, room', agree') =
      update_map-Agree g os from readings st w planner.obstacle_map room agree in
    let pair = some_inj _ _ (sym done ∙ ran) in
    let same : mid ≡ st' = ap (λ r. r.0) pair in
    let log : (comm_send_map_update os from mid.send_msg w).1 ≡ writes from.fd_out bytes ∷ w =
      ap (λ r. r.1) pair in
    let k_same : k ≡ n = ap pos_part (sym count ∙ ap (λ v. v.send_msg.obs_count) same ∙ counted) in
    let marked' : mark_obstacles n 0 st'.send_msg planner.obstacle_map ≡ some map' =
      subst (λ v. mark_obstacles n 0 v.send_msg planner.obstacle_map ≡ some map') same
        (subst (λ c. mark_obstacles c 0 mid.send_msg planner.obstacle_map ≡ some map') k_same
          marked) in
    let sent : (comm_send_map_update os' from st'.send_msg w).1 ≡ writes from.fd_out bytes ∷ w =
      send-same os' os from st'.send_msg w
      ∙ subst (λ v. (comm_send_map_update os from v.send_msg w).1 ≡ writes from.fd_out bytes ∷ w)
          same log in
    let r = comm_recv_map_update os' to planner.recv_map_update u in
    let got =
      received-marked os' from to st'.send_msg planner.recv_map_update n bytes w u
        planner.obstacle_map map' counted some_obs (omega (arith, few, k_same)) px py marked' fd t
        fd' t' rx ry sent first second in
    let v = placed d goal_x goal_y os' pipes indexes planner r.1 map' in
    let goes_on =
      on_map_update-marked d goal_x goal_y os' pipes indexes planner u map' got.0 got.3 in
    let at : PlacedAt map' st'.send_msg.pose_x st'.send_msg.pose_y v = (refl, got.1, got.2) in
    (
      v,
      r.2,
      goes_on,
      at,
      subst (λ a. Agree a.obstacle_map map') same agree',
      subst (OnSome (λ q. PlacedAt map' st'.send_msg.pose_x st'.send_msg.pose_y q.0)) (sym goes_on)
          (answer_update-Stays d goal_x goal_y os' pipes indexes map' st'.send_msg.pose_x
            st'.send_msg.pose_y v r.2 at),
    )
