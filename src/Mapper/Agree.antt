-- ===== src/Mapper/Agree.antt =====
-- updateMap of controllers/mapper.c and the planner's map: what the mapper counts, reports, and the
-- planner marks.
use pint.Common.{
  ℕ, suc, ◌+◌, ◌≤◌, ◌<◌, ◌≡◌, refl, sym, ap, ap₂, ◌∙◌, subst, ◌⊎◌, inl, inr, true, false, ◌&&◌,
  List, some, arith, ltb, ◌==◌, if◌then◌else◌, length, set, length-set, Bool-cases, Returns,
}
use pint.Common.Int.{pos, ◌+ℤ◌}
use pint.CommTypes.Messages.{MapUpdate}
use pint.Planner.Grid.{Grid, grid_num}
use pint.Planner.Command.{mark_obstacles}
use pint.Mapper.{Mapper, obs_thres, obs_room, report, count_obstacle}
use pint.Mapper.Squares.{Square, entry, set_entry, set_entry-Square, entry-set_entry}
use pint.Mapper.Marks.{mark_obstacles_more}

-- The planner's map has an obstacle exactly where the mapper has counted more than OBS_THRES.
pub record Agree (counts : List (List ℕ)) (map : Grid) : Type 0 where
  pub counts_square : Square grid_num counts
  pub map_square : Square grid_num map
  pub same :
      (x y : ℕ)
      → x < grid_num
      → y < grid_num
      → entry map x y false ≡ ltb obs_thres (entry counts x y 0)

-- The arrays of the message are those that main allocates.
pub record HasRoom (msg : MapUpdate) : Type 0 where
  pub room_x : length msg.obs_x ≡ obs_room
  pub room_y : length msg.obs_y ≡ obs_room

-- The message counts at most `rounds` obstacles, and marking them on the map `old` makes it agree
-- with the counts.
pub record Synced (old : Grid) (rounds : ℕ) (st : Mapper) : Type 0 where
  pub count : ℕ
  pub counted : st.send_msg.obs_count ≡ pos count
  pub few : count ≤ rounds
  pub room : HasRoom st.send_msg
  pub map : Grid
  pub marked : mark_obstacles count 0 st.send_msg old ≡ some map
  pub agree : Agree st.obstacle_map map

Agree-count :
    (counts : List (List ℕ)) (map : Grid) (x y : ℕ)
    → x < grid_num
    → y < grid_num
    → ltb obs_thres (entry counts x y 0 + 1) ≡ false
    → Agree counts map
    → Agree (set_entry counts x y (entry counts x y 0 + 1)) map
Agree-count counts map x y xl yl e h = record {
  counts_square = set_entry-Square grid_num counts x y (entry counts x y 0 + 1) xl h.counts_square;
  map_square = h.map_square;
  same = λ k l kl ll.
      h.same k l kl ll
      ∙ sym (
          ap (ltb obs_thres) (
            entry-set_entry grid_num counts x y k l (entry counts x y 0 + 1) 0 xl yl
              h.counts_square)
          ∙ by_place k l (Bool-cases ((x == k) && (y == l))));
}
  where
    by_place :
        (k l : ℕ)
        → (((x == k) && (y == l)) ≡ true) ⊎ (((x == k) && (y == l)) ≡ false)
        → ltb obs_thres
            (if (x == k) && (y == l) then entry counts x y 0 + 1 else entry counts k l 0)
          ≡ ltb obs_thres (entry counts k l 0)
    by_place k l (inl here) =
        let at : entry counts x y 0 ≡ entry counts k l 0 =
          ap₂ (λ i j. entry counts i j 0) (ground (arith, here)) (ground (arith, here)) in
        ground (arith, here, e, at)
    by_place k l (inr there) = ground (arith, there)

Agree-mark :
    (counts : List (List ℕ)) (map : Grid) (x y : ℕ)
    → x < grid_num
    → y < grid_num
    → ltb obs_thres (entry counts x y 0 + 1) ≡ true
    → Agree counts map
    → Agree (set_entry counts x y (entry counts x y 0 + 1)) (set_entry map x y true)
Agree-mark counts map x y xl yl e h = record {
  counts_square = set_entry-Square grid_num counts x y (entry counts x y 0 + 1) xl h.counts_square;
  map_square = set_entry-Square grid_num map x y true xl h.map_square;
  same = λ k l kl ll.
      entry-set_entry grid_num map x y k l true false xl yl h.map_square
      ∙ ground (
        arith,
        e,
        h.same k l kl ll,
        entry-set_entry grid_num counts x y k l (entry counts x y 0 + 1) 0 xl yl h.counts_square,
      );
}

one_more : (n : ℕ) → pos n +ℤ pos 1 ≡ pos (n + 1)
unfolding ◌+ℤ◌
one_more n = ground arith

report_lem :
    (msg : MapUpdate) (n x y : ℕ)
    → msg.obs_count ≡ pos n
    → n < obs_room
    → report msg x y
      ≡ some (record msg {
        obs_x = set msg.obs_x n (pos x);
        obs_y = set msg.obs_y n (pos y);
        obs_count = pos (n + 1);
      })
unfolding report
report_lem msg n x y e lt =
    let room : ltb n obs_room ≡ true = ground (arith, lt) in rw e (rw room (rw (one_more n) refl))

pub count_obstacle-Synced :
    (old : Grid) (rounds : ℕ) (st : Mapper) (x y : ℕ)
    → x < grid_num
    → y < grid_num
    → rounds < obs_room
    → Synced old rounds st
    → Returns (λ r. Synced old (rounds + 1) r.1) (count_obstacle st x y)
unfolding count_obstacle
count_obstacle-Synced old rounds st x y xl yl room h =
    let count = entry st.obstacle_map x y 0 in
    elim (Bool-cases (ltb obs_thres count)) [
      | inl known ↦ (
        (false, st),
        rw known refl,
        record {
          count = h.count;
          counted = h.counted;
          few = omega (arith, h.few);
          room = h.room;
          map = h.map;
          marked = h.marked;
          agree = h.agree;
        },
      )
      | inr seldom ↦ elim (Bool-cases (ltb obs_thres (count + 1))) [
        | inl enough ↦ (
          (
            true,
            record st { obstacle_map = set_entry st.obstacle_map x y (count + 1); send_msg = sent },
          ),
          rw seldom (
              rw enough
                (rw (report_lem st.send_msg h.count x y h.counted (omega (arith, h.few))) refl)),
          record {
            count = h.count + 1;
            counted = refl;
            few = omega (arith, h.few);
            room = record {
              room_x = length-set st.send_msg.obs_x h.count (pos x) ∙ h.room.room_x;
              room_y = length-set st.send_msg.obs_y h.count (pos y) ∙ h.room.room_y;
            };
            map = set_entry h.map x y true;
            marked =
                subst (λ k. mark_obstacles k 0 sent old ≡ some (set_entry h.map x y true)) one_up
                  (mark_obstacles_more h.count x y st.send_msg sent old h.map refl refl
                    (omega (arith, h.few, h.room.room_x)) (omega (arith, h.few, h.room.room_y)) xl
                    yl h.marked);
            agree = Agree-mark st.obstacle_map h.map x y xl yl enough h.agree;
          },
        )
        | inr few ↦ (
          (true, record st { obstacle_map = set_entry st.obstacle_map x y (count + 1) }),
          rw seldom (rw few refl),
          record {
            count = h.count;
            counted = h.counted;
            few = omega (arith, h.few);
            room = h.room;
            map = h.map;
            marked = h.marked;
            agree = Agree-count st.obstacle_map h.map x y xl yl few h.agree;
          },
        )
      ]
    ]
  where
    sent : MapUpdate
    sent = record st.send_msg {
      obs_x = set st.send_msg.obs_x h.count (pos x);
      obs_y = set st.send_msg.obs_y h.count (pos y);
      obs_count = pos (h.count + 1);
    }

    one_up : suc h.count ≡ h.count + 1
    one_up = omega arith
