-- ===== src/Mapper/Marks.antt =====
-- The loop of controllers/a_star.c that marks the obstacles of an update, when one more is reported.
use pint.Common.{
  ℕ, zero, suc, ◌+◌, ◌<◌, ◌≡◌, refl, ap, ◌∙◌, true, Option, none, some, arith, length, get_or, set,
  get_or-set_self, get_or-set_ne, ap₂, bind_of, ◌>>=◌,
}
use pint.Common.Int.{pos}
use pint.CommTypes.Messages.{MapUpdate}
use pint.Planner.Grid.{Grid, grid_num}
use pint.Planner.Command.{mark_obstacles, write_map}
use pint.Mapper.Squares.{set_entry}

bind_cong :
    {A B : Type 0} (o : Option A) (f g : A → Option B)
    → ((a : A) → f a ≡ g a)
    → (o >>= f) ≡ (o >>= g)
bind_cong none f g h = refl
bind_cong (some a) f g h = h a

bind_some : {A : Type 0} (o : Option A) → (o >>= λ a. some a) ≡ o
bind_some none = refl
bind_some (some a) = refl

bind_assoc :
    {A B C : Type 0} (o : Option A) (f : A → Option B) (g : B → Option C)
    → (o >>= λ a. f a >>= g) ≡ (o >>= f >>= g)
bind_assoc none f g = refl
bind_assoc (some a) f g = refl

-- Only the obstacles that are counted matter.
pub mark_obstacles_same :
    (n i : ℕ) (msg msg' : MapUpdate) (map : Grid)
    → ((k : ℕ)
        → k < i + n
        → (get_or msg.obs_x k (pos 0) ≡ get_or msg'.obs_x k (pos 0))
          × (get_or msg.obs_y k (pos 0) ≡ get_or msg'.obs_y k (pos 0)))
    → mark_obstacles n i msg map ≡ mark_obstacles n i msg' map
unfolding mark_obstacles
mark_obstacles_same zero i msg msg' map h = refl
mark_obstacles_same (suc n) i msg msg' map h =
    ap₂ (λ x y. write_map map x y >>= mark_obstacles n (i + 1) msg) (h i (omega arith)).0
      (h i (omega arith)).1
    ∙ bind_cong (write_map map (get_or msg'.obs_x i (pos 0)) (get_or msg'.obs_y i (pos 0)))
        (mark_obstacles n (i + 1) msg) (mark_obstacles n (i + 1) msg')
        (λ m. mark_obstacles_same n (i + 1) msg msg' m (λ k lt. h k (omega arith)))

-- The last obstacle is marked on the map that the others leave.
mark_obstacles_last :
    (n i j : ℕ) (msg : MapUpdate) (map : Grid)
    → i + n ≡ j
    → mark_obstacles (suc n) i msg map ≡ (
        mark_obstacles n i msg map >>= λ m.
        write_map m (get_or msg.obs_x j (pos 0)) (get_or msg.obs_y j (pos 0)))
unfolding mark_obstacles
mark_obstacles_last zero i j msg map e =
    let same : i ≡ j = omega arith in
    bind_some (write_map map (get_or msg.obs_x i (pos 0)) (get_or msg.obs_y i (pos 0)))
    ∙ ap (λ k. write_map map (get_or msg.obs_x k (pos 0)) (get_or msg.obs_y k (pos 0))) same
mark_obstacles_last (suc n) i j msg map e =
    let first = write_map map (get_or msg.obs_x i (pos 0)) (get_or msg.obs_y i (pos 0)) in
    let last : Grid → Option Grid =
      λ m. write_map m (get_or msg.obs_x j (pos 0)) (get_or msg.obs_y j (pos 0)) in
    bind_cong first (mark_obstacles (suc n) (i + 1) msg)
      (λ m. mark_obstacles n (i + 1) msg m >>= last)
      (λ m. mark_obstacles_last n (i + 1) j msg m (omega arith))
    ∙ bind_assoc first (mark_obstacles n (i + 1) msg) last

-- One more obstacle, stored behind the others, is one more mark.
pub mark_obstacles_more :
    (n x y : ℕ) (msg msg' : MapUpdate) (map map' : Grid)
    → msg'.obs_x ≡ set msg.obs_x n (pos x)
    → msg'.obs_y ≡ set msg.obs_y n (pos y)
    → n < length msg.obs_x
    → n < length msg.obs_y
    → x < grid_num
    → y < grid_num
    → mark_obstacles n 0 msg map ≡ some map'
    → mark_obstacles (suc n) 0 msg' map ≡ some (set_entry map' x y true)
unfolding write_map
mark_obstacles_more n x y msg msg' map map' on_x on_y room_x room_y xl yl marked =
    let before = mark_obstacles_same n 0 msg' msg map old ∙ marked in
    mark_obstacles_last n 0 n msg' map (omega arith)
    ∙ bind_of (mark_obstacles n 0 msg' map) _ map' (some (set_entry map' x y true)) before
        (ap₂ (write_map map') here_x here_y ∙ ground (arith, xl, yl))
  where
    old :
        (k : ℕ)
        → k < 0 + n
        → (get_or msg'.obs_x k (pos 0) ≡ get_or msg.obs_x k (pos 0))
          × (get_or msg'.obs_y k (pos 0) ≡ get_or msg.obs_y k (pos 0))
    old k lt = (
      ap (λ l. get_or l k (pos 0)) on_x ∙ get_or-set_ne msg.obs_x n k (pos x) (pos 0) (omega arith),
      ap (λ l. get_or l k (pos 0)) on_y ∙ get_or-set_ne msg.obs_y n k (pos y) (pos 0) (omega arith),
    )

    here_x : get_or msg'.obs_x n (pos 0) ≡ pos x
    here_x = ap (λ l. get_or l n (pos 0)) on_x ∙ get_or-set_self msg.obs_x n (pos x) (pos 0) room_x

    here_y : get_or msg'.obs_y n (pos 0) ≡ pos y
    here_y = ap (λ l. get_or l n (pos 0)) on_y ∙ get_or-set_self msg.obs_y n (pos y) (pos 0) room_y
