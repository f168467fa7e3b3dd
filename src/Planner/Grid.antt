-- ===== src/Planner/Grid.antt =====
-- `obstacle_map` of controllers/a_star.c, and genNeighbors.
use mathlib.Core.Option
use pint.Common.{
  ℕ, ◌+◌, Bool, true, false, ◌&&◌, not, List, [], ◌∷◌, Option, none, some, ltb, ◌==◌, if◌then◌else◌,
  get_or, ◌>>=◌,
}
use pint.Common.Int.{ℤ, pos, negsuc, pos_part, neg_part, is_zero, ◌+ℤ◌}
use pint.Mapping.{Node, Chain, add_node, new_list, new_node}

abbrev pub grid_num : ℕ
grid_num = 80

-- `bool obstacle_map[GRID_NUM][GRID_NUM]`, by rows.
abbrev pub Grid : Type 0
Grid = List (List Bool)

-- What the code uses of the type double: 0, +, >, the distance of two points of the grid that
-- estDistance computes, degridify of a coordinate, the constant 7.0, and the bytes in memory.
pub record Doubles (D : Type 0) : Type 0 where
  pub zero_score : D
  pub plus : D → D → D
  pub gt : D → D → Bool
  pub est_distance : ℤ → ℤ → ℤ → ℤ → D
  pub degridify : ℤ → D
  pub seven : D
  pub double_bytes : D → List ℕ

-- `none` is a read outside the array.
unfoldable pub read_map : Grid → ℤ → ℤ → Option Bool
read_map map (pos x) (pos y) =
    if ltb x grid_num && ltb y grid_num then some (get_or (get_or map x []) y false) else none
read_map map (pos x) (negsuc y) = none
read_map map (negsuc x) y = none

-- `!obstacle_map[x][y]`
unfoldable pub free_cell : Grid → ℤ → ℤ → Option Bool
unfolding read_map
free_cell map x y = Option.map not (read_map map x y)

-- `&&` and `||`, which do not look at the second operand in vain.
abbrev pub and_then : Option Bool → Option Bool → Option Bool
and_then none b = none
and_then (some false) b = some false
and_then (some true) b = b

abbrev pub or_else : Option Bool → Option Bool → Option Bool
or_else none b = none
or_else (some true) b = some true
or_else (some false) b = b

-- abs(i) + abs(j)
abbrev pub moved : ℤ → ℤ → ℕ
moved i j = pos_part i + neg_part i + pos_part j + neg_part j

-- The cell at offset (i, j) is free, and for a corner one of the two cells beside the way is.
unfoldable pub passable : Grid → ℤ → ℤ → ℤ → ℤ → Option Bool
unfolding free_cell ◌+ℤ◌
passable map x y i j =
    let n_x = x +ℤ i in
    let n_y = y +ℤ j in
    if moved i j == 2
    then and_then (free_cell map n_x n_y) (or_else (free_cell map n_x y) (free_cell map x n_y))
    else free_cell map n_x n_y

-- The two loops' values of (i, j).
abbrev pub offsets : List (ℤ × ℤ)
offsets =
    (negsuc 0, negsuc 0)
    ∷ (negsuc 0, pos 0)
    ∷ (negsuc 0, pos 1)
    ∷ (pos 0, negsuc 0)
    ∷ (pos 0, pos 0)
    ∷ (pos 0, pos 1)
    ∷ (pos 1, negsuc 0)
    ∷ (pos 1, pos 0)
    ∷ (pos 1, pos 1)
    ∷ []

module _ {D : Type 0} (d : Doubles D) where
  -- The body of the loops.
  unfoldable pub gen_one : Grid → Node D → ℤ → ℤ → Chain D → Option (Chain D)
  unfolding passable
  gen_one map node i j list =
      if is_zero i && is_zero j then some list else elim (passable map node.x node.y i j) [
        | none ↦ none
        | some true ↦
            add_node d.gt list (new_node (node.x +ℤ i) (node.y +ℤ j) d.zero_score) d.zero_score
        | some false ↦ some list
      ]

  unfoldable pub gen_all : Grid → Node D → List (ℤ × ℤ) → Chain D → Option (Chain D)
  unfolding gen_one
  gen_all map node [] list = some list
  gen_all map node ((i, j) ∷ rest) list = gen_one map node i j list >>= gen_all map node rest

  -- `none` is a read outside the map.
  unfoldable pub gen_neighbors : Grid → Node D → Option (Chain D)
  unfolding gen_all
  gen_neighbors map node = gen_all map node offsets (new_list d.zero_score)
