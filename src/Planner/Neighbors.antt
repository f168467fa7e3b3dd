-- ===== src/Planner/Neighbors.antt =====
-- What genNeighbors of controllers/a_star.c returns: nodes one step away, on the map.
use pint.Common.{
  ◌≤◌, ◌<◌, ◌≡◌, ◌≢◌, refl, inl, inr, Bool, true, false, List, [], ◌∷◌, Option, none, some, arith,
  ◌==◌, ◌&&◌, Bool-cases, Option-cases, OnSome, OnSome-bind,
}
use pint.Common.Int.{ℤ, pos, negsuc, pos_part, neg_part, is_zero, ◌+ℤ◌}
use pint.Mapping.{Node, Chain, add_node, new_list, new_node}
use pint.Planner.Grid.{
  Grid, Doubles, grid_num, read_map, free_cell, and_then, or_else, moved, passable, offsets,
  gen_one, gen_all, gen_neighbors,
}
use pint.Planner.Chains.{AllIn, add_node-AllIn}
use pint.Planner.Spots.{InGrid}

-- A read that returns is a read inside the array.
read_map-in :
    (map : Grid) (x y : ℤ) (b : Bool)
    → read_map map x y ≡ some b
    → (neg_part x ≡ 0) × (pos_part x < grid_num) × (neg_part y ≡ 0) × (pos_part y < grid_num)
unfolding read_map
read_map-in map (pos x) (pos y) b e = ground arith
read_map-in map (pos x) (negsuc y) b e = ground arith
read_map-in map (negsuc x) y b e = ground arith

free_cell-in :
    (map : Grid) (x y : ℤ) (b : Bool)
    → free_cell map x y ≡ some b
    → (neg_part x ≡ 0) × (pos_part x < grid_num) × (neg_part y ≡ 0) × (pos_part y < grid_num)
unfolding free_cell
free_cell-in map x y b e = elim (Option-cases (read_map map x y)) [
  | inl n ↦ ground (arith, n)
  | inr (c, s) ↦ read_map-in map x y c s
]

and_then-true : (a b : Option Bool) → and_then a b ≡ some true → a ≡ some true
and_then-true none b e = e
and_then-true (some false) b e = ground arith
and_then-true (some true) b e = refl

passable_free :
    (map : Grid) (x y i j : ℤ)
    → passable map x y i j ≡ some true
    → free_cell map (x +ℤ i) (y +ℤ j) ≡ some true
unfolding passable
passable_free map x y i j e = elim (Bool-cases (moved i j == 2)) [
  | inl corner ↦
      and_then-true (free_cell map (x +ℤ i) (y +ℤ j))
        (or_else (free_cell map (x +ℤ i) y) (free_cell map x (y +ℤ j))) (ground (arith, corner, e))
  | inr straight ↦ ground (arith, straight, e)
]

pub passable-InGrid :
    {D : Type 0} (map : Grid) (x y i j : ℤ) (z : D)
    → passable map x y i j ≡ some true
    → InGrid (new_node (x +ℤ i) (y +ℤ j) z)
unfolding new_node
passable-InGrid map x y i j z e =
    let h = free_cell-in map (x +ℤ i) (y +ℤ j) true (passable_free map x y i j e) in
    record { x_low = h.0; x_high = h.1; y_low = h.2; y_high = h.3 }

-- (i, j) is a step in one of the eight directions.
pub record IsStep (i j : ℤ) : Type 0 where
  pub i_high : pos_part i ≤ 1
  pub i_low : neg_part i ≤ 1
  pub j_high : pos_part j ≤ 1
  pub j_low : neg_part j ≤ 1
  pub moves : moved i j ≢ 0

abbrev Small : List (ℤ × ℤ) → Type 0
Small [] = Unit {0}
Small ((i, j) ∷ rest) =
    ((pos_part i ≤ 1) × (neg_part i ≤ 1) × (pos_part j ≤ 1) × (neg_part j ≤ 1)) × Small rest

module _ {D : Type 0} (d : Doubles D) (map : Grid) (node : Node D) (P : Node D → Type 0)
    (reached : (i j : ℤ)
      → IsStep i j
      → passable map node.x node.y i j ≡ some true
      → P (new_node (node.x +ℤ i) (node.y +ℤ j) d.zero_score)) where
  gen_one-AllIn :
      (i j : ℤ) (list : Chain D)
      → (pos_part i ≤ 1) × (neg_part i ≤ 1) × (pos_part j ≤ 1) × (neg_part j ≤ 1)
      → AllIn P list
      → OnSome (AllIn P) (gen_one d map node i j list)
  unfolding gen_one
  gen_one-AllIn i j list small h = elim (Bool-cases (is_zero i && is_zero j)) [
    | inl e ↦ rw e h
    | inr e ↦ rw e (each (passable map node.x node.y i j) refl (step i j small e))
  ]
    where
      step :
          (i j : ℤ)
          → (pos_part i ≤ 1) × (neg_part i ≤ 1) × (pos_part j ≤ 1) × (neg_part j ≤ 1)
          → (is_zero i && is_zero j) ≡ false
          → IsStep i j
      step (pos i) (pos j) s e = ground (arith, s, e)
      step (pos i) (negsuc j) s e = ground (arith, s, e)
      step (negsuc i) j s e = ground (arith, s, e)

      each :
          (o : Option Bool)
          → passable map node.x node.y i j ≡ o
          → IsStep i j
          → OnSome (AllIn P) (elim o [
            | none ↦ none
            | some true ↦
                add_node d.gt list (new_node (node.x +ℤ i) (node.y +ℤ j) d.zero_score) d.zero_score
            | some false ↦ some list
          ])
      each none e s = tt
      each (some true) e s =
          add_node-AllIn d.gt P list (new_node (node.x +ℤ i) (node.y +ℤ j) d.zero_score)
            d.zero_score (reached i j s e) h
      each (some false) e s = h

  gen_all-AllIn :
      (offs : List (ℤ × ℤ)) (list : Chain D)
      → Small offs
      → AllIn P list
      → OnSome (AllIn P) (gen_all d map node offs list)
  unfolding gen_all
  gen_all-AllIn [] list small h = h
  gen_all-AllIn ((i, j) ∷ rest) list small h =
      OnSome-bind (AllIn P) (AllIn P) (gen_one d map node i j list) (gen_all d map node rest)
        (gen_one-AllIn i j list small.0 h) (λ l k. gen_all-AllIn rest l small.1 k)

  -- What every node that one passable step leads to has, all the neighbours have.
  pub gen_neighbors-AllIn : OnSome (AllIn P) (gen_neighbors d map node)
  unfolding gen_neighbors AllIn new_list
  gen_neighbors-AllIn = gen_all-AllIn offsets (new_list d.zero_score) (omega arith) tt
