-- ===== src/Mapping.antt =====
-- The lists of controllers/mapping.c and controllers/inc/mapping.h, in which controllers/a_star.c
-- keeps its open and closed sets, its neighbours and its path. A score is a double: the type of the
-- scores and their `>` are parameters.
pub mod Sorted
mod Tests
use pint.Common.{
  ℕ, zero, suc, ◌-◌, Bool, true, false, Option, none, some, ◌&&◌, ◌==◌, if◌then◌else◌,
}
use pint.Common.Int.{ℤ, pos_part, neg_part}
use mathlib.Core.Option

-- `struct node_t`; a back link is the number of the node it points to.
pub record Node (S : Type 0) : Type 0 where
  pub x : ℤ
  pub y : ℤ
  pub g_score : S
  pub back_link : Option ℕ

-- `struct l_list_t *`: a list may be NULL, and a cell may have no head.
pub data Chain (S : Type 0) : Type 0 where
  null : Chain S
  cell : Option (Node S) → S → Chain S → Chain S

abbrev same_int : ℤ → ℤ → Bool
same_int a b = pos_part a == pos_part b && neg_part a == neg_part b

-- newNode
unfoldable pub new_node : {S : Type 0} → ℤ → ℤ → S → Node S
new_node x y g_score = record { x = x; y = y; g_score = g_score; back_link = none }

-- nodeEqauls, for two nodes that are there.
unfoldable pub node_equals : {S : Type 0} → Node S → Node S → Bool
node_equals a b = same_int a.x b.x && same_int a.y b.y

-- nodeEqauls, for two pointers.
unfoldable pub nodes_equal : {S : Type 0} → Option (Node S) → Option (Node S) → Bool
unfolding node_equals
nodes_equal none b = false
nodes_equal (some a) none = false
nodes_equal (some a) (some b) = node_equals a b

module _ {S : Type 0} where
  unfoldable pub remove_node : Chain S → Node S → Chain S
  unfolding node_equals
  remove_node null node = null
  remove_node (cell none val rest) node = cell none val rest
  remove_node (cell (some head) val rest) node =
      if node_equals head node then rest else cell (some head) val (remove_node rest node)

  unfoldable pub find_node : Chain S → Node S → Option (Node S)
  unfolding node_equals
  find_node null node = none
  find_node (cell none val rest) node = none
  find_node (cell (some head) val rest) node =
      if node_equals node head then some head else find_node rest node

  unfoldable pub peek : Chain S → ℕ → Option (Node S)
  peek null num = none
  peek (cell none val rest) num = none
  peek (cell (some head) val rest) zero = some head
  peek (cell (some head) val rest) (suc num) = peek rest num

module _ {S : Type 0} (zero_val : S) where
  unfoldable pub new_list : Chain S
  new_list = cell none zero_val null

  unfoldable pub push : Chain S → Node S → Chain S
  push list node = cell (some node) zero_val list

  -- There is always a cell left.
  unfoldable pub or_new : Chain S → Chain S
  unfolding new_list
  or_new null = new_list
  or_new (cell head val rest) = cell head val rest

  -- `none` is a read through NULL.
  unfoldable pub pop : Chain S → Option (Option (Node S) × Chain S)
  unfolding or_new
  pop null = none
  pop (cell head val rest) = some (head, or_new rest)

  -- The loop pops until it gets NULL; `none` is a read through NULL.
  unfoldable pub erase_list : Chain S → Option (Chain S)
  unfolding new_list or_new
  erase_list null = none
  erase_list (cell none val rest) = some (or_new rest)
  erase_list (cell (some head) val null) = some new_list
  erase_list (cell (some head) val (cell head' val' rest)) = erase_list (cell head' val' rest)

module _ {S : Type 0} (gt : S → S → Bool) where
  -- `none` is a read through NULL.
  unfoldable pub add_node : Chain S → Node S → S → Option (Chain S)
  add_node null node val = none
  add_node (cell none old rest) node val = some (cell (some node) val rest)
  add_node (cell (some head) old null) node val = some (
      if gt old val
      then cell (some node) val (cell (some head) old null)
      else cell (some head) old (cell (some node) val null))
  add_node (cell (some head) old (cell head' old' rest)) node val =
      let deeper = Option.map (cell (some head) old) (add_node (cell head' old' rest) node val) in
      if gt old val
      then some (cell (some node) val (cell (some head) old (cell head' old' rest)))
      else deeper
