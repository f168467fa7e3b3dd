-- ===== src/Mapping/Tests.antt =====
-- The theorems about controllers/mapping.c at concrete lists, with numbers for scores.
use pint.Common.{ℕ, ◌≡◌, refl, Bool, ◌∷◌, some, none, arith, ltb}
use pint.Common.Int.{pos}
use mathlib.Core.List.{Perm}
use pint.Mapping.{Node, Chain, null, cell, add_node, remove_node}
use pint.Mapping.Sorted.{
  to_list, IsSorted, IsTidy, IsCell, add_node-IsSorted, add_node-remove_node_crash,
}

abbrev gt : ℕ → ℕ → Bool
gt a b = ltb b a

abbrev at : ℕ → Node ℕ
at n = record { x = pos n; y = pos 0; g_score = n; back_link = none }

abbrev open_set : Chain ℕ
open_set = cell (some (at 2)) 2 (cell (some (at 5)) 5 null)

add_node-IsSorted_example :
    (l : Chain ℕ) × (add_node gt open_set (at 3) 3 ≡ some l)
    × IsTidy l
    × IsCell l
    × IsSorted gt (to_list l)
    × Perm (to_list l) ((at 3, 3) ∷ to_list open_set)
unfolding to_list IsSorted IsTidy IsCell
add_node-IsSorted_example =
    add_node-IsSorted gt (λ s t e. ground (arith, e)) (at 3) 3 open_set tt tt (refl, tt)

add_node-remove_node_crash_example :
    add_node gt (remove_node (cell (some (at 2)) 2 null) (at 2)) (at 2) 1 ≡ none
add_node-remove_node_crash_example = add_node-remove_node_crash gt (at 2) 2 1
