-- ===== src/Mapping/Sorted.antt =====
-- What addNode, pop, removeNode and findNode of controllers/mapping.c do to the nodes of a list.
use mathlib.Core.Option
use pint.Common.{
  ◌≡◌, refl, inl, inr, ap, Bool, true, false, List, [], ◌∷◌, none, some, arith, if◌then◌else◌,
  Bool-cases,
}
use mathlib.Core.List.{Perm}
use mathlib.Core.List.Perm
use pint.Mapping.{Node, Chain, null, cell, node_equals, add_node, remove_node}

-- The nodes with their values, up to the first cell with no head.
unfoldable pub to_list : {S : Type 0} → Chain S → List (Node S × S)
to_list null = []
to_list (cell none val rest) = []
to_list (cell (some head) val rest) = (head, val) ∷ to_list rest

module _ {S : Type 0} (gt : S → S → Bool) where
  -- No value is greater than the next.
  unfoldable pub IsSorted : List (Node S × S) → Type 0
  IsSorted [] = Unit {0}
  IsSorted (a ∷ []) = Unit {0}
  IsSorted (a ∷ b ∷ rest) = (gt a.1 b.1 ≡ false) × IsSorted (b ∷ rest)

  -- Insertion before the first greater value.
  pub insert : Node S × S → List (Node S × S) → List (Node S × S)
  insert a [] = a ∷ []
  insert a (b ∷ rest) =
      let deeper = insert a rest in if gt b.1 a.1 then a ∷ b ∷ rest else b ∷ deeper

  insert-perm : (a : Node S × S) (l : List (Node S × S)) → Perm (insert a l) (a ∷ l)
  unfolding insert
  insert-perm a [] = Perm.refl (a ∷ [])
  insert-perm a (b ∷ rest) = elim (Bool-cases (gt b.1 a.1)) [
    | inl e ↦ rw e (Perm.refl (a ∷ b ∷ rest))
    | inr e ↦ rw e (Perm.trans (Perm.cons b (insert-perm a rest)) (Perm.swap a b rest))
  ]

  insert-IsSorted :
      ((s t : S) → gt s t ≡ true → gt t s ≡ false)
      → (a : Node S × S) (l : List (Node S × S)) → IsSorted l
      → IsSorted (insert a l)
  unfolding insert IsSorted
  insert-IsSorted asym a [] h = tt
  insert-IsSorted asym a (b ∷ []) h = ground (arith, asym b.1 a.1)
  insert-IsSorted asym a (b ∷ c ∷ rest) h =
      ground (arith, asym b.1 a.1, insert-IsSorted asym a (c ∷ rest))

-- A cell with no head ends its list.
unfoldable pub IsTidy : {S : Type 0} → Chain S → Type 0
IsTidy null = Unit {0}
IsTidy (cell none val rest) = rest ≡ null
IsTidy (cell (some head) val rest) = IsTidy rest

-- There is a cell to write to.
unfoldable pub IsCell : {S : Type 0} → Chain S → Type 0
IsCell null = ⊥
IsCell (cell head val rest) = Unit {0}

module _ {S : Type 0} (gt : S → S → Bool) where
  -- What a call of addNode has to bring.
  pub Inserted : Node S → S → Chain S → Chain S → Type 0
  Inserted node val l l' =
      (add_node gt l node val ≡ some l')
      × (to_list l' ≡ insert gt (node, val) (to_list l))
      × IsTidy l'
      × IsCell l'

  add_node-Inserted :
      (node : Node S) (val : S) (l : Chain S)
      → IsTidy l
      → IsCell l
      → (l' : Chain S) × Inserted node val l l'
  unfolding add_node to_list insert IsTidy IsCell Inserted
  add_node-Inserted node val null t c = elim c [ ]
  add_node-Inserted node val (cell none old rest) t c =
      rw t (cell (some node) val null, (refl, refl, tt, tt))
  add_node-Inserted node val (cell (some head) old null) t c = elim (Bool-cases (gt old val)) [
    | inl e ↦ (cell (some node) val (cell (some head) old null), rw e (refl, refl, tt, tt))
    | inr e ↦ (cell (some head) old (cell (some node) val null), rw e (refl, refl, tt, tt))
  ]
  add_node-Inserted node val (cell (some head) old (cell head' old' rest)) t c =
      let (deeper, h) = add_node-Inserted node val (cell head' old' rest) t tt in
      elim (Bool-cases (gt old val)) [
        | inl e ↦ (
          cell (some node) val (cell (some head) old (cell head' old' rest)),
          rw e (refl, refl, t, tt),
        )
        | inr e ↦ (
          cell (some head) old deeper,
          rw e (ap (Option.map (cell (some head) old)) h.0, ap (λ r. (head, old) ∷ r) h.1, h.2, tt),
        )
      ]

  -- addNode: called on a list whose cells with no head end it, and that has at least one cell, it
  -- does not read through NULL and leaves such a list. When `a > b` excludes `b > a` and the nodes
  -- of the list were sorted by their values, they are sorted after the call, and they are the nodes
  -- that were there and the new one.
  pub add_node-IsSorted :
      ((s t : S) → gt s t ≡ true → gt t s ≡ false)
      → (node : Node S) (val : S) (l : Chain S) → IsTidy l
      → IsCell l
      → IsSorted gt (to_list l)
      → (l' : Chain S) × (add_node gt l node val ≡ some l')
        × IsTidy l'
        × IsCell l'
        × IsSorted gt (to_list l')
        × Perm (to_list l') ((node, val) ∷ to_list l)
  unfolding Inserted
  add_node-IsSorted asym node val l t c sorted =
      let (l', h) = add_node-Inserted node val l t c in
      (
        l',
        h.0,
        h.2,
        h.3,
        rw h.1 (insert-IsSorted gt asym (node, val) (to_list l) sorted),
        rw h.1 (insert-perm gt (node, val) (to_list l)),
      )

  -- removeNode then addNode, as `command` of controllers/a_star.c calls them to give an open node a
  -- new score: when the node is the only one of the list, the second call reads through NULL.
  pub add_node-remove_node_crash :
      (node : Node S) (val new_val : S)
      → add_node gt (remove_node (cell (some node) val null) node) node new_val ≡ none
  unfolding add_node remove_node node_equals
  add_node-remove_node_crash node val new_val = ground arith
