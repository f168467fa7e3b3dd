-- ===== src/Planner/Complete.antt =====
-- genNeighbors of controllers/a_star.c finds every node that is one step away.
use pint.Common.{
  ◌≡◌, refl, subst, inl, inr, Bool, true, false, ◌&&◌, ◌==◌, List, [], ◌∷◌, Option, none, some,
  arith, if◌then◌else◌, Bool-cases, OnSome, OnSome-bind, OnSome-mono, if_inv,
}
use pint.Common.Int.{ℤ, pos, negsuc, pos_part, neg_part, is_zero, ◌+ℤ◌, eq_of_parts}
use pint.Mapping.{Node, Chain, node_equals, add_node, new_list, new_node}
use pint.Mapping.Sorted.{IsTidy}
use pint.Planner.Grid.{Grid, Doubles, passable, offsets, gen_one, gen_all, gen_neighbors}
use pint.Planner.Chains.{Differ, AllIn, add_node-AllIn_inv, add_node-IsTidy}
use pint.Planner.Neighbors.{IsStep}
use pint.Planner.Walks.{Step}

abbrev same_offset : ℤ → ℤ → ℤ → ℤ → Bool
same_offset i j k l =
    ((pos_part i == pos_part k) && (neg_part i == neg_part k))
    && ((pos_part j == pos_part l) && (neg_part j == neg_part l))

abbrev has : ℤ → ℤ → List (ℤ × ℤ) → Bool
has i j [] = false
has i j ((k, l) ∷ rest) = if same_offset i j k l then true else has i j rest

-- The loops go through all eight directions.
offsets_all : (i j : ℤ) → IsStep i j → has i j offsets ≡ true
offsets_all (pos i) (pos j) s = ground (arith, s.i_high, s.j_high)
offsets_all (pos i) (negsuc j) s = ground (arith, s.i_high, s.j_low)
offsets_all (negsuc i) (pos j) s = ground (arith, s.i_low, s.j_high)
offsets_all (negsuc i) (negsuc j) s = ground (arith, s.i_low, s.j_low)

module _ {D : Type 0} (d : Doubles D) (map : Grid) (node n : Node D) where
  -- If the step is a passable one, it does not lead to the place of n.
  MissedAt : ℤ → ℤ → Type 0
  MissedAt i j =
      (is_zero i && is_zero j) ≡ false
      → passable map node.x node.y i j ≡ some true
      → Differ n (new_node (node.x +ℤ i) (node.y +ℤ j) d.zero_score)

  missed :
      (i j : ℤ)
      → ((is_zero i && is_zero j) ≡ false
          → passable map node.x node.y i j ≡ some true
          → Differ n (new_node (node.x +ℤ i) (node.y +ℤ j) d.zero_score))
      → MissedAt i j
  unfolding MissedAt
  missed i j f = f

  Missed : List (ℤ × ℤ) → Type 0
  Missed [] = Unit {0}
  Missed ((i, j) ∷ rest) = MissedAt i j × Missed rest

  Missed-at : (offs : List (ℤ × ℤ)) (i j : ℤ) → has i j offs ≡ true → Missed offs → MissedAt i j
  unfolding Missed
  Missed-at [] i j e m = absurd (false_ne_true e)
    where
      false_ne_true : false ≡ true → ⊥
      false_ne_true e = cc
  Missed-at ((k, l) ∷ rest) i j e m = elim (Bool-cases (same_offset i j k l)) [
    | inl same ↦
        let i_same : k ≡ i = eq_of_parts k i (ground (arith, same)) in
        let j_same : l ≡ j = eq_of_parts l j (ground (arith, same)) in
        subst (λ a. MissedAt a j) i_same (subst (MissedAt k) j_same m.0)
    | inr other ↦ Missed-at rest i j (rw other at e) m.1
  ]

  gen_one-Missed :
      (i j : ℤ) (list : Chain D)
      → OnSome
          (λ l. AllIn (Differ n) l → AllIn (Differ n) list × MissedAt i j)
          (gen_one d map node i j list)
  unfolding gen_one Missed
  gen_one-Missed i j list = elim (Bool-cases (is_zero i && is_zero j)) [
    | inl e ↦ rw e (λ h. (h, missed i j (λ z p. absurd (both e z))))
    | inr e ↦ rw e (each (passable map node.x node.y i j) refl)
  ]
    where
      both : {b : Bool} → b ≡ true → b ≡ false → ⊥
      both e z = cc

      new : Node D
      new = new_node (node.x +ℤ i) (node.y +ℤ j) d.zero_score

      blocked : {o : Option Bool} → o ≡ some false → o ≡ some true → ⊥
      blocked e p = cc

      each :
          (o : Option Bool)
          → passable map node.x node.y i j ≡ o
          → OnSome
              (λ l. AllIn (Differ n) l → AllIn (Differ n) list × MissedAt i j)
              (elim o [
                | none ↦ none
                | some true ↦
                    add_node d.gt list
                      (new_node (node.x +ℤ i) (node.y +ℤ j) d.zero_score)
                      d.zero_score
                | some false ↦ some list
              ])
      each none e = tt
      each (some true) e =
          OnSome-mono (λ l. AllIn (Differ n) l → Differ n new × AllIn (Differ n) list)
            (λ l. AllIn (Differ n) l → AllIn (Differ n) list × MissedAt i j)
            (add_node d.gt list new d.zero_score)
            (add_node-AllIn_inv d.gt (Differ n) list new d.zero_score)
            (λ l r h. ((r h).1, missed i j (λ z p. (r h).0)))
      each (some false) e = λ h. (h, missed i j (λ z p. absurd (blocked e p)))

  gen_all-Missed :
      (offs : List (ℤ × ℤ)) (list : Chain D)
      → OnSome
          (λ l. AllIn (Differ n) l → AllIn (Differ n) list × Missed offs)
          (gen_all d map node offs list)
  unfolding gen_all Missed
  gen_all-Missed [] list = λ h. (h, tt)
  gen_all-Missed ((i, j) ∷ rest) list =
      OnSome-bind (λ l. AllIn (Differ n) l → AllIn (Differ n) list × MissedAt i j)
        (λ l. AllIn (Differ n) l → AllIn (Differ n) list × (MissedAt i j × Missed rest))
        (gen_one d map node i j list) (gen_all d map node rest) (gen_one-Missed i j list)
        (λ l k.
          OnSome-mono (λ o. AllIn (Differ n) o → AllIn (Differ n) l × Missed rest)
            (λ o. AllIn (Differ n) o → AllIn (Differ n) list × (MissedAt i j × Missed rest))
            (gen_all d map node rest l) (gen_all-Missed rest l)
            (λ o r h. let below = k (r h).0 in (below.0, (below.1, (r h).1))))

  Differ-not_at :
      (i j : ℤ)
      → n.x ≡ node.x +ℤ i
      → n.y ≡ node.y +ℤ j
      → Differ n (new_node (node.x +ℤ i) (node.y +ℤ j) d.zero_score)
      → ⊥
  unfolding node_equals new_node
  Differ-not_at i j ex ey e = ground (arith, rw (← ex, ← ey) at e)

  moves-not_zero : (i j : ℤ) → IsStep i j → (is_zero i && is_zero j) ≡ false
  moves-not_zero (pos i) (pos j) s = ground (arith, s.moves)
  moves-not_zero (pos i) (negsuc j) s = ground arith
  moves-not_zero (negsuc i) j s = refl

  -- A node that is one step away is among the neighbours.
  pub gen_neighbors-Complete :
      Step map node n → OnSome (λ l. AllIn (Differ n) l → ⊥) (gen_neighbors d map node)
  unfolding gen_neighbors MissedAt
  gen_neighbors-Complete step =
      OnSome-mono
        (λ l. AllIn (Differ n) l → AllIn (Differ n) (new_list d.zero_score) × Missed offsets)
        (λ l. AllIn (Differ n) l → ⊥) (gen_all d map node offsets (new_list d.zero_score))
        (gen_all-Missed offsets (new_list d.zero_score))
        (λ l r h. Differ-not_at step.i step.j step.to_x step.to_y (
          Missed-at offsets step.i step.j (offsets_all step.i step.j step.short) (r h).1
            (moves-not_zero step.i step.j step.short) step.free))

module _ {D : Type 0} (d : Doubles D) (map : Grid) (node : Node D) where
  gen_one-IsTidy :
      (i j : ℤ) (list : Chain D) → IsTidy list → OnSome IsTidy (gen_one d map node i j list)
  unfolding gen_one
  gen_one-IsTidy i j list t =
      if_inv (OnSome IsTidy) (is_zero i && is_zero j) _ _ t (each (passable map node.x node.y i j))
    where
      each :
          (o : Option Bool)
          → OnSome IsTidy (elim o [
            | none ↦ none
            | some true ↦
                add_node d.gt list (new_node (node.x +ℤ i) (node.y +ℤ j) d.zero_score) d.zero_score
            | some false ↦ some list
          ])
      each none = tt
      each (some true) =
          add_node-IsTidy d.gt list (new_node (node.x +ℤ i) (node.y +ℤ j) d.zero_score) d.zero_score
            t
      each (some false) = t

  gen_all-IsTidy :
      (offs : List (ℤ × ℤ)) (list : Chain D)
      → IsTidy list
      → OnSome IsTidy (gen_all d map node offs list)
  unfolding gen_all
  gen_all-IsTidy [] list t = t
  gen_all-IsTidy ((i, j) ∷ rest) list t =
      OnSome-bind IsTidy IsTidy (gen_one d map node i j list) (gen_all d map node rest)
        (gen_one-IsTidy i j list t) (λ l k. gen_all-IsTidy rest l k)

  pub gen_neighbors-IsTidy : OnSome IsTidy (gen_neighbors d map node)
  unfolding gen_neighbors new_list IsTidy
  gen_neighbors-IsTidy = gen_all-IsTidy offsets (new_list d.zero_score) refl
