-- ===== src/Planner/Chains.antt =====
-- What the lists of controllers/mapping.c keep: a property of all their nodes, and that no two of
-- them are at one place.
use mathlib.Core.Option
use pint.Common.{
  ◌≡◌, refl, inl, inr, Bool, true, false, Option, none, some, arith, Bool-cases, OnSome,
}
use pint.Mapping.{Node, Chain, null, cell, node_equals, add_node, remove_node, find_node, or_new}
use pint.Mapping.Sorted.{IsTidy, IsCell}

-- Two nodes at different places.
abbrev pub Differ : {S : Type 0} → Node S → Node S → Type 0
Differ a b = node_equals a b ≡ false

unfoldable pub AllIn : {S : Type 0} → (Node S → Type 0) → Chain S → Type 0
AllIn P null = Unit {0}
AllIn P (cell none val rest) = AllIn P rest
AllIn P (cell (some head) val rest) = P head × AllIn P rest

unfoldable pub DistinctIn : {S : Type 0} → Chain S → Type 0
unfolding AllIn
DistinctIn null = Unit {0}
DistinctIn (cell none val rest) = DistinctIn rest
DistinctIn (cell (some head) val rest) = AllIn (Differ head) rest × DistinctIn rest

module _ {S : Type 0} where
  pub Differ-symm : (a b : Node S) → Differ a b → Differ b a
  unfolding node_equals
  Differ-symm a b h = ground arith

  Differ-same : (a b c : Node S) → node_equals a b ≡ true → Differ a c → Differ b c
  unfolding node_equals
  Differ-same a b c e h = ground arith

  pub AllIn-map :
      (P Q : Node S → Type 0) (l : Chain S) → ((n : Node S) → P n → Q n) → AllIn P l → AllIn Q l
  unfolding AllIn
  AllIn-map P Q null f h = tt
  AllIn-map P Q (cell none val rest) f h = AllIn-map P Q rest f h
  AllIn-map P Q (cell (some head) val rest) f h = (f head h.0, AllIn-map P Q rest f h.1)

  pub remove_node-AllIn :
      (P : Node S → Type 0) (l : Chain S) (n : Node S) → AllIn P l → AllIn P (remove_node l n)
  unfolding AllIn remove_node
  remove_node-AllIn P null n h = tt
  remove_node-AllIn P (cell none val rest) n h = h
  remove_node-AllIn P (cell (some head) val rest) n h = elim (Bool-cases (node_equals head n)) [
    | inl e ↦ rw e h.1
    | inr e ↦ rw e (h.0, remove_node-AllIn P rest n h.1)
  ]

  pub remove_node-DistinctIn :
      (l : Chain S) (n : Node S) → DistinctIn l → DistinctIn (remove_node l n)
  unfolding DistinctIn remove_node
  remove_node-DistinctIn null n h = tt
  remove_node-DistinctIn (cell none val rest) n h = h
  remove_node-DistinctIn (cell (some head) val rest) n h = elim (Bool-cases (node_equals head n)) [
    | inl e ↦ rw e h.1
    | inr e ↦ rw e (remove_node-AllIn (Differ head) rest n h.0, remove_node-DistinctIn rest n h.1)
  ]

  pub remove_node-IsTidy : (l : Chain S) (n : Node S) → IsTidy l → IsTidy (remove_node l n)
  unfolding IsTidy remove_node
  remove_node-IsTidy null n h = tt
  remove_node-IsTidy (cell none val rest) n h = h
  remove_node-IsTidy (cell (some head) val rest) n h = elim (Bool-cases (node_equals head n)) [
    | inl e ↦ rw e h
    | inr e ↦ rw e (remove_node-IsTidy rest n h)
  ]

  -- After removeNode no node of the list is at the place.
  pub remove_node-Differ :
      (l : Chain S) (n : Node S) → IsTidy l → DistinctIn l → AllIn (Differ n) (remove_node l n)
  unfolding IsTidy DistinctIn AllIn remove_node
  remove_node-Differ null n t h = tt
  remove_node-Differ (cell none val rest) n t h = rw t tt
  remove_node-Differ (cell (some head) val rest) n t h = elim (Bool-cases (node_equals head n)) [
    | inl e ↦ rw e (AllIn-map (Differ head) (Differ n) rest (λ c k. Differ-same head n c e k) h.0)
    | inr e ↦ rw e (Differ-symm head n e, remove_node-Differ rest n t h.1)
  ]

  -- findNode looks at every node.
  pub find_node-Differ :
      (l : Chain S) (n : Node S) → IsTidy l → find_node l n ≡ none → AllIn (Differ n) l
  unfolding IsTidy AllIn find_node
  find_node-Differ null n t e = tt
  find_node-Differ (cell none val rest) n t e = rw t tt
  find_node-Differ (cell (some head) val rest) n t e = elim (Bool-cases (node_equals n head)) [
    | inl same ↦ ground (arith, same)
    | inr differ ↦ (differ, find_node-Differ rest n t (ground (arith, differ)))
  ]

  OnSome-map :
      (P Q : Chain S → Type 0) (f : Chain S → Chain S) (o : Option (Chain S))
      → ((l : Chain S) → P l → Q (f l))
      → OnSome P o
      → OnSome Q (Option.map f o)
  OnSome-map P Q f none k h = tt
  OnSome-map P Q f (some l) k h = k l h

  module _ (gt : S → S → Bool) where
    pub add_node-AllIn :
        (P : Node S → Type 0) (l : Chain S) (n : Node S) (val : S)
        → P n
        → AllIn P l
        → OnSome (AllIn P) (add_node gt l n val)
    unfolding AllIn add_node
    add_node-AllIn P null n val p h = tt
    add_node-AllIn P (cell none old rest) n val p h = (p, h)
    add_node-AllIn P (cell (some head) old null) n val p h = elim (Bool-cases (gt old val)) [
      | inl e ↦ rw e (p, h)
      | inr e ↦ rw e (h.0, (p, tt))
    ]
    add_node-AllIn P (cell (some head) old (cell head' old' rest)) n val p h =
        elim (Bool-cases (gt old val)) [
          | inl e ↦ rw e (p, h)
          | inr e ↦ rw e (
              OnSome-map (AllIn P) (AllIn P) (cell (some head) old)
                (add_node gt (cell head' old' rest) n val) (λ l k. (h.0, k))
                (add_node-AllIn P (cell head' old' rest) n val p h.1))
        ]

    -- What all nodes have after addNode, the new one and the old ones have.
    pub add_node-AllIn_inv :
        (P : Node S → Type 0) (l : Chain S) (n : Node S) (val : S)
        → OnSome (λ l'. AllIn P l' → P n × AllIn P l) (add_node gt l n val)
    unfolding AllIn add_node
    add_node-AllIn_inv P null n val = tt
    add_node-AllIn_inv P (cell none old rest) n val = λ k. k
    add_node-AllIn_inv P (cell (some head) old null) n val = elim (Bool-cases (gt old val)) [
      | inl e ↦ rw e (λ k. k)
      | inr e ↦ rw e (λ k. (k.1.0, (k.0, tt)))
    ]
    add_node-AllIn_inv P (cell (some head) old (cell head' old' rest)) n val =
        elim (Bool-cases (gt old val)) [
          | inl e ↦ rw e (λ k. k)
          | inr e ↦ rw e (
              OnSome-map (λ l'. AllIn P l' → P n × AllIn P (cell head' old' rest))
                (λ l'. AllIn P l' → P n × AllIn P (cell (some head) old (cell head' old' rest)))
                (cell (some head) old) (add_node gt (cell head' old' rest) n val)
                (λ l f k. let r = f k.1 in (r.0, (k.0, r.1)))
                (add_node-AllIn_inv P (cell head' old' rest) n val))
        ]

    pub add_node-DistinctIn :
        (l : Chain S) (n : Node S) (val : S)
        → AllIn (Differ n) l
        → DistinctIn l
        → OnSome DistinctIn (add_node gt l n val)
    unfolding AllIn DistinctIn add_node
    add_node-DistinctIn null n val a h = tt
    add_node-DistinctIn (cell none old rest) n val a h = (a, h)
    add_node-DistinctIn (cell (some head) old null) n val a h = elim (Bool-cases (gt old val)) [
      | inl e ↦ rw e (a, h)
      | inr e ↦ rw e ((Differ-symm n head a.0, tt), (tt, tt))
    ]
    add_node-DistinctIn (cell (some head) old (cell head' old' rest)) n val a h =
        elim (Bool-cases (gt old val)) [
          | inl e ↦ rw e (a, h)
          | inr e ↦ rw e (
              deeper (add_node gt (cell head' old' rest) n val)
                (add_node-AllIn (Differ head) (cell head' old' rest) n val (Differ-symm n head a.0)
                  h.0)
                (add_node-DistinctIn (cell head' old' rest) n val a.1 h.1))
        ]
      where
        deeper :
            (o : Option (Chain S))
            → OnSome (AllIn (Differ head)) o
            → OnSome DistinctIn o
            → OnSome DistinctIn (Option.map (cell (some head) old) o)
        deeper none p q = tt
        deeper (some l) p q = (p, q)

    pub add_node-IsTidy :
        (l : Chain S) (n : Node S) (val : S) → IsTidy l → OnSome IsTidy (add_node gt l n val)
    unfolding IsTidy add_node
    add_node-IsTidy null n val h = tt
    add_node-IsTidy (cell none old rest) n val h = rw h tt
    add_node-IsTidy (cell (some head) old null) n val h = elim (Bool-cases (gt old val)) [
      | inl e ↦ rw e tt
      | inr e ↦ rw e tt
    ]
    add_node-IsTidy (cell (some head) old (cell head' old' rest)) n val h =
        elim (Bool-cases (gt old val)) [
          | inl e ↦ rw e h
          | inr e ↦ rw e (
              OnSome-map IsTidy IsTidy (cell (some head) old)
                (add_node gt (cell head' old' rest) n val) (λ l k. k)
                (add_node-IsTidy (cell head' old' rest) n val h))
        ]

    -- The list that addNode leaves has a node.
    add_node-IsCell : (l : Chain S) (n : Node S) (val : S) → OnSome IsCell (add_node gt l n val)
    unfolding IsCell add_node
    add_node-IsCell null n val = tt
    add_node-IsCell (cell none old rest) n val = tt
    add_node-IsCell (cell (some head) old null) n val = elim (Bool-cases (gt old val)) [
      | inl e ↦ rw e tt
      | inr e ↦ rw e tt
    ]
    add_node-IsCell (cell (some head) old (cell head' old' rest)) n val =
        elim (Bool-cases (gt old val)) [
          | inl e ↦ rw e tt
          | inr e ↦ rw e (
              OnSome-map IsCell IsCell (cell (some head) old)
                (add_node gt (cell head' old' rest) n val) (λ l k. tt)
                (add_node-IsCell (cell head' old' rest) n val))
        ]

  module _ (zero_val : S) where
    pub or_new-AllIn : (P : Node S → Type 0) (l : Chain S) → AllIn P l → AllIn P (or_new zero_val l)
    unfolding AllIn or_new
    or_new-AllIn P null h = tt
    or_new-AllIn P (cell head val rest) h = h

    pub or_new-DistinctIn : (l : Chain S) → DistinctIn l → DistinctIn (or_new zero_val l)
    unfolding DistinctIn or_new
    or_new-DistinctIn null h = tt
    or_new-DistinctIn (cell head val rest) h = h

    pub or_new-IsTidy : (l : Chain S) → IsTidy l → IsTidy (or_new zero_val l)
    unfolding IsTidy or_new
    or_new-IsTidy null h = refl
    or_new-IsTidy (cell head val rest) h = h
