-- ===== src/Plumber/Lookup.antt =====
-- add_node and get_node of plumber/plumbing.c: a table of components by name.
use Prim.Native.String.{String}
use text.Mathlib.Text.{◌==◌ as str_eq}
use text.Mathlib.TextEquality.{eq_iff}
use pint.Common.{
  ℕ, suc, ◌≡◌, ◌≢◌, refl, ap, Bool, true, false, List, [], ◌∷◌, Option, none, some, arith,
  if◌then◌else◌, Bool-cases, inl, inr, length,
}
use mathlib.Core.Option
use pint.VoteBuff.{Replication}
use pint.Plumber.{Component, new_node, add_node, get_node, component_at}

same_name : (s : String) → str_eq s s ≡ true
same_name s = (eq_iff s s).1 refl

none_of_map : (o : Option ℕ) → Option.map suc o ≡ none → o ≡ none
none_of_map none e = refl
none_of_map (some n) e = ground arith

some_of_map : (o : Option ℕ) (n : ℕ) → Option.map suc o ≡ some n → (m : ℕ) × (o ≡ some m)
some_of_map none n e = ground arith
some_of_map (some m) n e = (m, refl)

other_name : (s t : String) → s ≢ t → str_eq s t ≡ false
other_name s t ne = elim (Bool-cases (str_eq s t)) [
  | inl e ↦ absurd (ne ((eq_iff s t).0 e))
  | inr e ↦ e
]

module _ (name value : String) (rep_type : Replication)
    (voter_name voter_timer priority : String) where
  abbrev added : List Component → Bool × List Component
  added nodes = add_node nodes name value rep_type voter_name voter_timer priority

  abbrev node : Component
  node = new_node name value rep_type voter_name voter_timer priority

  -- add_node of a name that get_node does not find succeeds: get_node then finds the name, at the
  -- end of the list, where the new node stands, and every other name where it found it before.
  add_node_new :
      (nodes : List Component) (other : String)
      → get_node nodes name ≡ none
      → other ≢ name
      → let (ok, nodes') = added nodes in
        (ok ≡ true)
        × (get_node nodes' name ≡ some (length nodes))
        × (component_at nodes' (length nodes) ≡ node)
        × (get_node nodes' other ≡ get_node nodes other)
  unfolding add_node get_node
  add_node_new [] other missing ne =
      rw (same_name name, other_name other name ne) (refl, refl, refl, refl)
  add_node_new (current ∷ next) other missing ne = elim (Bool-cases (str_eq name current.name)) [
    | inl e ↦ ground arith
    | inr e ↦
        let m : get_node next name ≡ none = none_of_map (get_node next name) (ground arith) in
        let ih = add_node_new next other m ne in
        rw e (
          ih.0,
          rw e (ap (Option.map suc) ih.1),
          ih.2,
          ap (λ o. if str_eq other current.name then some 0 else Option.map suc o) ih.3,
        )
  ]

  -- add_node of a name that get_node finds fails and leaves the list as it was.
  add_node_known :
      (nodes : List Component) (place : ℕ)
      → get_node nodes name ≡ some place
      → added nodes ≡ (false, nodes)
  unfolding add_node get_node
  add_node_known [] place found = ground arith
  add_node_known (current ∷ next) place found = elim (Bool-cases (str_eq name current.name)) [
    | inl e ↦ rw e refl
    | inr e ↦
        let (deeper, there) = some_of_map (get_node next name) place (ground arith) in
        rw (e, add_node_known next deeper there) refl
  ]
