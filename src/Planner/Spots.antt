-- ===== src/Planner/Spots.antt =====
-- Places on the map of controllers/a_star.c as numbers, and how many different ones there are.
use pint.Common.{
  ℕ, zero, suc, ◌+◌, ◌*◌, ◌≤◌, ◌<◌, ◌≡◌, ◌≢◌, refl, sym, subst, inl, inr, List, [], ◌∷◌, ◌++◌,
  arith, ◌==◌, if◌then◌else◌, Bool-cases, length,
}
use pint.Common.Int.{pos_part, neg_part}
use pint.Mapping.{Node, node_equals}
use pint.Planner.Grid.{grid_num}
use pint.Planner.Chains.{Differ}

pub record InGrid {D : Type 0} (n : Node D) : Type 0 where
  pub x_low : neg_part n.x ≡ 0
  pub x_high : pos_part n.x < grid_num
  pub y_low : neg_part n.y ≡ 0
  pub y_high : pos_part n.y < grid_num

abbrev pub spot : {D : Type 0} → Node D → ℕ
spot n = pos_part n.x * grid_num + pos_part n.y

abbrev pub spots : {D : Type 0} → List (Node D) → List ℕ
spots [] = []
spots (n ∷ l) = spot n ∷ spots l

abbrev pub Fresh : ℕ → List ℕ → Type 0
Fresh a [] = Unit {0}
Fresh a (b ∷ l) = (a ≢ b) × Fresh a l

abbrev pub Distinct : List ℕ → Type 0
Distinct [] = Unit {0}
Distinct (a ∷ l) = Fresh a l × Distinct l

abbrev pub Below : ℕ → List ℕ → Type 0
Below n [] = Unit {0}
Below n (a ∷ l) = (a < n) × Below n l

pub spot-ne : {D : Type 0} (a b : Node D) → InGrid a → InGrid b → Differ a b → spot a ≢ spot b
unfolding node_equals
spot-ne a b ga gb h = λ e. ground (arith, e)

pub spot-lt : {D : Type 0} (n : Node D) → InGrid n → spot n < grid_num * grid_num
spot-lt n g = omega (arith, g)

pub spots-append :
    {D : Type 0} (l : List (Node D)) (n : Node D) → spots (l ++ (n ∷ [])) ≡ spots l ++ (spot n ∷ [])
spots-append [] n = refl
spots-append (a ∷ l) n = λ i. spot a ∷ spots-append l n i

pub Fresh-append : (a b : ℕ) (l : List ℕ) → a ≢ b → Fresh a l → Fresh a (l ++ (b ∷ []))
Fresh-append a b [] ne h = (ne, tt)
Fresh-append a b (c ∷ l) ne h = (h.0, Fresh-append a b l ne h.1)

pub Distinct-append : (b : ℕ) (l : List ℕ) → Fresh b l → Distinct l → Distinct (l ++ (b ∷ []))
Distinct-append b [] f h = (tt, tt)
Distinct-append b (c ∷ l) f h =
    (Fresh-append c b l (λ e. f.0 (sym e)) h.0, Distinct-append b l f.1 h.1)

pub Below-append : (n b : ℕ) (l : List ℕ) → b < n → Below n l → Below n (l ++ (b ∷ []))
Below-append n b [] lt h = (lt, tt)
Below-append n b (c ∷ l) lt h = (h.0, Below-append n b l lt h.1)

without : ℕ → List ℕ → List ℕ
without a [] = []
without a (b ∷ l) = if a == b then without a l else b ∷ without a l

without-Fresh : (a b : ℕ) (l : List ℕ) → Fresh b l → Fresh b (without a l)
unfolding without
without-Fresh a b [] h = tt
without-Fresh a b (c ∷ l) h = elim (Bool-cases (a == c)) [
  | inl e ↦ rw e (without-Fresh a b l h.1)
  | inr e ↦ rw e (h.0, without-Fresh a b l h.1)
]

without-Distinct : (a : ℕ) (l : List ℕ) → Distinct l → Distinct (without a l)
unfolding without
without-Distinct a [] h = tt
without-Distinct a (c ∷ l) h = elim (Bool-cases (a == c)) [
  | inl e ↦ rw e (without-Distinct a l h.1)
  | inr e ↦ rw e (without-Fresh a c l h.0, without-Distinct a l h.1)
]

without-Below : (n : ℕ) (l : List ℕ) → Below (suc n) l → Below n (without n l)
unfolding without
without-Below n [] h = tt
without-Below n (c ∷ l) h = elim (Bool-cases (n == c)) [
  | inl e ↦ rw e (without-Below n l h.1)
  | inr e ↦ rw e (ground (arith, e, h.0), without-Below n l h.1)
]

without-absent : (a : ℕ) (l : List ℕ) → Fresh a l → without a l ≡ l
unfolding without
without-absent a [] h = refl
without-absent a (c ∷ l) h = ground (arith, h.0, without-absent a l h.1)

length-without : (a : ℕ) (l : List ℕ) → Distinct l → length l ≤ suc (length (without a l))
unfolding without
length-without a [] h = omega arith
length-without a (c ∷ l) h = elim (Bool-cases (a == c)) [
  | inl e ↦
      let same : a ≡ c = ground (arith, e) in
      rw (e, without-absent a l (subst (λ x. Fresh x l) (sym same) h.0)) (omega arith)
  | inr e ↦ rw e (omega (arith, length-without a l h.1))
]

-- There are no more than n different numbers below n.
pub length-Distinct : (n : ℕ) (l : List ℕ) → Distinct l → Below n l → length l ≤ n
length-Distinct zero [] d b = omega arith
length-Distinct zero (a ∷ l) d b = absurd (omega (arith, b.0))
length-Distinct (suc n) l d b = omega (
  arith,
  length-without n l d,
  length-Distinct n (without n l) (without-Distinct n l d) (without-Below n l b),
)

pub length-spots : {D : Type 0} (l : List (Node D)) → length (spots l) ≡ length l
length-spots [] = refl
length-spots (n ∷ l) = omega (arith, length-spots l)
