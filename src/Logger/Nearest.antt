-- ===== src/Logger/Nearest.antt =====
-- The smallest range in controllers/logger.c.
use pint.Common.{
  ℕ, ◌+◌, ◌<◌, ◌≡◌, ◌⊎◌, inl, inr, refl, true, false, List, arith, get_or, for_up_inv, Bool-cases,
}
use native.Mathlib.Decide.{ℕ_discrete}
use pint.CommTypes.Fixed.{ranger_count}
use pint.Logger.{Doubles, nearer, min_range}

module _ {D : Type 0} (d : Doubles D) (irreflexive : (a : D) → d.lt a a ≡ false)
    (transitive : (a b c : D) → d.lt a b ≡ true → d.lt b c ≡ true → d.lt a c ≡ true)
    (ranges : List D) where
  abbrev range_at : ℕ → D
  range_at i = get_or ranges i d.zero_d

  -- What the loop has found after n rounds.
  record Nearest (n : ℕ) (m : D) : Type 0 where
    below_none : (i : ℕ) → i < n → d.lt (range_at i) m ≡ false
    capped : d.lt d.thousand m ≡ false
    is_one : (m ≡ d.thousand) ⊎ ((i : ℕ) × (i < n) × (m ≡ range_at i))

  not_below : (a b m : D) → d.lt b m ≡ true → d.lt a m ≡ false → d.lt a b ≡ false
  not_below a b m lower above = elim (Bool-cases (d.lt a b)) [
    | inl e ↦ let k : true ≡ false = rw (transitive a b m e lower) at above in cc
    | inr e ↦ e
  ]

  nearer-Nearest : (i : ℕ) (m : D) → Nearest i m → Nearest (i + 1) (nearer d ranges i m)
  unfolding nearer
  nearer-Nearest i m h = elim (Bool-cases (d.lt (range_at i) m)) [
    | inl e ↦ rw e (record {
      below_none = λ j lt. elim (ℕ_discrete j i) [
        | yes same ↦ rw same (irreflexive (range_at i))
        | no ne ↦ not_below (range_at j) (range_at i) m e (h.below_none j (omega arith))
      ];
      capped = not_below d.thousand (range_at i) m e h.capped;
      is_one = inr (i, omega arith, refl);
    })
    | inr e ↦ rw e (record {
      below_none = λ j lt. elim (ℕ_discrete j i) [
        | yes same ↦ rw same e
        | no ne ↦ h.below_none j (omega arith)
      ];
      capped = h.capped;
      is_one = elim h.is_one [ inl top ↦ inl top | inr (j, lt, at) ↦ inr (j, omega arith, at) ];
    })
  ]

  -- The minimum that the logger writes is 1000 or one of the 16 ranges, and none of them, nor 1000,
  -- is less than it; < on doubles being irreflexive and transitive.
  min_range_lem :
      ((i : ℕ) → i < 16 → d.lt (get_or ranges i d.zero_d) (min_range d ranges) ≡ false)
      × (d.lt d.thousand (min_range d ranges) ≡ false)
      × ((min_range d ranges ≡ d.thousand)
          ⊎ ((i : ℕ) × (i < 16) × (min_range d ranges ≡ get_or ranges i d.zero_d)))
  unfolding min_range
  min_range_lem =
      let h : Nearest 16 (min_range d ranges) =
        for_up_inv Nearest (nearer d ranges) ranger_count 0 16 d.thousand (omega arith)
          (λ i m lt h. nearer-Nearest i m h)
          (record {
            below_none = λ i lt. absurd (omega arith);
            capped = irreflexive d.thousand;
            is_one = inl refl;
          }) in
      (h.below_none, h.capped, h.is_one)
