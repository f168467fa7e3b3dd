-- ===== src/Replicas/Order.antt =====
-- Whom balanceReps of src/replicas.c puts first, and whom it puts second.
use pint.Common.{ℕ, zero, suc, ◌+◌, ◌≤◌, ◌<◌, ◌≡◌, ◌≢◌, refl, ◌⊎◌, inl, arith, for_up, for_up_inv}
use pint.Common.Int.{ℤ, pos, ◌≤ℤ◌, ◌<ℤ◌, ◌+ℤ◌}
use native.Mathlib.Decide.{ℕ_discrete}
use pint.Replicas.Balance.{Order, order_step, pick_order, priority_for}

-- The replica that starts has the largest gap of those below i, and is the first of these.
record Leads (gap : ℕ → ℤ) (i : ℕ) (o : Order) : Type 0 where
  in_range : (o.starting ≡ 0) ⊎ (o.starting < i)
  largest : (r : ℕ) → r < i → gap r ≤ℤ gap o.starting

order_step-Leads :
    (gap : ℕ → ℤ) (i : ℕ) (o : Order) → Leads gap i o → Leads gap (i + 1) (order_step gap i o)
unfolding order_step
order_step-Leads gap i o h = record {
  in_range = ground (arith, h.in_range);
  largest = λ r lt. elim (ℕ_discrete r i) [
    | yes e ↦ rw e (ground arith)
    | no ne ↦ ground (arith, h.largest r)
  ];
}

-- balanceReps puts a replica with the largest gap first: it gets two above the default priority.
pub pick_order-starting :
    (gap : ℕ → ℤ) (num : ℕ) (default_priority : ℤ) (r : ℕ)
    → r < num
    → let o = pick_order gap num in
      (o.starting < num)
      × (gap r ≤ℤ gap o.starting)
      × (priority_for o default_priority o.starting ≡ default_priority +ℤ pos 2)
unfolding pick_order priority_for
pick_order-starting gap num default_priority r lt =
    let l : Leads gap num (pick_order gap num) =
      for_up_inv (Leads gap) (order_step gap) num 0 num _ (omega arith)
        (λ i o _ h. order_step-Leads gap i o h)
        (record { in_range = inl refl; largest = λ j none_yet. absurd (omega arith) }) in
    (omega (arith, l.in_range), l.largest r lt, ground arith)

-- With two or three replicas of which replica 1 has the largest gap, no replica gets the second
-- place: all but replica 1 are left at the default priority.
pick_order_no_second :
    (gap : ℕ → ℤ) (num index : ℕ) (default_priority : ℤ)
    → 2 ≤ num
    → num ≤ 3
    → gap 0 <ℤ gap 1
    → (num ≡ 3 → gap 2 ≤ℤ gap 1)
    → index ≢ 1
    → priority_for (pick_order gap num) default_priority index ≡ default_priority
unfolding pick_order priority_for order_step for_up
pick_order_no_second gap (suc (suc zero)) index d lo hi g h ne = ground arith
pick_order_no_second gap (suc (suc (suc zero))) index d lo hi g h ne = ground arith
pick_order_no_second gap (suc (suc (suc (suc n)))) index d lo hi g h ne = absurd (omega arith)
pick_order_no_second gap (suc zero) index d lo hi g h ne = absurd (omega arith)
pick_order_no_second gap zero index d lo hi g h ne = absurd (omega arith)
