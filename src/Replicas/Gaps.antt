-- ===== src/Replicas/Gaps.antt =====
-- rep_gap of src/replicas.c by the bytes that the replica has put out.
use pint.Common.{
  ℕ, zero, suc, ◌+◌, ◌≤◌, ◌≡◌, refl, Bool-cases, inl, inr, List, arith, ◌==◌, if◌then◌else◌,
  for_up_inv,
}
use pint.Common.Int.{ℤ, pos, pos_part, neg_part, sub_ℕ, ◌≤ℤ◌, ◌+ℤ◌}
use pint.Replicas.Types.{Replica, rep_at, vot_pipe, count_at}
use pint.Replicas.Votes.{ahead_rep, rep_gap}

-- The bytes that replica r has put out on the first k pipes, of those that replicas write.
abbrev pub put_out : List Replica → ℕ → ℕ → ℕ
put_out reps r zero = 0
put_out reps r (suc p) =
    put_out reps r p + (if (vot_pipe reps 0 p).fd_in == 0 then 0 else count_at reps r p)

-- What the loop of rep_gap over the pipes has, for the bytes of the replicas that are ahead.
most_out : List Replica → ℕ → ℕ → ℕ
most_out reps num zero = 0
most_out reps num (suc p) =
    most_out reps num p
    + (if (vot_pipe reps 0 p).fd_in == 0 then 0 else count_at reps (ahead_rep reps num p) p)

gap_sum :
    (g : ℤ) (a b t m : ℕ)
    → pos_part g + t ≡ neg_part g + m
    → pos_part (g +ℤ sub_ℕ a b) + (t + b) ≡ neg_part (g +ℤ sub_ℕ a b) + (m + a)
unfolding ◌+ℤ◌
gap_sum g a b t m k = ground (arith, k)

rep_gap_lem :
    (reps : List Replica) (num r : ℕ)
    → let n = (rep_at reps 0).pipe_count in
      pos_part (rep_gap reps num r) + put_out reps r n
      ≡ neg_part (rep_gap reps num r) + most_out reps num n
unfolding rep_gap most_out
rep_gap_lem reps num r =
    for_up_inv (λ i gap. pos_part gap + put_out reps r i ≡ neg_part gap + most_out reps num i) _ n 0
      n (pos 0) (omega arith) (λ i gap lt h. next i gap (i + 1) (omega arith) h) refl
  where
    n : ℕ
    n = (rep_at reps 0).pipe_count

    next :
        (i : ℕ) (gap : ℤ) (j : ℕ)
        → j ≡ suc i
        → pos_part gap + put_out reps r i ≡ neg_part gap + most_out reps num i
        → let gap' =
            if (vot_pipe reps 0 i).fd_in == 0
            then gap
            else gap +ℤ sub_ℕ (count_at reps (ahead_rep reps num i) i) (count_at reps r i) in
          pos_part gap' + put_out reps r j ≡ neg_part gap' + most_out reps num j
    next i gap j e h = rw e (elim (Bool-cases ((vot_pipe reps 0 i).fd_in == 0)) [
      | inl unset ↦ rw unset (omega (arith, h))
      | inr written ↦ rw written (
          gap_sum gap (count_at reps (ahead_rep reps num i) i) (count_at reps r i)
            (put_out reps r i) (most_out reps num i) h)
    ])

-- A replica with a larger gap has put out fewer bytes, or as many.
pub rep_gap-put_out :
    (reps : List Replica) (num r s : ℕ)
    → rep_gap reps num r ≤ℤ rep_gap reps num s
    → put_out reps s (rep_at reps 0).pipe_count ≤ put_out reps r (rep_at reps 0).pipe_count
rep_gap-put_out reps num r s le = omega (arith, le, rep_gap_lem reps num r, rep_gap_lem reps num s)
