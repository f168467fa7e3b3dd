-- ===== src/Replicas/Progress.antt =====
-- What bytesReady, aheadRep, behindRep and rep_gap of src/replicas.c return.
use pint.Common.{
  ℕ, ◌+◌, ◌-◌, ◌≤◌, ◌<◌, ◌≡◌, refl, ◌⊎◌, inl, inr, List, arith, ltb, if◌then◌else◌, for_up_inv,
}
use pint.Common.Int.{pos, ◌+ℤ◌, ◌≤ℤ◌}
use native.Mathlib.Decide.{dec_lt, ℕ_discrete}
use pint.VoteBuff.{max_buff}
use pint.Replicas.Types.{Replica, rep_at, count_at}
use pint.Replicas.Votes.{bytes_ready, ahead_rep, behind_step, behind_rep, rep_gap}

module _ (reps : List Replica) (num pipe : ℕ) where
  -- m is the least of 4096 and the counts of the replicas below i.
  record Least (i m : ℕ) : Type 0 where
    most : m ≤ max_buff
    below : (r : ℕ) → r < i → m ≤ count_at reps r pipe
    met : (m ≡ max_buff) ⊎ ((r : ℕ) × (r < i) × (m ≡ count_at reps r pipe))

  abbrev lesser : ℕ → ℕ → ℕ
  lesser r m = if ltb (count_at reps r pipe) m then count_at reps r pipe else m

  lesser-met :
      (i m : ℕ)
      → Least i m
      → (lesser i m ≡ max_buff) ⊎ ((r : ℕ) × (r < i + 1) × (lesser i m ≡ count_at reps r pipe))
  lesser-met i m h = elim (dec_lt (count_at reps i pipe) m) [
    | yes lt ↦ inr (i, omega arith, ground arith)
    | no ge ↦ elim h.met [
      | inl e ↦ inl (ground arith)
      | inr (r, lt, e) ↦ inr (r, omega arith, ground arith)
    ]
  ]

  lesser-below : (i m : ℕ) → Least i m → (r : ℕ) → r < i + 1 → lesser i m ≤ count_at reps r pipe
  lesser-below i m h r lt = elim (ℕ_discrete r i) [
    | yes e ↦ rw e (ground arith)
    | no ne ↦ ground (arith, h.below r)
  ]

  -- bytesReady returns a number that each of the num replicas has, at most 4096, and one of them
  -- has no more (or it is 4096).
  bytes_ready_lem :
      (r : ℕ)
      → r < num
      → (bytes_ready reps num pipe ≤ count_at reps r pipe)
        × (bytes_ready reps num pipe ≤ max_buff)
        × ((bytes_ready reps num pipe ≡ max_buff)
            ⊎ ((r : ℕ) × (r < num) × (bytes_ready reps num pipe ≡ count_at reps r pipe)))
  unfolding bytes_ready
  bytes_ready_lem r lt =
      let l : Least num (bytes_ready reps num pipe) =
        for_up_inv Least _ num 0 num max_buff (omega arith)
          (λ i m _ h. record {
            most = ground (arith, h);
            below = lesser-below i m h;
            met = lesser-met i m h;
          })
          (record {
            most = omega arith;
            below = λ j none_yet. absurd (omega arith);
            met = inl refl;
          }) in
      (l.below r lt, l.most, l.met)

  pub bytes_ready-le : (r : ℕ) → r < num → bytes_ready reps num pipe ≤ count_at reps r pipe
  bytes_ready-le r lt = (bytes_ready_lem r lt).0

  record Ahead (i m : ℕ) : Type 0 where
    in_range : (m ≡ 0) ⊎ (m < i)
    above : (r : ℕ) → r < i → count_at reps r pipe ≤ count_at reps m pipe

  abbrev further : ℕ → ℕ → ℕ
  further r m = if ltb (count_at reps m pipe) (count_at reps r pipe) then r else m

  further-above :
      (i m : ℕ)
      → Ahead i m
      → (r : ℕ) → r < i + 1
      → count_at reps r pipe ≤ count_at reps (further i m) pipe
  further-above i m h r lt = elim (ℕ_discrete r i) [
    | yes e ↦ rw e (ground arith)
    | no ne ↦ ground (arith, h.above r)
  ]

  -- aheadRep returns the index of one of the num replicas, and none of them has more bytes.
  ahead_rep_lem :
      (r : ℕ)
      → r < num
      → (ahead_rep reps num pipe < num)
        × (count_at reps r pipe ≤ count_at reps (ahead_rep reps num pipe) pipe)
  unfolding ahead_rep
  ahead_rep_lem r lt =
      let a : Ahead num (ahead_rep reps num pipe) =
        for_up_inv Ahead _ num 0 num 0 (omega arith)
          (λ i m _ h. record { in_range = ground (arith, h.in_range); above = further-above i m h })
          (record { in_range = inl refl; above = λ j none_yet. absurd (omega arith) }) in
      (omega (arith, a.in_range), a.above r lt)

  -- Replica m is behind every replica below i: it has fewer bytes, or as many and no lower priority.
  record Behind (i m : ℕ) : Type 0 where
    in_range : m < i
    fewer : (r : ℕ) → r < i → count_at reps m pipe ≤ count_at reps r pipe
    tied :
        (r : ℕ)
        → r < i
        → count_at reps r pipe ≡ count_at reps m pipe
        → (rep_at reps r).priority ≤ℤ (rep_at reps m).priority

  behind_step-Behind : (i m : ℕ) → Behind i m → Behind (i + 1) (behind_step reps pipe i m)
  unfolding behind_step
  behind_step-Behind i m h = record {
    in_range = ground (arith, h.in_range);
    fewer = λ r lt. elim (ℕ_discrete r i) [
      | yes e ↦ rw e (ground arith)
      | no ne ↦ ground (arith, h.fewer r)
    ];
    tied = λ r lt same. elim (ℕ_discrete r i) [
      | yes e ↦ ground (arith, e)
      | no ne ↦ ground (arith, h.fewer r, h.tied r)
    ];
  }

  -- behindRep returns the index of one of the num replicas. None of them has put out fewer bytes
  -- on the pipe, and none with as many has a higher priority.
  pub behind_rep_lem :
      (r : ℕ)
      → r < num
      → (behind_rep reps num pipe < num)
        × ((count_at reps (behind_rep reps num pipe) pipe < count_at reps r pipe)
            ⊎ ((count_at reps (behind_rep reps num pipe) pipe ≡ count_at reps r pipe)
                × ((rep_at reps r).priority ≤ℤ (rep_at reps (behind_rep reps num pipe)).priority)))
  unfolding behind_rep
  behind_rep_lem r lt =
      let b : Behind num (behind_rep reps num pipe) =
        for_up_inv Behind _ (num - 1) 1 num 0 (omega arith) (λ i m _ h. behind_step-Behind i m h)
          (record {
            in_range = omega arith;
            fewer = λ j first. let e : j ≡ 0 = omega arith in rw e (omega arith);
            tied = λ j first same. let e : j ≡ 0 = omega arith in rw e (omega arith);
          }) in
      (
        b.in_range,
        elim (dec_lt (count_at reps (behind_rep reps num pipe) pipe) (count_at reps r pipe)) [
          | yes less ↦ inl less
          | no ge ↦ inr (omega (arith, b.fewer r lt), b.tied r lt (omega (arith, b.fewer r lt)))
        ],
      )

-- rep_gap is never negative for one of the num replicas.
rep_gap_nonneg : (reps : List Replica) (num rep : ℕ) → rep < num → pos 0 ≤ℤ rep_gap reps num rep
unfolding rep_gap ◌+ℤ◌
rep_gap_nonneg reps num rep lt =
    for_up_inv (λ i gap. pos 0 ≤ℤ gap) _ (rep_at reps 0).pipe_count 0 (rep_at reps 0).pipe_count
      (pos 0) (omega arith) (λ p gap _ h. ground (arith, ahead_rep_lem reps num p rep lt))
      (omega arith)

-- rep_gap is 0 for a replica that has put out as much as any of the num replicas on every pipe.
rep_gap_level :
    (reps : List Replica) (num rep : ℕ)
    → rep < num
    → ((r p : ℕ) → r < num → count_at reps r p ≤ count_at reps rep p)
    → rep_gap reps num rep ≡ pos 0
unfolding rep_gap ◌+ℤ◌
rep_gap_level reps num rep lt most =
    for_up_inv (λ i gap. gap ≡ pos 0) _ (rep_at reps 0).pipe_count 0 (rep_at reps 0).pipe_count
      (pos 0) (omega arith)
      (λ p gap _ h.
        let a = ahead_rep_lem reps num p rep lt in
        ground (arith, most (ahead_rep reps num p) p a.0, a.1))
      refl
