-- ===== src/Voter/Sync.antt =====
-- checkSync of voter/voterd.c: inputs are held back while a replica is behind.
use pint.Common.{
  ℕ, ◌+◌, ◌-◌, ◌<◌, ◌≡◌, ◌↔◌, refl, Bool, true, false, ◌==◌, arith, for_up, for_up_inv,
  if◌then◌else◌,
}
use native.Mathlib.Decide.{ℕ_discrete}
use pint.Replicas.Types.{count_at}
use pint.Voter.State.{Voter}
use pint.Voter.Update.{check_sync}

module _ (v : Voter) where
  abbrev LevelAt : ℕ → ℕ → Type 0
  LevelAt r p = count_at v.replicas 0 p ≡ count_at v.replicas r p

  abbrev pipe_round : ℕ → ℕ → Bool → Bool
  pipe_round p r nsync = if count_at v.replicas 0 p == count_at v.replicas r p then nsync else false

  -- What one pipe's loop has found when it comes to replica i.
  record InnerLevel (p : ℕ) (before : Bool) (i : ℕ) (nsync : Bool) : Type 0 where
    kept : nsync ≡ true → before ≡ true
    level : nsync ≡ true → (r : ℕ) → r < i → LevelAt r p

  inner-InnerLevel :
      (p : ℕ) (before : Bool)
      → InnerLevel p before
          (1 + (v.rep_count - 1))
          (for_up (v.rep_count - 1) 1 (pipe_round p) before)
  inner-InnerLevel p before =
      for_up_inv (InnerLevel p before) (pipe_round p) (v.rep_count - 1) 1 _ before refl
        (λ i nsync lt h. record {
          kept = λ e. h.kept (ground arith);
          level = λ e r le. elim (ℕ_discrete r i) [
            | yes same ↦ rw same (ground arith)
            | no ne ↦ h.level (ground arith) r (omega arith)
          ];
        })
        (record {
          kept = λ e. e;
          level = λ e r first. let at_0 : r ≡ 0 = omega arith in rw at_0 refl;
        })

  level-of_check_sync :
      (r p : ℕ)
      → check_sync v ≡ true
      → r < v.rep_count
      → p < v.pipe_count
      → count_at v.replicas 0 p ≡ count_at v.replicas r p
  unfolding check_sync
  level-of_check_sync r p e lr lp =
      for_up_inv (λ i nsync. nsync ≡ true → (q : ℕ) → q < i → LevelAt r q)
        (λ q nsync. for_up (v.rep_count - 1) 1 (pipe_round q) nsync) v.pipe_count 0 v.pipe_count
        true (omega arith)
        (λ i nsync lt h e' q le. elim (ℕ_discrete q i) [
          | yes same ↦ rw same ((inner-InnerLevel i nsync).level e' r (omega arith))
          | no ne ↦ h ((inner-InnerLevel i nsync).kept e') q (omega arith)
        ])
        (λ e' q none_yet. absurd (omega arith)) e p lp

  check_sync-of_level :
      ((r p : ℕ)
        → r < v.rep_count
        → p < v.pipe_count
        → count_at v.replicas 0 p ≡ count_at v.replicas r p)
      → check_sync v ≡ true
  unfolding check_sync
  check_sync-of_level same =
      for_up_inv (λ i nsync. nsync ≡ true)
        (λ q nsync. for_up (v.rep_count - 1) 1 (pipe_round q) nsync) v.pipe_count 0 v.pipe_count
        true (omega arith)
        (λ i nsync lt h.
          for_up_inv (λ r nsync'. nsync' ≡ true) (pipe_round i) (v.rep_count - 1) 1
            (1 + (v.rep_count - 1)) nsync refl (λ r nsync' lr h'. ground (arith, same r i)) h)
        refl

  -- checkSync returns true exactly when every replica has put out as many bytes as replica 0 on each
  -- of the pipes.
  pub check_sync_iff :
      (check_sync v ≡ true) ↔ ((r p : ℕ) → r < v.rep_count → p < v.pipe_count → LevelAt r p)
  check_sync_iff = ((λ e r p lr lp. level-of_check_sync r p e lr lp), check_sync-of_level)
