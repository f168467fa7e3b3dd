-- ===== src/Replicas/Slots.antt =====
-- Reading a vote pipe back after a write to one, in the arrays of src/replicas.c.
use pint.Common.{
  ℕ, ◌<◌, ◌≡◌, ◌≢◌, ap, ◌∙◌, List, get_or, set, length, length-set, get_or-set_self, get_or-set_ne,
}
use native.Mathlib.Decide.{ℕ_discrete}
use pint.VoteBuff.{VotePipe}
use pint.Replicas.Types.{Replica, blank_pipe, blank_replica, rep_at, vot_pipe, set_vot_pipe}

-- Slot (r, p) exists.
pub record HasSlot (reps : List Replica) (r p : ℕ) : Type 0 where
  pub rep_in : r < length reps
  pub pipe_in : p < length (rep_at reps r).vot_pipes

module _ (reps : List Replica) (r p : ℕ) (x : VotePipe) where
  abbrev written : Replica
  written = record (rep_at reps r) { vot_pipes = set (rep_at reps r).vot_pipes p x }

  pub length-set_vot_pipe : length (set_vot_pipe reps r p x) ≡ length reps
  length-set_vot_pipe = length-set reps r written

  pub rep_at-set_vot_pipe_ne : (j : ℕ) → r ≢ j → rep_at (set_vot_pipe reps r p x) j ≡ rep_at reps j
  rep_at-set_vot_pipe_ne j ne = get_or-set_ne reps r j written blank_replica ne

  pub vot_pipe-set_self : HasSlot reps r p → vot_pipe (set_vot_pipe reps r p x) r p ≡ x
  vot_pipe-set_self h =
      ap (λ s. get_or s.vot_pipes p blank_pipe)
        (get_or-set_self reps r written blank_replica h.rep_in)
      ∙ get_or-set_self (rep_at reps r).vot_pipes p x blank_pipe h.pipe_in

  pub vot_pipe-set_other :
      (j q : ℕ)
      → HasSlot reps r p
      → p ≢ q
      → vot_pipe (set_vot_pipe reps r p x) j q ≡ vot_pipe reps j q
  vot_pipe-set_other j q h ne = elim (ℕ_discrete r j) [
    | yes e ↦ rw (← e) (
        ap (λ s. get_or s.vot_pipes q blank_pipe)
          (get_or-set_self reps r written blank_replica h.rep_in)
        ∙ get_or-set_ne (rep_at reps r).vot_pipes p q x blank_pipe ne)
    | no differ ↦ ap (λ s. get_or s.vot_pipes q blank_pipe) (rep_at-set_vot_pipe_ne j differ)
  ]
