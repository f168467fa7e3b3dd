-- ===== src/Replicas/Wellformed.antt =====
-- The vote buffers of the replicas stay well formed whatever src/replicas.c does to one of them.
use Prim.Native.String.{String}
use pint.Common.{
  ℕ, List, arith, for_up_inv, get_or, set, get_or-set_inv, length-replicate, ◌==◌, if_inv,
  Option-cases, inl, inr,
}
use pint.Common.Int.{ℤ, pos, ◌+ℤ◌}
use pint.Os.{Os, Log}
use pint.VoteBuff.{VotePipe, max_buff, reset_vote_pipe}
use pint.VoteBuff.Contents.{IsValid}
use pint.Replicas.Types.{
  Replica, ExtPipe, zeros, blank_pipe, blank_replica, blank_ext, rep_at, set_vot_pipe,
}
use pint.Replicas.Votes.{rep_gap}
use pint.Replicas.Balance.{pick_order, set_priority, priority_for, balance_reps}
use pint.Replicas.Start.{
  init_replica, at_replica, reset_at, reset_both, create_pipe, create_pipes_of, connect_pipe,
  fork_replica,
}
use pint.Replicas.Restart.{favour, reconnect}

abbrev pub RepValid : Replica → Type 0
RepValid r = (p : ℕ) → IsValid (get_or r.vot_pipes p blank_pipe)

abbrev pub PipesValid : List Replica → Type 0
PipesValid reps = (r : ℕ) → RepValid (rep_at reps r)

pub blank_pipe-IsValid : IsValid blank_pipe
unfolding zeros
blank_pipe-IsValid = record {
  sized = length-replicate {A = ℕ} max_buff 0;
  index_in = omega arith;
  count_in = omega arith;
}

set-RepValid :
    (r : Replica) (p : ℕ) (q : VotePipe)
    → IsValid q
    → RepValid r
    → RepValid (record r { vot_pipes = set r.vot_pipes p q })
set-RepValid r p q vq v j = get_or-set_inv IsValid r.vot_pipes p j q blank_pipe vq (v j)

pub set-PipesValid :
    (reps : List Replica) (i : ℕ) (r : Replica)
    → RepValid r
    → PipesValid reps
    → PipesValid (set reps i r)
set-PipesValid reps i r vr v j = get_or-set_inv RepValid reps i j r blank_replica vr (v j)

pub set_vot_pipe-PipesValid :
    (reps : List Replica) (r p : ℕ) (q : VotePipe)
    → IsValid q
    → PipesValid reps
    → PipesValid (set_vot_pipe reps r p q)
set_vot_pipe-PipesValid reps r p q vq v =
    set-PipesValid reps r _ (set-RepValid (rep_at reps r) p q vq (v r)) v

reset-IsValid : (p : VotePipe) (w : Log) → IsValid p → IsValid (reset_vote_pipe p w).0
unfolding reset_vote_pipe
reset-IsValid p w v = omega arith

pub at_replica-PipesValid :
    (body : Replica → Log → Replica × Log) (i : ℕ) (s : List Replica × Log)
    → ((r : Replica) (w : Log) → RepValid r → RepValid (body r w).0)
    → PipesValid s.0
    → PipesValid (at_replica body i s).0
unfolding at_replica
at_replica-PipesValid body i (reps, w) keep v =
    set-PipesValid reps i _ (keep (rep_at reps i) w (v i)) v

set_priority-PipesValid :
    (os : Os) (i : ℕ) (new : ℤ) (s : List Replica × Log)
    → PipesValid s.0
    → PipesValid (set_priority os i new s).0
unfolding set_priority
set_priority-PipesValid os i new (reps, w) v =
    if_inv PipesValid _ reps _ v
      (set-PipesValid reps i (record (rep_at reps i) { priority = new }) (v i) v)

pub balance_reps-PipesValid :
    (os : Os) (reps : List Replica) (num : ℕ) (d : ℤ) (w : Log)
    → PipesValid reps
    → PipesValid (balance_reps os reps num d w).0
unfolding balance_reps
balance_reps-PipesValid os reps num d w v =
    for_up_inv (λ i s. PipesValid s.0) _ num 0 num (reps, w) (omega arith)
      (λ i s lt h.
        set_priority-PipesValid os i (priority_for (pick_order (rep_gap reps num) num) d i) s h)
      v

reset_both-RepValid : (j : ℕ) (s : Replica × Log) → RepValid s.0 → RepValid (reset_both j s).0
unfolding reset_both reset_at
reset_both-RepValid j (r, w) v =
    set-RepValid r j (reset_vote_pipe (get_or r.vot_pipes j blank_pipe) w).0
      (reset-IsValid (get_or r.vot_pipes j blank_pipe) w (v j)) v

pub init_replica-RepValid :
    (name : String) (d : ℤ) (r : Replica) (w : Log)
    → RepValid r
    → RepValid (init_replica name d r w).0
unfolding init_replica
init_replica-RepValid name d r w v =
    for_up_inv (λ i s. RepValid s.0) reset_both r.pipe_count 0 r.pipe_count _ (omega arith)
      (λ i s lt h. reset_both-RepValid i s h) v

connect_pipe-RepValid :
    (ext : ExtPipe) (p i o : ℕ) (r : Replica) → RepValid r → RepValid (connect_pipe ext p i o r)
unfolding connect_pipe
connect_pipe-RepValid ext p i o r v =
    if_inv RepValid (ext.fd_in == 0) _ _
      (set-RepValid r p
        (record (get_or r.vot_pipes p blank_pipe) {
          rep_info = ext.rep_info;
          fd_in = i;
          fd_out = 0;
        })
        (same-IsValid (v p)) v)
      (set-RepValid r p
        (record (get_or r.vot_pipes p blank_pipe) {
          rep_info = ext.rep_info;
          fd_in = 0;
          fd_out = o;
        })
        (same-IsValid (v p)) v)
  where
    same-IsValid :
        {q : VotePipe} {info : String} {a b : ℕ}
        → IsValid q
        → IsValid (record q { rep_info = info; fd_in = a; fd_out = b })
    same-IsValid vq = record { sized = vq.sized; index_in = vq.index_in; count_in = vq.count_in }

create_pipe-RepValid :
    (os : Os) (exts : List ExtPipe) (p : ℕ) (s : Replica × Log)
    → RepValid s.0
    → RepValid (create_pipe os exts p s).0
unfolding create_pipe
create_pipe-RepValid os exts p (r, w) v = elim (Option-cases (os.pipe_answer w)) [
  | inl e ↦ rw (e, create_pipe) v
  | inr ((i, o), e) ↦
      rw (e, create_pipe) (connect_pipe-RepValid (get_or exts p blank_ext) p i o r v)
]

pub create_pipes_of-RepValid :
    (os : Os) (exts : List ExtPipe) (n : ℕ) (r : Replica) (w : Log)
    → RepValid r
    → RepValid (create_pipes_of os exts n r w).0
unfolding create_pipes_of
create_pipes_of-RepValid os exts n r w v =
    for_up_inv (λ i s. RepValid s.0) (create_pipe os exts) n 0 n (r, w) (omega arith)
      (λ i s lt h. create_pipe-RepValid os exts i s h) v

pub favour-PipesValid :
    (os : Os) (restarter restartee : ℕ) (d : ℤ) (i : ℕ) (s : List Replica × Log)
    → PipesValid s.0
    → PipesValid (favour os restarter restartee d i s).0
unfolding favour
favour-PipesValid os restarter restartee d i s v =
    if_inv (λ (t : List Replica × Log). PipesValid t.0) (i == restartee) _ _ v
      (if_inv (λ (t : List Replica × Log). PipesValid t.0) (i == restarter) _ _
        (set_priority-PipesValid os i (d +ℤ pos 2) s v) (set_priority-PipesValid os i d s v))

pub reconnect-RepValid :
    (os : Os) (sock : ℕ) (r : Replica) (w : Log) → RepValid r → RepValid (reconnect os sock r w).0
unfolding reconnect
reconnect-RepValid os sock r w v = v

pub fork_replica-RepValid :
    (os : Os) (additional : List String) (r : Replica) (w : Log)
    → RepValid r
    → RepValid (fork_replica os additional r w).0
unfolding fork_replica
fork_replica-RepValid os additional r w v = v
