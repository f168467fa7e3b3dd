-- ===== src/Replicas/Applied.antt =====
-- The priorities that balanceReps of src/replicas.c sets, one replica after another.
use pint.Common.{
  ℕ, zero, suc, ◌+◌, ◌≤◌, ◌<◌, ◌≡◌, ◌≢◌, refl, sym, ap, subst, ◌∙◌, Bool, true, false, Bool-cases,
  inl, inr, List, ◌∷◌, arith, ◌==◌, if◌then◌else◌, length, set, length-set, get_or-set_self,
  get_or-set_ne,
}
use pint.Common.Int.{ℤ, pos, ◌<ℤ◌, ◌+ℤ◌, ltb_ℤ}
use native.Mathlib.Decide.{ℕ_discrete}
use pint.Os.{Os, Log, sched_rr}
use pint.Tas.{sched_set_policy}
use pint.Replicas.Types.{Replica, rep_at, blank_replica}
use pint.Replicas.Balance.{set_priority}

-- The priority of replica r when `first` is to run first and `second` next.
abbrev pub place : ℤ → ℕ → ℕ → ℕ → ℤ
place d first second r = if r == first then d +ℤ pos 2 else if r == second then d +ℤ pos 1 else d

-- The calls for the replicas below r, newest first: each is given the priority of its place, as a
-- process of the real-time policy.
abbrev pub asked : (ℕ → ℤ) → List Replica → ℕ → Log → Log
asked priority reps zero w = w
asked priority reps (suc r) w = sched_rr (rep_at reps r).pid (priority r) ∷ asked priority reps r w

-- Replica r' is replica r, but that it has the priority `new` if the system has taken it.
pub record Reprioritised (taken : Bool) (new : ℤ) (r r' : Replica) : Type 0 where
  pub pid : r'.pid ≡ r.pid
  pub name : r'.name ≡ r.name
  pub pipe_count : r'.pipe_count ≡ r.pipe_count
  pub vot_pipes : r'.vot_pipes ≡ r.vot_pipes
  pub voter_rep_in_copy : r'.voter_rep_in_copy ≡ r.voter_rep_in_copy
  pub rep_pipes : r'.rep_pipes ≡ r.rep_pipes
  pub priority : r'.priority ≡ (if taken then new else r.priority)

-- The replicas and the log after the first i replicas have got the priorities.
pub record Applied (os : Os) (priority : ℕ → ℤ) (reps : List Replica) (w : Log) (i : ℕ)
    (s : List Replica × Log) : Type 0 where
  pub sized : length s.0 ≡ length reps
  pub calls : s.1 ≡ asked priority reps i w
  pub done :
      (r : ℕ)
      → r < i
      → Reprioritised
          (os.sched_answer (asked priority reps r w) (rep_at reps r).pid (priority r))
          (priority r)
          (rep_at reps r)
          (rep_at s.0 r)
  pub rest : (r : ℕ) → i ≤ r → rep_at s.0 r ≡ rep_at reps r

set_priority-asks :
    (os : Os) (i : ℕ) (p : ℤ) (reps : List Replica) (w : Log)
    → pos 0 <ℤ p
    → p <ℤ os.priority_max
    → let pid = (rep_at reps i).pid in
      set_priority os i p (reps, w) ≡ (
        if os.sched_answer w pid p
            then set reps i (record (rep_at reps i) { priority = p })
            else reps,
        sched_rr pid p ∷ w,
      )
unfolding set_priority sched_set_policy
set_priority-asks os i p reps w low high =
    let real_time : ltb_ℤ (pos 0) p ≡ true = ground (arith, low) in
    let below : ltb_ℤ p os.priority_max ≡ true = ground (arith, high) in
    rw (below, real_time)
      (elim (Bool-cases (os.sched_answer w (rep_at reps i).pid p)) [
        | inl taken ↦ rw taken refl
        | inr refused ↦ rw refused refl
      ])

-- What a call of sched_set_policy leaves of the replicas.
answered : Bool → ℕ → ℤ → List Replica → List Replica
answered taken i p reps =
    if taken then set reps i (record (rep_at reps i) { priority = p }) else reps

length-answered :
    (taken : Bool) (i : ℕ) (p : ℤ) (reps : List Replica)
    → length (answered taken i p reps) ≡ length reps
unfolding answered
length-answered true i p reps = length-set reps i (record (rep_at reps i) { priority = p })
length-answered false i p reps = refl

answered-here :
    (taken : Bool) (i : ℕ) (p : ℤ) (reps : List Replica)
    → i < length reps
    → Reprioritised taken p (rep_at reps i) (rep_at (answered taken i p reps) i)
unfolding answered
answered-here true i p reps lt =
    rw (get_or-set_self reps i (record (rep_at reps i) { priority = p }) blank_replica lt) (record {
      pid = refl;
      name = refl;
      pipe_count = refl;
      vot_pipes = refl;
      voter_rep_in_copy = refl;
      rep_pipes = refl;
      priority = refl;
    })
answered-here false i p reps lt = record {
  pid = refl;
  name = refl;
  pipe_count = refl;
  vot_pipes = refl;
  voter_rep_in_copy = refl;
  rep_pipes = refl;
  priority = refl;
}

answered-there :
    (taken : Bool) (i j : ℕ) (p : ℤ) (reps : List Replica)
    → i ≢ j
    → rep_at (answered taken i p reps) j ≡ rep_at reps j
unfolding answered
answered-there true i j p reps ne =
    get_or-set_ne reps i j (record (rep_at reps i) { priority = p }) blank_replica ne
answered-there false i j p reps ne = refl

module _ (os : Os) (priority : ℕ → ℤ) (reps : List Replica) (w : Log)
    (low : (r : ℕ) → pos 0 <ℤ priority r) (high : (r : ℕ) → priority r <ℤ os.priority_max) where
  answered-Applied :
      (i : ℕ) (now : List Replica) (u : Log)
      → i < length reps
      → Applied os priority reps w i (now, u)
      → (j : ℕ) → j ≡ suc i
      → let pid = (rep_at now i).pid in
        Applied os priority reps w j (
          answered (os.sched_answer u pid (priority i)) i (priority i) now,
          sched_rr pid (priority i) ∷ u,
        )
  answered-Applied i now u lt b j e =
      let pid : (rep_at now i).pid ≡ (rep_at reps i).pid =
        ap (λ r. r.pid) (b.rest i (omega arith)) in
      let taken = os.sched_answer u (rep_at now i).pid (priority i) in
      let asked_so : taken
          ≡ os.sched_answer (asked priority reps i w) (rep_at reps i).pid (priority i) =
        rw (pid, b.calls) refl in
      record {
        sized = length-answered taken i (priority i) now ∙ b.sized;
        calls = rw (e, pid, b.calls) refl;
        done = λ r below. elim (ℕ_discrete i r) [
          | yes here ↦
              subst
                (λ k.
                  Reprioritised
                    (os.sched_answer (asked priority reps k w) (rep_at reps k).pid (priority k))
                    (priority k) (rep_at reps k) (rep_at (answered taken i (priority i) now) k))
                here
                (subst
                  (λ t.
                    Reprioritised t (priority i) (rep_at reps i)
                      (rep_at (answered taken i (priority i) now) i))
                  asked_so
                  (subst
                    (λ old.
                      Reprioritised taken (priority i) old
                        (rep_at (answered taken i (priority i) now) i))
                    (b.rest i (omega arith))
                    (answered-here taken i (priority i) now (omega (arith, b.sized)))))
          | no other ↦
              rw (answered-there taken i r (priority i) now other)
                (b.done r (omega (arith, e, below, other)))
        ];
        rest = λ r above.
            answered-there taken i r (priority i) now (omega arith) ∙ b.rest r (omega arith);
      }

  pub set_priority-Applied :
      (i : ℕ) (s : List Replica × Log)
      → i < length reps
      → Applied os priority reps w i s
      → Applied os priority reps w (i + 1) (set_priority os i (priority i) s)
  unfolding answered
  set_priority-Applied i (now, u) lt b =
      subst (Applied os priority reps w (i + 1))
        (sym (set_priority-asks os i (priority i) now u (low i) (high i)))
        (answered-Applied i now u lt b (i + 1) (omega arith))
