-- ===== src/Voter/Majority.antt =====
-- checkSDC of voter/voterd.c with three replicas: the vote is a majority vote.
use pint.Common.{
  ℕ, zero, suc, ◌+◌, ◌%◌, ◌<◌, ◌≡◌, ◌≢◌, ◌↔◌, refl, sym, ◌∙◌, true, false, List, ◌∷◌, arith,
  if◌then◌else◌, take, drop, Bool-cases, inl, inr,
}
use pint.Os.{Os, writes}
use pint.VoteBuff.{tmr, dmr}
use pint.VoteBuff.Contents.{contents, IsValid}
use pint.VoteBuff.Compare.{compare_buffs_iff}
use pint.Replicas.Types.{vot_pipe}
use pint.Replicas.Votes.{bytes_ready}
use pint.Replicas.Progress.{bytes_ready-le}
use pint.Replicas.Slots.{HasSlot}
use pint.Voter.State.{Voter, ext_pipe}
use pint.Voter.Send.{send_pipe}
use pint.Voter.Recover.{restart_prep}
use pint.Voter.Vote.{agree, check_from, check_sdc}
use pint.Voter.Output.{send_pipe_lem}

-- The three vote pipes are well formed, stand at one index, and all hold bytes.
pub record Comparable (v : Voter) (pipe : ℕ) : Type 0 where
  pub triple : v.rep_count ≡ 3
  pub voting : v.rep_type ≡ tmr
  pub valid : (r : ℕ) → IsValid (vot_pipe v.replicas r pipe)
  pub in_step :
      (r s : ℕ)
      → r < 3
      → s < 3
      → (vot_pipe v.replicas r pipe).buff_index ≡ (vot_pipe v.replicas s pipe).buff_index
  pub busy : bytes_ready v.replicas v.rep_count pipe ≢ 0

-- The bytes of replica r that are voted on.
abbrev pub ballot : Voter → ℕ → ℕ → List ℕ
ballot v pipe r =
    take (bytes_ready v.replicas v.rep_count pipe) (contents (vot_pipe v.replicas r pipe))

module _ (v : Voter) (pipe : ℕ) (c : Comparable v pipe) where
  agree_iff :
      (a b : ℕ)
      → a < 3
      → b < 3
      → (agree v pipe (bytes_ready v.replicas v.rep_count pipe) a b ≡ true)
        ↔ (ballot v pipe a ≡ ballot v pipe b)
  unfolding agree
  agree_iff a b la lb = ground (
    arith,
    c.triple,
    c.in_step a b la lb,
    bytes_ready-le v.replicas v.rep_count pipe a,
    bytes_ready-le v.replicas v.rep_count pipe b,
    compare_buffs_iff (vot_pipe v.replicas a pipe) (vot_pipe v.replicas b pipe)
        (bytes_ready v.replicas v.rep_count pipe) (c.valid a) (c.valid b),
  )

  abbrev tally : Os → Voter
  tally os =
      let n = bytes_ready v.replicas v.rep_count pipe in
      if agree v pipe n 0 1
      then (if agree v pipe n 0 2 then send_pipe os pipe 0 v else restart_prep os 2 0 v)
      else if agree v pipe n 1 2
      then (if agree v pipe n 1 0 then send_pipe os pipe 1 v else restart_prep os 0 1 v)
      else if agree v pipe n 2 0
      then (if agree v pipe n 2 1 then send_pipe os pipe 2 v else restart_prep os 1 2 v)
      else v

  loop-tally :
      (os : Os) → check_from os pipe (bytes_ready v.replicas v.rep_count pipe) 3 0 v ≡ tally os
  unfolding check_from
  loop-tally os = rw (c.triple, check_from) refl

  check_sdc-tally : (os : Os) → check_sdc os pipe v ≡ tally os
  unfolding check_sdc
  check_sdc-tally os = ground (arith, c.triple, c.voting, c.busy, loop-tally os)

  agree_yes :
      (a b : ℕ)
      → a < 3
      → b < 3
      → ballot v pipe a ≡ ballot v pipe b
      → agree v pipe (bytes_ready v.replicas v.rep_count pipe) a b ≡ true
  agree_yes a b la lb e = (agree_iff a b la lb).1 e

  agree_no :
      (a b : ℕ)
      → a < 3
      → b < 3
      → ballot v pipe a ≢ ballot v pipe b
      → agree v pipe (bytes_ready v.replicas v.rep_count pipe) a b ≡ false
  agree_no a b la lb ne =
      elim (Bool-cases (agree v pipe (bytes_ready v.replicas v.rep_count pipe) a b)) [
        | inl e ↦ absurd (ne ((agree_iff a b la lb).0 e))
        | inr e ↦ e
      ]

  odd_out :
      (os : Os) (odd : ℕ)
      → odd < 3
      → ballot v pipe ((odd + 1) % 3) ≡ ballot v pipe ((odd + 2) % 3)
      → ballot v pipe odd ≢ ballot v pipe ((odd + 1) % 3)
      → tally os ≡ restart_prep os odd ((odd + 1) % 3) v
  odd_out os zero lt same ne = rw (
    agree_no 0 1 (omega arith) (omega arith) ne,
    agree_yes 1 2 (omega arith) (omega arith) same,
    agree_no 1 0 (omega arith) (omega arith) (λ e. ne (sym e)),
  )
  odd_out os (suc zero) lt same ne = rw (
    agree_no 0 1 (omega arith) (omega arith) (λ e. ne (sym e ∙ sym same)),
    agree_no 1 2 (omega arith) (omega arith) ne,
    agree_yes 2 0 (omega arith) (omega arith) same,
    agree_no 2 1 (omega arith) (omega arith) (λ e. ne (sym e)),
  )
  odd_out os (suc (suc zero)) lt same ne = rw (
    agree_yes 0 1 (omega arith) (omega arith) same,
    agree_no 0 2 (omega arith) (omega arith) (λ e. ne (sym e)),
  )
  odd_out os (suc (suc (suc odd))) lt same ne = absurd (omega arith)

-- With three replicas in step, that is with well-formed vote pipes at one index that all hold bytes,
-- of which one disagrees on these bytes with the other two, and these agree, checkSDC restarts
-- exactly that one from one of the two that agree.
pub check_sdc_odd_out :
    (os : Os) (v : Voter) (pipe odd : ℕ)
    → Comparable v pipe
    → odd < 3
    → ballot v pipe ((odd + 1) % 3) ≡ ballot v pipe ((odd + 2) % 3)
    → ballot v pipe odd ≢ ballot v pipe ((odd + 1) % 3)
    → check_sdc os pipe v ≡ restart_prep os odd ((odd + 1) % 3) v
check_sdc_odd_out os v pipe odd c lt same ne =
    check_sdc-tally v pipe c os ∙ odd_out v pipe c os odd lt same ne

-- With three replicas in step, that is with well-formed vote pipes at one index that all hold bytes,
-- whose arrays have the pipe, and that agree on these bytes, checkSDC writes them once to the pipe's
-- outer end and drops them from each replica r.
pub check_sdc_unanimous :
    (os : Os) (v : Voter) (pipe r : ℕ)
    → Comparable v pipe
    → ((j : ℕ) → j < v.rep_count → HasSlot v.replicas j pipe)
    → ballot v pipe 0 ≡ ballot v pipe 1
    → ballot v pipe 0 ≡ ballot v pipe 2
    → r < 3
    → let v' = check_sdc os pipe v in
      (v'.log ≡ writes (ext_pipe v pipe).fd_out (ballot v pipe 0) ∷ v.log)
      × (contents (vot_pipe v'.replicas r pipe)
          ≡ drop (bytes_ready v.replicas v.rep_count pipe) (contents (vot_pipe v.replicas r pipe)))
check_sdc_unanimous os v pipe r c slots e1 e2 lt =
    rw
      (
        check_sdc-tally v pipe c os,
        agree_yes v pipe c 0 1 (omega arith) (omega arith) e1,
        agree_yes v pipe c 0 2 (omega arith) (omega arith) e2,
      )
      (let s =
          send_pipe_lem os pipe 0 v r (suc pipe) c.busy (omega (arith, c.triple)) slots (c.valid 0)
            (omega (arith, c.triple)) (omega arith) in
        (s.0, s.1))

-- With three replicas in step, that is with well-formed vote pipes at one index that all hold bytes,
-- of which no two agree on these bytes, checkSDC does nothing: it sends nothing and
-- restarts nobody, and the buffers stay as they are.
check_sdc_no_majority :
    (os : Os) (v : Voter) (pipe : ℕ)
    → Comparable v pipe
    → ballot v pipe 0 ≢ ballot v pipe 1
    → ballot v pipe 1 ≢ ballot v pipe 2
    → ballot v pipe 2 ≢ ballot v pipe 0
    → check_sdc os pipe v ≡ v
check_sdc_no_majority os v pipe c n1 n2 n3 = rw (
  check_sdc-tally v pipe c os,
  agree_no v pipe c 0 1 (omega arith) (omega arith) n1,
  agree_no v pipe c 1 2 (omega arith) (omega arith) n2,
  agree_no v pipe c 2 0 (omega arith) (omega arith) n3,
)

check_sdc-dmr :
    (os : Os) (v : Voter) (pipe : ℕ)
    → v.rep_type ≡ dmr
    → bytes_ready v.replicas v.rep_count pipe ≢ 0
    → check_sdc os pipe v ≡ send_pipe os pipe 0 v
unfolding check_sdc
check_sdc-dmr os v pipe is_dmr busy = ground arith

-- With two replicas that both have bytes on the pipe, the one of replica 0 well formed, a disagreement
-- does not stop the output: whatever the bytes of replica 1 are, checkSDC writes those of replica 0,
-- as many as both have, and drops as many from both.
check_sdc_dmr :
    (os : Os) (v : Voter) (pipe r : ℕ)
    → v.rep_type ≡ dmr
    → v.rep_count ≡ 2
    → IsValid (vot_pipe v.replicas 0 pipe)
    → ((j : ℕ) → j < v.rep_count → HasSlot v.replicas j pipe)
    → bytes_ready v.replicas v.rep_count pipe ≢ 0
    → r < 2
    → let v' = check_sdc os pipe v in
      (v'.log ≡ writes (ext_pipe v pipe).fd_out (ballot v pipe 0) ∷ v.log)
      × (contents (vot_pipe v'.replicas r pipe)
          ≡ drop (bytes_ready v.replicas v.rep_count pipe) (contents (vot_pipe v.replicas r pipe)))
check_sdc_dmr os v pipe r is_dmr two valid slots busy lt =
    rw (check_sdc-dmr os v pipe is_dmr busy) (
      let s =
        send_pipe_lem os pipe 0 v r (suc pipe) busy (omega (arith, two)) slots valid
          (omega (arith, two)) (omega arith) in
      (s.0, s.1))
