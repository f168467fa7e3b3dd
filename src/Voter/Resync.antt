-- ===== src/Voter/Resync.antt =====
-- What restart_prep of voter/voterd.c does to the vote pipes of the new replica.
use pint.Common.{
  ℕ, ◌+◌, ◌%◌, ◌≤◌, ◌<◌, ◌≡◌, ◌≢◌, sym, ap, ◌∙◌, List, arith, drop, set, length-set,
  get_or-set_self,
}
use native.Mathlib.Decide.{ℕ_discrete}
use pint.Os.{Os}
use pint.VoteBuff.{VotePipe, copy_pipe, fake_to_pipe}
use pint.VoteBuff.Contents.{contents, IsValid}
use pint.VoteBuff.Compare.{contents-copy_pipe, fields-copy_pipe}
use pint.VoteBuff.Refine.{contents-fake_to_pipe}
use pint.Replicas.Types.{Replica, blank_replica, rep_at, vot_pipe, set_vot_pipe}
use pint.Replicas.Votes.{bytes_ready}
use pint.Replicas.Progress.{bytes_ready-le}
use pint.Replicas.Slots.{HasSlot, length-set_vot_pipe, rep_at-set_vot_pipe_ne, vot_pipe-set_self}
use pint.Voter.State.{Voter, ext_pipe}
use pint.Voter.Send.{send_pipe}
use pint.Voter.Recover.{align}
use pint.Voter.Output.{send_pipe_busy, loop-Sent}

-- Two vote pipes hold the same bytes at one index.
pub record InStep (p q : VotePipe) : Type 0 where
  pub bytes : contents p ≡ contents q
  pub index : p.buff_index ≡ q.buff_index

fake_to_pipe-InStep :
    (p q : VotePipe) (n : ℕ)
    → n ≤ p.buff_count
    → n ≤ q.buff_count
    → InStep p q
    → InStep (fake_to_pipe p n) (fake_to_pipe q n)
unfolding fake_to_pipe
fake_to_pipe-InStep p q n lp lq h = record {
  bytes = contents-fake_to_pipe p n lp ∙ ap (drop n) h.bytes ∙ sym (contents-fake_to_pipe q n lq);
  index = ap (λ i. (i + n) % 4096) h.index;
}

set_vot_pipe-HasSlot :
    (reps : List Replica) (a i : ℕ) (x : VotePipe) (j : ℕ)
    → HasSlot reps a i
    → HasSlot reps j i
    → HasSlot (set_vot_pipe reps a i x) j i
set_vot_pipe-HasSlot reps a i x j slot h = record {
  rep_in = omega (arith, length-set_vot_pipe reps a i x, h.rep_in);
  pipe_in = elim (ℕ_discrete a j) [
    | yes e ↦
        rw
          (
            ← e,
            get_or-set_self reps a
                (record (rep_at reps a) { vot_pipes = set (rep_at reps a).vot_pipes i x })
                blank_replica slot.rep_in,
          )
          (omega (arith, length-set (rep_at reps a).vot_pipes i x, slot.pipe_in))
    | no ne ↦ rw (rep_at-set_vot_pipe_ne reps a i x j ne) h.pipe_in
  ];
}

send_pipe_idle :
    (os : Os) (pipe chosen : ℕ) (v : Voter)
    → bytes_ready v.replicas v.rep_count pipe ≡ 0
    → send_pipe os pipe chosen v ≡ v
unfolding send_pipe
send_pipe_idle os pipe chosen v idle = ground arith

-- sendPipe keeps two replicas in step.
send_pipe-InStep :
    (os : Os) (pipe chosen a b : ℕ) (v : Voter)
    → ((j : ℕ) → j < v.rep_count → HasSlot v.replicas j pipe)
    → a < v.rep_count
    → b < v.rep_count
    → InStep (vot_pipe v.replicas a pipe) (vot_pipe v.replicas b pipe)
    → let v' = send_pipe os pipe chosen v in
      InStep (vot_pipe v'.replicas a pipe) (vot_pipe v'.replicas b pipe)
send_pipe-InStep os pipe chosen a b v slots la lb h =
    elim (ℕ_discrete (bytes_ready v.replicas v.rep_count pipe) 0) [
      | yes idle ↦ rw (send_pipe_idle os pipe chosen v idle) h
      | no busy ↦
          let le =
            λ (j : ℕ) (lt : j < v.rep_count). bytes_ready-le v.replicas v.rep_count pipe j lt in
          let s =
            loop-Sent os pipe chosen (ext_pipe v pipe).fd_out
              (bytes_ready v.replicas v.rep_count pipe) v.replicas v.log v.rep_count slots le in
          rw (send_pipe_busy os pipe chosen v busy, s.done a la, s.done b lb)
            (fake_to_pipe-InStep (vot_pipe v.replicas a pipe) (vot_pipe v.replicas b pipe)
              (bytes_ready v.replicas v.rep_count pipe) (le a la) (le b lb) h)
    ]

align_set :
    (os : Os) (a b i : ℕ) (v : Voter)
    → (vot_pipe v.replicas b i).fd_in ≢ 0
    → align os a b i v
      ≡ send_pipe os i b (record v {
        replicas =
            set_vot_pipe v.replicas a i
              (copy_pipe (vot_pipe v.replicas a i) (vot_pipe v.replicas b i));
      })
unfolding align
align_set os a b i v fd = ground arith

-- The loop of restart_prep over the pipes, at a pipe i that the restarter reads into: both replicas
-- are of the count and have the pipe, as the others do, and their vote pipes are well formed. After
-- the round the restarted replica holds the same bytes as the restarter at the same index, whatever
-- it held before and whether or not sendPipe has sent.
pub align-InStep :
    (os : Os) (restartee restarter i : ℕ) (v : Voter)
    → restartee ≢ restarter
    → restartee < v.rep_count
    → restarter < v.rep_count
    → ((j : ℕ) → j < v.rep_count → HasSlot v.replicas j i)
    → IsValid (vot_pipe v.replicas restartee i)
    → IsValid (vot_pipe v.replicas restarter i)
    → (vot_pipe v.replicas restarter i).fd_in ≢ 0
    → let v' = align os restartee restarter i v in
      InStep (vot_pipe v'.replicas restartee i) (vot_pipe v'.replicas restarter i)
align-InStep os a b i v ne la lb slots va vb fd = rw (align_set os a b i v fd) (
    send_pipe-InStep os i b a b copied
      (λ j lt. set_vot_pipe-HasSlot v.replicas a i x j (slots a la) (slots j lt)) la lb in_step)
  where
    x : VotePipe
    x = copy_pipe (vot_pipe v.replicas a i) (vot_pipe v.replicas b i)

    copied : Voter
    copied = record v { replicas = set_vot_pipe v.replicas a i x }

    in_step : InStep (vot_pipe copied.replicas a i) (vot_pipe copied.replicas b i)
    in_step =
        rw
          (
            vot_pipe-set_self v.replicas a i x (slots a la),
            rep_at-set_vot_pipe_ne v.replicas a i x b ne,
          )
          (record {
            bytes = contents-copy_pipe (vot_pipe v.replicas a i) (vot_pipe v.replicas b i) va vb;
            index =
                (fields-copy_pipe (vot_pipe v.replicas a i) (vot_pipe v.replicas b i) va vb).index;
          })
