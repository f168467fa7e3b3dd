-- ===== src/Voter/Output.antt =====
-- What sendPipe of voter/voterd.c sends, and what it leaves in the vote buffers.
use pint.Common.{
  ℕ, ◌+◌, ◌≤◌, ◌<◌, ◌≡◌, ◌≢◌, refl, ap, ◌∙◌, false, List, ◌∷◌, arith, ltb, ◌==◌, if◌then◌else◌,
  for_up, for_up_inv, length, take, drop, get_or,
}
use native.Mathlib.Decide.{ℕ_discrete}
use pint.Os.{Os, Log, writes}
use pint.VoteBuff.{VotePipe, buff_to_pipe, fake_to_pipe, copy_buffer}
use pint.VoteBuff.Contents.{contents, IsValid, copy_buffer-contents}
use pint.VoteBuff.Refine.{contents-fake_to_pipe}
use pint.Replicas.Types.{Replica, blank_pipe, rep_at, vot_pipe, count_at, set_vot_pipe}
use pint.Replicas.Votes.{bytes_ready}
use pint.Replicas.Progress.{bytes_ready-le}
use pint.Replicas.Slots.{
  HasSlot, length-set_vot_pipe, rep_at-set_vot_pipe_ne, vot_pipe-set_self, vot_pipe-set_other,
}
use pint.Voter.State.{Voter, ext_pipe}
use pint.Voter.Send.{send_one, send_pipe}

buff_to_pipe_ok :
    (os : Os) (p : VotePipe) (fd n : ℕ) (w : Log)
    → n ≤ p.buff_count
    → (buff_to_pipe os p fd n w).1 ≡ fake_to_pipe p n
      × ((buff_to_pipe os p fd n w).2 ≡ writes fd (copy_buffer p n) ∷ w)
unfolding buff_to_pipe
buff_to_pipe_ok os p fd n w le = ground arith

module _ (os : Os) (pipe chosen fd n : ℕ) (reps : List Replica) (w : Log) where
  abbrev sent_log : Log
  sent_log = writes fd (copy_buffer (vot_pipe reps chosen pipe) n) ∷ w

  -- What the loop of sendPipe has done when it comes to replica i.
  pub record Sent (i : ℕ) (s : List Replica × Log) : Type 0 where
    sized : length s.0 ≡ length reps
    pub done : (r : ℕ) → r < i → vot_pipe s.0 r pipe ≡ fake_to_pipe (vot_pipe reps r pipe) n
    rest : (r : ℕ) → i ≤ r → rep_at s.0 r ≡ rep_at reps r
    others : (r q : ℕ) → pipe ≢ q → vot_pipe s.0 r q ≡ vot_pipe reps r q
    logged : s.1 ≡ (if ltb chosen i then sent_log else w)

  send_one_lem :
      (i : ℕ) (now : List Replica) (u : Log)
      → n ≤ count_at now i pipe
      → ((send_one os pipe chosen fd n i (now, u)).0
          ≡ set_vot_pipe now i pipe (fake_to_pipe (vot_pipe now i pipe) n))
        × ((send_one os pipe chosen fd n i (now, u)).1
            ≡ (if chosen == i then writes fd (copy_buffer (vot_pipe now i pipe) n) ∷ u else u))
  unfolding send_one
  send_one_lem i now u le = ground (arith, buff_to_pipe_ok os (vot_pipe now i pipe) fd n u le)

  step-Sent :
      (i : ℕ) (now : List Replica) (u : Log)
      → HasSlot reps i pipe
      → n ≤ count_at reps i pipe
      → Sent i (now, u)
      → Sent (i + 1) (send_one os pipe chosen fd n i (now, u))
  step-Sent i now u slot le s = record {
    sized =
        rw stored (length-set_vot_pipe now i pipe (fake_to_pipe (vot_pipe now i pipe) n) ∙ s.sized);
    done = λ r lt. rw stored (elim (ℕ_discrete i r) [
      | yes e ↦ rw (← e) (
          vot_pipe-set_self now i pipe (fake_to_pipe (vot_pipe now i pipe) n) slot_now
          ∙ ap (λ p. fake_to_pipe p n) same_pipe)
      | no ne ↦
          ap (λ x. get_or x.vot_pipes pipe blank_pipe)
            (rep_at-set_vot_pipe_ne now i pipe (fake_to_pipe (vot_pipe now i pipe) n) r ne)
          ∙ s.done r (omega arith)
    ]);
    rest = λ r ge. rw stored (
        rep_at-set_vot_pipe_ne now i pipe (fake_to_pipe (vot_pipe now i pipe) n) r (omega arith)
        ∙ s.rest r (omega arith));
    others = λ r q ne. rw stored (
        vot_pipe-set_other now i pipe (fake_to_pipe (vot_pipe now i pipe) n) r q slot_now ne
        ∙ s.others r q ne);
    logged = ground (arith, stored_log, s.logged, same_pipe);
  }
    where
      same : rep_at now i ≡ rep_at reps i
      same = s.rest i (omega arith)

      same_pipe : vot_pipe now i pipe ≡ vot_pipe reps i pipe
      same_pipe = ap (λ x. get_or x.vot_pipes pipe blank_pipe) same

      slot_now : HasSlot now i pipe
      slot_now = record {
        rep_in = omega (arith, s.sized, slot.rep_in);
        pipe_in = rw same slot.pipe_in;
      }

      le_now : n ≤ count_at now i pipe
      le_now = ground (arith, same_pipe)

      stored :
          (send_one os pipe chosen fd n i (now, u)).0
          ≡ set_vot_pipe now i pipe (fake_to_pipe (vot_pipe now i pipe) n)
      stored = (send_one_lem i now u le_now).0

      stored_log :
          (send_one os pipe chosen fd n i (now, u)).1
          ≡ (if chosen == i then writes fd (copy_buffer (vot_pipe now i pipe) n) ∷ u else u)
      stored_log = (send_one_lem i now u le_now).1

  pub loop-Sent :
      (num : ℕ)
      → ((r : ℕ) → r < num → HasSlot reps r pipe)
      → ((r : ℕ) → r < num → n ≤ count_at reps r pipe)
      → Sent num (for_up num 0 (send_one os pipe chosen fd n) (reps, w))
  loop-Sent num slots le =
      for_up_inv Sent (send_one os pipe chosen fd n) num 0 num (reps, w) (omega arith)
        (λ i s lt h. step-Sent i s.0 s.1 (slots i lt) (le i lt) h)
        (record {
          sized = refl;
          done = λ r lt. absurd (omega arith);
          rest = λ r ge. refl;
          others = λ r q ne. refl;
          logged = ground arith;
        })

pub send_pipe_busy :
    (os : Os) (pipe chosen : ℕ) (v : Voter)
    → bytes_ready v.replicas v.rep_count pipe ≢ 0
    → let s =
        for_up v.rep_count 0
          (send_one os pipe chosen
            (ext_pipe v pipe).fd_out
            (bytes_ready v.replicas v.rep_count pipe))
          (v.replicas, v.log) in
      send_pipe os pipe chosen v ≡ record v {
        timer_started = if pipe == v.timer_stop_index then false else v.timer_started;
        replicas = s.0;
        log = s.1;
      }
unfolding send_pipe
send_pipe_busy os pipe chosen v busy = ground arith

-- With bytes of every replica on the pipe, which the arrays of all of them have, and a chosen
-- replica whose pipe is well formed, sendPipe writes once to the pipe's outer end: the first
-- n bytes of the chosen replica, n the least count that any replica has. From every replica r
-- exactly these n bytes are dropped, any other pipe q keeps its buffer, and the timer stops if the
-- pipe is the one that stops it.
pub send_pipe_lem :
    (os : Os) (pipe chosen : ℕ) (v : Voter) (r q : ℕ)
    → bytes_ready v.replicas v.rep_count pipe ≢ 0
    → chosen < v.rep_count
    → ((j : ℕ) → j < v.rep_count → HasSlot v.replicas j pipe)
    → IsValid (vot_pipe v.replicas chosen pipe)
    → r < v.rep_count
    → pipe ≢ q
    → let n = bytes_ready v.replicas v.rep_count pipe in
      let v' = send_pipe os pipe chosen v in
      (v'.log
        ≡ writes (ext_pipe v pipe).fd_out (take n (contents (vot_pipe v.replicas chosen pipe)))
          ∷ v.log)
      × (contents (vot_pipe v'.replicas r pipe) ≡ drop n (contents (vot_pipe v.replicas r pipe)))
      × (vot_pipe v'.replicas r q ≡ vot_pipe v.replicas r q)
      × (v'.timer_started ≡ (if pipe == v.timer_stop_index then false else v.timer_started))
send_pipe_lem os pipe chosen v r q busy lt slots valid lt_r ne =
    rw (send_pipe_busy os pipe chosen v busy) (
      ground (
        arith,
        sent.logged,
        copy_buffer-contents (vot_pipe v.replicas chosen pipe) n valid,
        le chosen,
      ),
      ap contents (sent.done r lt_r)
          ∙ contents-fake_to_pipe (vot_pipe v.replicas r pipe) n (le r lt_r),
      sent.others r q ne,
      refl,
    )
  where
    n : ℕ
    n = bytes_ready v.replicas v.rep_count pipe

    le : (j : ℕ) → j < v.rep_count → n ≤ count_at v.replicas j pipe
    le j h = bytes_ready-le v.replicas v.rep_count pipe j h

    sent : Sent os pipe chosen (ext_pipe v pipe).fd_out n v.replicas v.log v.rep_count (
        for_up v.rep_count 0
          (send_one os pipe chosen (ext_pipe v pipe).fd_out n)
          (v.replicas, v.log))
    sent = loop-Sent os pipe chosen (ext_pipe v pipe).fd_out n v.replicas v.log v.rep_count slots le
