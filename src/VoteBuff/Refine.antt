-- ===== src/VoteBuff/Refine.antt =====
-- pipeToBuff, buffToPipe and fakeToPipe of vote_buff.c against the FIFO of VoteBuff.Queue.
use pint.Common.{
  ℕ, ◌+◌, ◌-◌, ◌≤◌, ◌≡◌, refl, ◌∙◌, sym, List, [], ◌∷◌, Option, none, some, arith, length, drop,
}
use pint.Os.{Os, Log, reads, writes}
use pint.VoteBuff.{VotePipe, max_buff, put_bytes, pipe_to_buff, fake_to_pipe, buff_to_pipe}
use pint.VoteBuff.Contents.{
  contents, IsValid, length-window, window_mod, drop-window, copy_buffer-contents,
}
use pint.VoteBuff.Insert.{put_bytes-IsValid, contents-put_bytes}
use native.Mathlib.Decide.{dec_lt}
use pint.VoteBuff.Queue.{Queue, receive, send}

length-contents : (p : VotePipe) → length (contents p) ≡ p.buff_count
length-contents p = length-window p.buffer p.buff_index p.buff_count

pub fake_to_pipe-IsValid : (p : VotePipe) (n : ℕ) → IsValid p → IsValid (fake_to_pipe p n)
unfolding fake_to_pipe
fake_to_pipe-IsValid p n v = omega arith

fd_in-fake_to_pipe : (p : VotePipe) (n : ℕ) → (fake_to_pipe p n).fd_in ≡ p.fd_in
unfolding fake_to_pipe
fd_in-fake_to_pipe p n = refl

-- Advancing the ring drops the oldest bytes.
pub contents-fake_to_pipe :
    (p : VotePipe) (n : ℕ) → n ≤ p.buff_count → contents (fake_to_pipe p n) ≡ drop n (contents p)
unfolding fake_to_pipe
contents-fake_to_pipe p n le =
    window_mod p.buffer (p.buff_index + n) (p.buff_count - n)
    ∙ sym (drop-window p.buffer p.buff_index n p.buff_count le)

frame-put_bytes :
    (p : VotePipe) (bytes : List ℕ)
    → ((put_bytes p bytes).fd_in ≡ p.fd_in)
      × ((put_bytes p bytes).fd_out ≡ p.fd_out)
      × ((put_bytes p bytes).buff_index ≡ p.buff_index)
unfolding put_bytes
frame-put_bytes p bytes = (refl, refl, refl)

stored :
    (os : Os) (p : VotePipe) (w : Log) (answer : Option (List ℕ))
    → os.read_answer w p.fd_in max_buff ≡ answer
    → IsValid p
    → let (s, p', w') = pipe_to_buff os p w in
      ((s, contents p') ≡ receive answer (contents p))
      × IsValid p'
      × (p'.fd_in ≡ p.fd_in)
      × (p'.fd_out ≡ p.fd_out)
      × (p'.buff_index ≡ p.buff_index)
      × (w' ≡ reads p.fd_in max_buff ∷ w)
unfolding pipe_to_buff receive
stored os p w none e v = ground arith
stored os p w (some []) e v = ground arith
stored os p w (some (b ∷ bytes)) e v = elim (dec_lt (p.buff_count + length (b ∷ bytes)) max_buff) [
  | yes room ↦ ground (
    arith,
    length-contents p,
    put_bytes-IsValid p (b ∷ bytes) v room,
    contents-put_bytes p (b ∷ bytes) v room,
    frame-put_bytes p (b ∷ bytes),
  )
  | no full ↦ ground (arith, length-contents p)
]

-- pipeToBuff reads once. It appends what it read to the contents and returns 0 if that leaves the
-- pipe below its capacity; on an error, at the end of the file, and when it does not fit, it
-- returns -1 and changes nothing. A well-formed pipe stays well formed, with its descriptors and
-- its index.
pub pipe_to_buff_refines :
    (os : Os) (p : VotePipe) (w : Log)
    → IsValid p
    → let (s, p', w') = pipe_to_buff os p w in
      ((s, contents p') ≡ receive (os.read_answer w p.fd_in max_buff) (contents p))
      × IsValid p'
      × (p'.fd_in ≡ p.fd_in)
      × (p'.fd_out ≡ p.fd_out)
      × (p'.buff_index ≡ p.buff_index)
      × (w' ≡ reads p.fd_in max_buff ∷ w)
pipe_to_buff_refines os p w v = stored os p w (os.read_answer w p.fd_in max_buff) refl v

-- What a call of write logs.
abbrev pub logged : ℕ → Option (List ℕ) → Log → Log
logged fd none w = w
logged fd (some bytes) w = writes fd bytes ∷ w

-- buffToPipe writes the oldest n bytes to fd_out in one call and drops them, or, asked for more
-- than the pipe holds, returns -1, writes nothing and changes nothing. A well-formed pipe stays
-- well formed, with its read descriptor.
pub buff_to_pipe_refines :
    (os : Os) (p : VotePipe) (fd_out n : ℕ) (w : Log)
    → IsValid p
    → let (s, p', w') = buff_to_pipe os p fd_out n w in
      let (s', sent, q) = send n (contents p) in
      (s ≡ s') × (contents p' ≡ q) × (w' ≡ logged fd_out sent w) × IsValid p' × (p'.fd_in ≡ p.fd_in)
unfolding buff_to_pipe send
buff_to_pipe_refines os p fd_out n w v = ground (
  arith,
  length-contents p,
  copy_buffer-contents p n v,
  contents-fake_to_pipe p n,
  fake_to_pipe-IsValid p n v,
  fd_in-fake_to_pipe p n,
)

-- What the two ends of a pipe may ask of it, one after another.
pub data Op : Type 0 where
  receives : Op
  sends : (fd n : ℕ) → Op

pub run : Os → VotePipe → List Op → Log → VotePipe × Log
run os p [] w = (p, w)
run os p (receives ∷ ops) w = let (s, p', w') = pipe_to_buff os p w in run os p' ops w'
run os p (sends fd n ∷ ops) w = let (s, p', w') = buff_to_pipe os p fd n w in run os p' ops w'

-- The same over the FIFO.
pub run_queue : Os → ℕ → Queue → List Op → Log → Queue × Log
unfolding receive send
run_queue os fd_in q [] w = (q, w)
run_queue os fd_in q (receives ∷ ops) w =
    run_queue os fd_in (receive (os.read_answer w fd_in max_buff) q).1 ops
      (reads fd_in max_buff ∷ w)
run_queue os fd_in q (sends fd n ∷ ops) w =
    let (s, sent, q') = send n q in run_queue os fd_in q' ops (logged fd sent w)

-- Over any sequence of reads into a well-formed vote pipe and writes out of it, the system calls
-- made, with every byte written, are those of the FIFO, and what the pipe holds at the end is the
-- FIFO's rest.
pub run_refines :
    (os : Os) (p : VotePipe) (ops : List Op) (w : Log)
    → IsValid p
    → let (p', w') = run os p ops w in
      ((contents p', w') ≡ run_queue os p.fd_in (contents p) ops w) × IsValid p'
unfolding run run_queue
run_refines os p [] w v = (refl, v)
run_refines os p (receives ∷ ops) w v =
    let h = pipe_to_buff_refines os p w v in
    let ih = run_refines os (pipe_to_buff os p w).1 ops (pipe_to_buff os p w).2 h.1 in
    ground (arith, h, ih)
run_refines os p (sends fd n ∷ ops) w v =
    let h = buff_to_pipe_refines os p fd n w v in
    let ih = run_refines os (buff_to_pipe os p fd n w).1 ops (buff_to_pipe os p fd n w).2 h.3 in
    ground (arith, h, ih)
