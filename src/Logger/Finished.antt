-- ===== src/Logger/Finished.antt =====
-- A robot that has finished: controllers/logger.c does not log messages any more.
use pint.Common.{
  ℕ, zero, suc, ◌+◌, ◌-◌, listed, ◌≡◌, refl, true, List, [], ◌∷◌, Option, none, some, ◌==◌,
  if◌then◌else◌, length, get_or, for_up, for_up_inv, ◌>>=◌, OnSome, OnSome-bind, if_inv, subst, sym,
}
use pint.Common.Int.{pos}
use pint.Os.{Os, Call, Log, read, selects, contains}
use pint.CommTypes.Types.{TypedPipe}
use pint.CommTypes.Fixed.{RangePoseData, comm_copy_ranger}
use pint.CommTypes.Messages.{comm_recv_msg_buffer}
use pint.Logger.{
  Doubles, Logger, Line, progress, logged, no_pipe, pose_at, distance_of, log_progress, command,
  on_data,
}
use pint.Logger.Rounds.{
  printed, is_received, log_message, on_message, serve_message, serve_data, logger_round,
  logger_rounds, no_message,
}

-- The messages in the file.
unfoldable pub messages : {D : Type 0} → List (Line D) → List (List ℕ)
messages [] = []
messages (progress m v dist t x y ∷ lines) = messages lines
messages (logged text ∷ lines) = text ∷ messages lines

-- The robot has finished, with these messages in the file.
pub record Closed {D : Type 0} (texts : List (List ℕ)) (st : Logger D) : Type 0 where
  pub finished : st.finished ≡ true
  pub same : messages st.lines ≡ texts

module _ {D : Type 0} (d : Doubles D) (from_bytes : List ℕ → RangePoseData D) (os : Os)
    (pipes : List TypedPipe) (pipe_count : ℕ) (texts : List (List ℕ)) where
  command-Closed : (st : Logger D) (w : Log) → Closed texts st → Closed texts (command d os st w).0
  unfolding command log_progress messages
  command-Closed st w h =
      let near = d.lt (distance_of d (pose_at d st 0) (pose_at d st 1) d.seven d.seven) d.one in
      let done =
        if_inv (Closed texts) near (record st { finished = true })
          (if st.prev_time == 0 then st else log_progress d (os.time_answer w) st)
          (record { finished = refl; same = h.same })
          (if_inv (Closed texts) (st.prev_time == 0) st (log_progress d (os.time_answer w) st) h
            (record { finished = h.finished; same = h.same })) in
      record { finished = done.finished; same = done.same }

  on_data-Closed :
      (o : Option (List ℕ)) (st : Logger D) (w : Log)
      → Closed texts st
      → Closed texts (on_data d from_bytes os pipes pipe_count o st w).0
  unfolding on_data
  on_data-Closed none st w h = h
  on_data-Closed (some bytes) st w h =
      let copied = comm_copy_ranger d.zero_d (from_bytes bytes) st.ranges st.pose in
      let st' = record st { ranges = copied.0; pose = copied.1 } in
      if_inv (λ (r : Logger D × Log). Closed texts r.0) (length bytes == 152) (command d os st' w)
        (st, w) (command-Closed st' w (record { finished = h.finished; same = h.same })) h

  log_message-Closed :
      (message : List ℕ) (st : Logger D)
      → Closed texts st
      → OnSome (Closed texts) (log_message message st)
  unfolding log_message
  log_message-Closed message st h =
      subst
        (λ b. OnSome (Closed texts) (
          if b
          then some st
          else (printed message >>= λ text. some (record st { lines = logged text ∷ st.lines }))))
        (sym h.finished) h

  on_message-Closed :
      (pipe : TypedPipe) (st : Logger D) (w : Log)
      → Closed texts st
      → OnSome (λ r. Closed texts r.0) (on_message os pipe st w)
  unfolding on_message
  on_message-Closed pipe st w h =
      let r = comm_recv_msg_buffer os pipe no_message w in
      if_inv (OnSome (λ (q : Logger D × Log). Closed texts q.0)) (is_received os pipe w) _ none
        (OnSome-bind (Closed texts) (λ (q : Logger D × Log). Closed texts q.0)
          (log_message r.1.message st) (λ st'. some (st', r.2))
          (log_message-Closed r.1.message st h) (λ st' k. k))
        tt

  serve_message-Closed :
      (ready : List ℕ) (i : ℕ) (o : Option (Logger D × Log))
      → OnSome (λ r. Closed texts r.0) o
      → OnSome (λ r. Closed texts r.0) (serve_message os pipes ready i o)
  unfolding serve_message
  serve_message-Closed ready i none h = tt
  serve_message-Closed ready i (some (st, w)) h =
      let pipe = get_or pipes i no_pipe in
      if_inv (OnSome (λ (r : Logger D × Log). Closed texts r.0)) (contains ready pipe.fd_in) _ _
        (on_message-Closed pipe st w h) h

  logger_round-Closed :
      (st : Logger D) (w : Log)
      → Closed texts st
      → OnSome (λ r. Closed texts r.0) (logger_round d from_bytes os pipes pipe_count st w)
  unfolding logger_round serve_data
  logger_round-Closed st w h = by_answer (os.select_answer (wait ∷ w))
    where
      wait : Call
      wait =
          selects
            ((get_or pipes 0 no_pipe).fd_in
              ∷ listed (pipe_count - 1) 1 (λ i. (get_or pipes i no_pipe).fd_in))
            (pos 1000000)

      by_answer :
          (answer : Option (List ℕ))
          → OnSome
              (λ (r : Logger D × Log). Closed texts r.0)
              (elim answer as (λ a. Option (Logger D × Log)) [
                | none ↦ some (st, wait ∷ w)
                | some ready ↦
                    for_up
                      (pipe_count - 1)
                      1
                      (serve_message os pipes ready)
                      (some (serve_data d from_bytes os pipes pipe_count ready st (wait ∷ w)))
              ])
      by_answer none = h
      by_answer (some ready) =
          let fd = (get_or pipes 0 no_pipe).fd_in in
          let answered = read os fd 152 (wait ∷ w) in
          for_up_inv (λ i. OnSome (λ (r : Logger D × Log). Closed texts r.0))
            (serve_message os pipes ready) (pipe_count - 1) 1 (1 + (pipe_count - 1)) _ refl
            (λ i o lt k. serve_message-Closed ready i o k)
            (if_inv (λ (r : Logger D × Log). Closed texts r.0) (contains ready fd) _ (st, wait ∷ w)
              (on_data-Closed answered.0 st answered.1 h) h)

  rounds-Closed :
      (rounds : ℕ) (o : Option (Logger D × Log))
      → OnSome (λ r. Closed texts r.0) o
      → OnSome (λ r. Closed texts r.0) (logger_rounds d from_bytes os pipes pipe_count rounds o)
  unfolding logger_rounds
  rounds-Closed zero o h = h
  rounds-Closed (suc rounds) none h = tt
  rounds-Closed (suc rounds) (some (st, w)) h =
      rounds-Closed rounds (logger_round d from_bytes os pipes pipe_count st w)
        (logger_round-Closed st w h)

-- Once the robot has finished, it stays finished and no message is added to the file or removed,
-- however many rounds the logger's loop makes and whatever it reads, unless a round uses memory that
-- the program does not have.
pub logger_rounds-Closed :
    {D : Type 0} (d : Doubles D) (from_bytes : List ℕ → RangePoseData D) (os : Os)
    (pipes : List TypedPipe) (pipe_count rounds : ℕ) (st : Logger D) (w : Log)
    → st.finished ≡ true
    → OnSome
        (λ r. Closed (messages st.lines) r.0)
        (logger_rounds d from_bytes os pipes pipe_count rounds (some (st, w)))
logger_rounds-Closed d from_bytes os pipes pipe_count rounds st w h =
    rounds-Closed d from_bytes os pipes pipe_count (messages st.lines) rounds (some (st, w))
      (record { finished = h; same = refl })
