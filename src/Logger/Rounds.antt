-- ===== src/Logger/Rounds.antt =====
-- The loop of controllers/logger.c.
use mathlib.Core.Option
use pint.Common.{
  ℕ, zero, suc, ◌-◌, Bool, true, false, not, ◌&&◌, List, [], ◌∷◌, Option, none, some, ◌==◌,
  if◌then◌else◌, length, get_or, for_up, listed, ◌>>=◌,
}
use pint.Common.Int.{pos}
use pint.Os.{Os, Log, read, selects, contains}
use pint.CommTypes.Types.{TypedPipe}
use pint.CommTypes.Fixed.{RangePoseData}
use pint.CommTypes.Messages.{MsgBuffer, is_msg_buffer, comm_recv_msg_buffer}
use pint.Logger.{Doubles, Logger, logged, no_pipe, on_data}

-- What %s prints: the bytes up to the first NUL. `none`: there is none in the message, and the read
-- goes on behind it.
unfoldable pub printed : List ℕ → Option (List ℕ)
printed [] = none
printed (b ∷ bytes) = elim (b == 0) [
  | true ↦ some []
  | false ↦ Option.map (λ text. b ∷ text) (printed bytes)
]

-- `struct comm_msg_buffer msg` before it is received.
abbrev pub no_message : MsgBuffer
no_message = record { len = pos 0; message = [] }

-- commRecvMsgBuffer gets as far as setting msg.message.
unfoldable pub is_received : Os → TypedPipe → Log → Bool
unfolding is_msg_buffer
is_received os pipe w =
    not (pipe.fd_in == 0)
    && is_msg_buffer pipe.type
    && (elim (os.read_answer w pipe.fd_in 4) [ none ↦ false | some header ↦ length header == 4 ])

-- A message that was received is written to the file, unless the robot has finished.
unfoldable pub log_message : {D : Type 0} → List ℕ → Logger D → Option (Logger D)
unfolding printed
log_message message st =
    if st.finished
    then some st
    else printed message >>= λ text. some (record st { lines = logged text ∷ st.lines })

-- `none`: an unset msg.message is freed.
unfoldable pub on_message : {D : Type 0} → Os → TypedPipe → Logger D → Log → Option (Logger D × Log)
unfolding is_received log_message comm_recv_msg_buffer
on_message os pipe st w =
    let (retval, msg, w') = comm_recv_msg_buffer os pipe no_message w in
    if is_received os pipe w then (log_message msg.message st >>= λ st'. some (st', w')) else none

-- Pipe i, in the loop over the pipes of messages.
unfoldable pub serve_message :
    {D : Type 0}
    → Os
    → List TypedPipe
    → List ℕ
    → ℕ
    → Option (Logger D × Log)
    → Option (Logger D × Log)
unfolding on_message
serve_message os pipes ready i none = none
serve_message os pipes ready i (some (st, w)) =
    let pipe = get_or pipes i no_pipe in
    if contains ready pipe.fd_in then on_message os pipe st w else some (st, w)

module _ {D : Type 0} (d : Doubles D) (from_bytes : List ℕ → RangePoseData D) (os : Os)
    (pipes : List TypedPipe) (pipe_count : ℕ) where
  unfoldable pub serve_data : List ℕ → Logger D → Log → Logger D × Log
  unfolding read on_data
  serve_data ready st w =
      let fd = (get_or pipes 0 no_pipe).fd_in in
      if contains ready fd
      then on_data d from_bytes os pipes pipe_count (read os fd 152 w).0 st (read os fd 152 w).1
      else (st, w)

  -- One round of enterLoop.
  unfoldable pub logger_round : Logger D → Log → Option (Logger D × Log)
  unfolding serve_data serve_message
  logger_round st w =
      let fds =
        (get_or pipes 0 no_pipe).fd_in
        ∷ listed (pipe_count - 1) 1 (λ i. (get_or pipes i no_pipe).fd_in) in
      let w1 : Log = selects fds (pos 1000000) ∷ w in
      elim (os.select_answer w1) [
        | none ↦ some (st, w1)
        | some ready ↦
            for_up (pipe_count - 1) 1 (serve_message os pipes ready) (some (serve_data ready st w1))
      ]

  -- `none`: one of the rounds has used memory that the program does not have.
  unfoldable pub logger_rounds : ℕ → Option (Logger D × Log) → Option (Logger D × Log)
  unfolding logger_round
  logger_rounds zero o = o
  logger_rounds (suc rounds) none = none
  logger_rounds (suc rounds) (some (st, w)) = logger_rounds rounds (logger_round st w)
