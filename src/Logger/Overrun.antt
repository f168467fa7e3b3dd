-- ===== src/Logger/Overrun.antt =====
-- Messages as controllers/load.c sends them, without a NUL, in controllers/logger.c.
use mathlib.Core.Option
use pint.Common.{
  ℕ, ◌<◌, ◌≡◌, ◌≢◌, refl, ap, ◌∙◌, Bool, true, false, List, [], ◌∷◌, none, some, arith, ◌==◌,
  if◌then◌else◌, length, ◌>>=◌,
}
use pint.Common.Int.{pos}
use pint.Os.{Os, Log, reads}
use pint.CommTypes.Types.{TypedPipe, msg_buffer}
use pint.CommTypes.Bytes.{int_at}
use pint.CommTypes.Buffers.{recv-two_reads}
use pint.Logger.{Logger, logged}
use pint.Logger.Rounds.{printed, is_received, log_message, on_message, no_message}

-- No byte is 0.
abbrev pub NoNul : List ℕ → Type 0
NoNul [] = Unit {0}
NoNul (b ∷ bytes) = (b ≢ 0) × NoNul bytes

printed-NoNul : (text : List ℕ) → NoNul text → printed text ≡ none
unfolding printed
printed-NoNul [] h = refl
printed-NoNul (b ∷ text) h =
    let e : (b == 0) ≡ false = ground (arith, h.0) in
    rw (printed, e) (ap (Option.map (λ t. b ∷ t)) (printed-NoNul text h.1))

log_message_running :
    {D : Type 0} (message : List ℕ) (st : Logger D)
    → st.finished ≡ false
    → log_message message st
      ≡ (printed message >>= λ text. some (record st { lines = logged text ∷ st.lines }))
unfolding log_message
log_message_running message st running =
    ap
      (λ (b : Bool).
        if b
        then some st
        else (printed message >>= λ text. some (record st { lines = logged text ∷ st.lines })))
      running

module _ (os : Os) (pipe : TypedPipe) (w : Log) (header body : List ℕ) (n : ℕ)
    (open_end : pipe.fd_in ≢ 0) (typed : pipe.type ≡ msg_buffer)
    (first : os.read_answer w pipe.fd_in 4 ≡ some header)
    (second : os.read_answer (reads pipe.fd_in 4 ∷ w) pipe.fd_in n ≡ some body)
    (whole : length header ≡ 4) (counted : int_at header 0 ≡ pos n) (some_bytes : 0 < n) where
  received : is_received os pipe w ≡ true
  unfolding is_received
  received =
      let set_fd : (pipe.fd_in == 0) ≡ false = ground (arith, open_end) in
      let four : (length header == 4) ≡ true = ground (arith, whole) in
      rw set_fd (rw typed (rw (is_received, first) four))

  module _ {D : Type 0} (st : Logger D) where
    on_message_read :
        on_message os pipe st w
        ≡ (log_message body st >>= λ st'. some (st', reads pipe.fd_in n ∷ reads pipe.fd_in 4 ∷ w))
    unfolding on_message
    on_message_read =
        let got =
          recv-two_reads os pipe no_message w header body n open_end typed first second whole
            counted some_bytes in
        rw received (rw got refl)

    -- A message with no NUL among its bytes, which commRecvMsgBuffer has received, makes the logger
    -- read behind it, unless the robot has finished.
    pub on_message-NoNul : st.finished ≡ false → NoNul body → on_message os pipe st w ≡ none
    on_message-NoNul running h =
        on_message_read
        ∙ ap (λ o. o >>= λ st'. some (st', reads pipe.fd_in n ∷ reads pipe.fd_in 4 ∷ w))
            (log_message_running body st running
              ∙ ap (λ o. o >>= λ text. some (record st { lines = logged text ∷ st.lines }))
                  (printed-NoNul body h))
