-- ===== src/CommTypes/Buffers.antt =====
-- The round trip of a message buffer through commSendMsgBuffer and commRecvMsgBuffer.
use pint.Common.{
  ℕ, ◌<◌, ◌≡◌, ◌≢◌, refl, ap, sym, ◌∙◌, List, [], ◌∷◌, ◌++◌, some, arith, length, take, drop,
}
use pint.Common.Int.{ℤ, pos, pos_part}
use pint.Os.{Os, Log, reads, writes}
use pint.CommTypes.Types.{TypedPipe, msg_buffer}
use pint.CommTypes.Bytes.{int_bytes, int_at, IsInt, int_at-int_bytes, int_at-take_bytes}
use pint.CommTypes.Messages.{MsgBuffer, comm_send_msg_buffer, comm_recv_msg_buffer}

sent-message :
    (os : Os) (from : TypedPipe) (msg : MsgBuffer) (w : Log) (bytes : List ℕ)
    → from.fd_out ≢ 0
    → from.type ≡ msg_buffer
    → (comm_send_msg_buffer os from msg w).1 ≡ writes from.fd_out bytes ∷ w
    → bytes ≡ int_bytes msg.len ++ take (pos_part msg.len) msg.message
unfolding comm_send_msg_buffer
sent-message os from msg w bytes fd t e = ground arith

pub recv-two_reads :
    (os : Os) (to : TypedPipe) (old : MsgBuffer) (u : Log) (header body : List ℕ) (n : ℕ)
    → to.fd_in ≢ 0
    → to.type ≡ msg_buffer
    → os.read_answer u to.fd_in 4 ≡ some header
    → os.read_answer (reads to.fd_in 4 ∷ u) to.fd_in n ≡ some body
    → length header ≡ 4
    → int_at header 0 ≡ pos n
    → 0 < n
    → comm_recv_msg_buffer os to old u ≡ (
      pos (length body),
      record { len = pos n; message = body },
      reads to.fd_in n ∷ reads to.fd_in 4 ∷ u,
    )
unfolding comm_recv_msg_buffer
recv-two_reads os to old u header body n fd t first second l1 count some_bytes = ground arith

take_whole : (l : List ℕ) → take (length l) l ≡ l
take_whole [] = refl
take_whole (a ∷ l) = ap (λ r. a ∷ r) (take_whole l)

drop-header : (z : ℤ) (rest : List ℕ) → drop 4 (int_bytes z ++ rest) ≡ rest
unfolding int_bytes
drop-header z rest = refl

length-header : (z : ℤ) (rest : List ℕ) → length (take 4 (int_bytes z ++ rest)) ≡ 4
unfolding int_bytes
length-header z rest = refl

-- A message buffer of n bytes, n at least 1 and an int, written by commSendMsgBuffer in one write
-- and read back by commRecvMsgBuffer in two, length and bytes, arrives: the receiver returns n and
-- holds the length and the n bytes.
pub msg_buffer_arrives :
    (os : Os) (from to : TypedPipe) (msg old : MsgBuffer) (n : ℕ) (bytes : List ℕ) (w u : Log)
    → msg.len ≡ pos n
    → 0 < n
    → IsInt msg.len
    → length msg.message ≡ n
    → from.fd_out ≢ 0
    → from.type ≡ msg_buffer
    → to.fd_in ≢ 0
    → to.type ≡ msg_buffer
    → (comm_send_msg_buffer os from msg w).1 ≡ writes from.fd_out bytes ∷ w
    → os.read_answer u to.fd_in 4 ≡ some (take 4 bytes)
    → os.read_answer (reads to.fd_in 4 ∷ u) to.fd_in n ≡ some (drop 4 bytes)
    → let (ret, m, u') = comm_recv_msg_buffer os to old u in
      (ret ≡ pos n) × (m.len ≡ msg.len) × (m.message ≡ msg.message)
msg_buffer_arrives os from to msg old n bytes w u len_n some_bytes int sized fd t fd' t' sent first
      second =
    rw received (ap pos (ap length body ∙ sized), sym len_n, body)
  where
    same : bytes ≡ int_bytes msg.len ++ take (pos_part msg.len) msg.message
    same = sent-message os from msg w bytes fd t sent

    whole : take (pos_part msg.len) msg.message ≡ msg.message
    whole = rw (len_n, ← sized) (take_whole msg.message)

    body : drop 4 bytes ≡ msg.message
    body = rw same (drop-header msg.len (take (pos_part msg.len) msg.message) ∙ whole)

    header : int_at (take 4 bytes) 0 ≡ pos n
    header =
        int_at-take_bytes bytes 4 0 (omega arith)
        ∙ ap (λ b. int_at b 0) same
        ∙ int_at-int_bytes msg.len (take (pos_part msg.len) msg.message) int
        ∙ len_n

    received : comm_recv_msg_buffer os to old u ≡ (
      pos (length (drop 4 bytes)),
      record { len = pos n; message = drop 4 bytes },
      reads to.fd_in n ∷ reads to.fd_in 4 ∷ u,
    )
    received =
        recv-two_reads os to old u (take 4 bytes) (drop 4 bytes) n fd' t' first second
          (rw same (length-header msg.len (take (pos_part msg.len) msg.message))) header some_bytes
