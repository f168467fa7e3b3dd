-- ===== src/VoteBuff/Queue.antt =====
-- What vote_buff.c promises: a FIFO of fewer than MAX_VOTE_PIPE_BUFF bytes.
use pint.Common.{
  ℕ, ◌+◌, List, [], ◌∷◌, ◌++◌, Option, none, some, ltb, if◌then◌else◌, length, take, drop,
}
use pint.Common.Int.{ℤ, pos, negsuc}
use pint.VoteBuff.{max_buff}

abbrev pub Queue : Type 0
Queue = List ℕ

-- What a read brings is appended whole, or refused whole.
unfoldable pub receive : Option (List ℕ) → Queue → ℤ × Queue
receive none q = (negsuc 0, q)
receive (some []) q = (negsuc 0, q)
receive (some (b ∷ bytes)) q =
    if ltb (length q + length (b ∷ bytes)) max_buff
    then (pos 0, q ++ (b ∷ bytes))
    else (negsuc 0, q)

-- The status, the bytes sent, and what is left.
unfoldable pub send : ℕ → Queue → ℤ × Option (List ℕ) × Queue
send n q = if ltb (length q) n then (negsuc 0, none, q) else (pos 0, some (take n q), drop n q)
