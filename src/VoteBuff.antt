-- ===== src/VoteBuff.antt =====
-- voter/vote_buff.c and include/vote_buff.h: the buffer in which the voter keeps a replica's
-- output until it is voted on, a ring of MAX_VOTE_PIPE_BUFF bytes.
pub mod Memory
pub mod Contents
pub mod Queue
pub mod Insert
pub mod Compare
pub mod Refine
mod Tests
use Prim.Native.String.{String}
use text.Mathlib.Text.{◌==◌ as str_eq}
use pint.Common.{
  ℕ, ◌+◌, ◌-◌, ◌%◌, Bool, true, false, ◌||◌, not, List, [], ◌∷◌, ◌++◌, Option, none, some, ltb,
  ◌==◌, if◌then◌else◌, length, take, drop,
}
use pint.Common.Int.{ℤ, pos, negsuc, is_zero}
use pint.Os.{Os, Log, read, write, close}
use Memory.{slice, splice, memcmp}

abbrev pub max_buff : ℕ
max_buff = 4096

abbrev pub pipe_limit : ℕ
pipe_limit = 10

pub data Replication : Type 0 where
  none_rep smr dmr tmr rep_type_error : Replication

unfoldable pub reptype_to_enum : String → Replication
reptype_to_enum type =
    if str_eq type "NONE"
    then none_rep
    else if str_eq type "SMR"
    then smr
    else if str_eq type "DMR"
    then dmr
    else if str_eq type "TMR"
    then tmr
    else rep_type_error

unfoldable pub reptype_to_count : Replication → ℕ
reptype_to_count smr = 1
reptype_to_count dmr = 2
reptype_to_count tmr = 3
reptype_to_count none_rep = 0
reptype_to_count rep_type_error = 0

-- `struct vote_pipe`. A descriptor is 0 when it is not set.
pub record VotePipe : Type 0 where
  pub rep_info : String
  pub fd_in : ℕ
  pub fd_out : ℕ
  pub timed : Bool
  pub buff_count : ℕ
  pub buff_index : ℕ
  pub buffer : List ℕ

unfoldable pub close_set : ℕ → Log → Log
unfolding close
close_set fd w = if fd == 0 then w else close fd w

unfoldable pub reset_vote_pipe : VotePipe → Log → VotePipe × Log
reset_vote_pipe p w = (
  record p { fd_in = 0; fd_out = 0; buff_count = 0; buff_index = 0 },
  close_set p.fd_out (close_set p.fd_in w),
)

-- The two copies of pipeToBuff, behind its test for space.
unfoldable pub put_bytes : VotePipe → List ℕ → VotePipe
put_bytes p bytes =
    let read_count = length bytes in
    let end_index = (p.buff_index + p.buff_count) % max_buff in
    let wrapped = (end_index + read_count) % max_buff in
    let part_read = read_count - wrapped in
    record p {
      buff_count = p.buff_count + read_count;
      buffer =
          if ltb wrapped end_index
          then splice (splice p.buffer end_index (take part_read bytes)) 0 (drop part_read bytes)
          else splice p.buffer end_index bytes;
    }

-- Returns 0, or -1 for a read error, an end of file or a read that does not fit.
unfoldable pub pipe_to_buff : Os → VotePipe → Log → ℤ × VotePipe × Log
unfolding read
pipe_to_buff os p w =
    let (answer, w') = read os p.fd_in max_buff w in
    elim answer [
      | none ↦ (negsuc 0, p, w')
      | some bytes ↦
          if ltb 0 (length bytes)
          then (if ltb (length bytes) (max_buff - p.buff_count)
              then (pos 0, put_bytes p bytes, w')
              else (negsuc 0, p, w'))
          else (negsuc 0, p, w')
    ]

-- The n bytes that copyBuffer, and buffToPipe, gather from the ring.
unfoldable pub copy_buffer : VotePipe → ℕ → List ℕ
copy_buffer p n =
    let part_write = max_buff - p.buff_index in
    if ltb (p.buff_index + n) max_buff
    then slice p.buffer p.buff_index n
    else slice p.buffer p.buff_index part_write ++ slice p.buffer 0 (n - part_write)

-- C's `buff_count - n` where n is at most the count, as it is at both callers.
unfoldable pub fake_to_pipe : VotePipe → ℕ → VotePipe
fake_to_pipe p n = record p {
  buff_count = p.buff_count - n;
  buff_index = (p.buff_index + n) % max_buff;
}

-- The answer of write is not looked at.
unfoldable pub buff_to_pipe : Os → VotePipe → ℕ → ℕ → Log → ℤ × VotePipe × Log
unfolding write
buff_to_pipe os p fd_out n w =
    if ltb p.buff_count n
    then (negsuc 0, p, w)
    else (pos 0, fake_to_pipe p n, (write os fd_out (copy_buffer p n) w).1)

unfoldable pub compare_buffs : VotePipe → VotePipe → ℕ → ℤ
compare_buffs a b n =
    let part_cmp = max_buff - a.buff_index in
    let result =
      memcmp (slice a.buffer a.buff_index part_cmp) (slice b.buffer b.buff_index part_cmp) in
    if not (a.buff_index == b.buff_index)
    then negsuc 0
    else if ltb (a.buff_index + n) max_buff
    then memcmp (slice a.buffer a.buff_index n) (slice b.buffer b.buff_index n)
    else if not (is_zero result)
    then result
    else memcmp (slice a.buffer 0 (n - part_cmp)) (slice b.buffer 0 (n - part_cmp))

unfoldable pub copy_pipe : VotePipe → VotePipe → VotePipe
copy_pipe dest src =
    let part_cpy = max_buff - src.buff_index in
    record dest {
      buff_count = src.buff_count;
      buff_index = src.buff_index;
      buffer =
          if ltb (src.buff_index + src.buff_count) max_buff
          then splice dest.buffer src.buff_index (slice src.buffer src.buff_index src.buff_count)
          else splice (splice dest.buffer src.buff_index (slice src.buffer src.buff_index part_cpy))
              0 (slice src.buffer 0 (src.buff_count - part_cpy));
    }
