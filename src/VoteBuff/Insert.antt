-- ===== src/VoteBuff/Insert.antt =====
-- pipeToBuff of vote_buff.c: its copies, round the end of the array or not, append to the contents.
use pint.Common.{
  ℕ, ◌+◌, ◌-◌, ◌%◌, ◌<◌, ◌≡◌, List, ◌++◌, arith, length, get_or, take, drop, length-append,
  length-take, length-drop, eq_of_get_or, get_or-append, get_or-take, get_or-drop,
}
use pint.VoteBuff.{VotePipe, max_buff, put_bytes}
use pint.VoteBuff.Memory.{splice, length-splice, get_or-splice}
use pint.VoteBuff.Contents.{contents, IsValid, length-window, get_or-window}

length-put_bytes :
    (p : VotePipe) (bytes : List ℕ) → length (put_bytes p bytes).buffer ≡ length p.buffer
unfolding put_bytes
length-put_bytes p bytes = ground (
  arith,
  length-splice p.buffer ((p.buff_index + p.buff_count) % max_buff) bytes,
  length-splice p.buffer ((p.buff_index + p.buff_count) % max_buff) (
      take (length bytes - ((p.buff_index + p.buff_count) % max_buff + length bytes) % max_buff)
        bytes),
  length-splice
      (splice p.buffer ((p.buff_index + p.buff_count) % max_buff) (
        take (length bytes - ((p.buff_index + p.buff_count) % max_buff + length bytes) % max_buff)
          bytes))
      0
      (drop (length bytes - ((p.buff_index + p.buff_count) % max_buff + length bytes) % max_buff)
        bytes),
)

module _ (p : VotePipe) (bytes : List ℕ) (v : IsValid p)
    (room : p.buff_count + length bytes < max_buff) where
  abbrev end_index : ℕ
  end_index = (p.buff_index + p.buff_count) % max_buff

  abbrev part_read : ℕ
  part_read = length bytes - (end_index + length bytes) % max_buff

  -- Byte j of the array after the copies.
  get_or-put_old :
      (k : ℕ)
      → k < p.buff_count
      → get_or (put_bytes p bytes).buffer ((p.buff_index + k) % max_buff) 0
        ≡ get_or p.buffer ((p.buff_index + k) % max_buff) 0
  unfolding put_bytes
  get_or-put_old k lt = ground (
    arith,
    v,
    length-splice p.buffer end_index (take part_read bytes),
    length-take part_read bytes,
    length-drop part_read bytes,
    get_or-splice p.buffer end_index bytes ((p.buff_index + k) % max_buff),
    get_or-splice p.buffer end_index (take part_read bytes) ((p.buff_index + k) % max_buff),
    get_or-splice (splice p.buffer end_index (take part_read bytes)) 0 (drop part_read bytes)
        ((p.buff_index + k) % max_buff),
  )

  get_or-put_new :
      (k : ℕ)
      → k < length bytes
      → get_or (put_bytes p bytes).buffer ((p.buff_index + (p.buff_count + k)) % max_buff) 0
        ≡ get_or bytes k 0
  unfolding put_bytes
  get_or-put_new k lt = ground (
    arith,
    v,
    length-splice p.buffer end_index (take part_read bytes),
    length-take part_read bytes,
    length-drop part_read bytes,
    get_or-take part_read bytes k 0,
    get_or-drop part_read bytes (k - part_read) 0,
    get_or-splice p.buffer end_index bytes ((p.buff_index + (p.buff_count + k)) % max_buff),
    get_or-splice p.buffer end_index (take part_read bytes)
        ((p.buff_index + (p.buff_count + k)) % max_buff),
    get_or-splice (splice p.buffer end_index (take part_read bytes)) 0 (drop part_read bytes)
        ((p.buff_index + (p.buff_count + k)) % max_buff),
  )

  fields-put_bytes :
      ((put_bytes p bytes).buff_index ≡ p.buff_index)
      × ((put_bytes p bytes).buff_count ≡ p.buff_count + length bytes)
  unfolding put_bytes
  fields-put_bytes = omega arith

  pub put_bytes-IsValid : IsValid (put_bytes p bytes)
  put_bytes-IsValid = omega (arith, v, room, fields-put_bytes, length-put_bytes p bytes)

  pub contents-put_bytes : contents (put_bytes p bytes) ≡ contents p ++ bytes
  contents-put_bytes =
      eq_of_get_or _ _ 0
        (omega (
          arith,
          fields-put_bytes,
          length-append (contents p) bytes,
          length-window (put_bytes p bytes).buffer (put_bytes p bytes).buff_index
              (put_bytes p bytes).buff_count,
          length-window p.buffer p.buff_index p.buff_count,
        ))
        λ k lt. ground (
          arith,
          fields-put_bytes,
          length-window (put_bytes p bytes).buffer (put_bytes p bytes).buff_index
              (put_bytes p bytes).buff_count,
          get_or-window (put_bytes p bytes).buffer (put_bytes p bytes).buff_index
              (put_bytes p bytes).buff_count k,
          length-window p.buffer p.buff_index p.buff_count,
          get_or-append (contents p) bytes k 0,
          get_or-window p.buffer p.buff_index p.buff_count k,
          get_or-put_old k,
          get_or-put_new (k - p.buff_count),
        )
