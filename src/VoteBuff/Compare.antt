-- ===== src/VoteBuff/Compare.antt =====
-- compareBuffs and copyPipe of vote_buff.c, by the contents of the two pipes.
use pint.Common.{
  ℕ, ◌+◌, ◌-◌, ◌%◌, ◌≤◌, ◌<◌, ◌≡◌, refl, ◌↔◌, ap, arith, length, get_or, take, eq_of_get_or,
}
use pint.Common.Int.{pos}
use pint.VoteBuff.{VotePipe, max_buff, compare_buffs, copy_pipe}
use native.Mathlib.Decide.{ℕ_discrete, dec_lt}
use pint.VoteBuff.Memory.{
  memcmp-append_iff, slice, splice, memcmp_iff, length-slice, length-splice, get_or-splice,
  get_or-slice,
}
use pint.VoteBuff.Contents.{
  contents, IsValid, length-window, get_or-window, slice-window, slices-window, take-window,
}

module _ (a b : VotePipe) (n : ℕ) (va : IsValid a) (vb : IsValid b) (la : n ≤ a.buff_count)
    (lb : n ≤ b.buff_count) (same : a.buff_index ≡ b.buff_index) where
  compare_flat :
      a.buff_index + n < max_buff
      → (compare_buffs a b n ≡ pos 0) ↔ (take n (contents a) ≡ take n (contents b))
  unfolding compare_buffs
  compare_flat fits = ground (
    arith,
    va,
    vb,
    memcmp_iff (slice a.buffer a.buff_index n) (slice b.buffer b.buff_index n),
    length-slice a.buffer a.buff_index n,
    length-slice b.buffer b.buff_index n,
    slice-window a.buffer a.buff_index n,
    slice-window b.buffer b.buff_index n,
    take-window a.buffer a.buff_index n a.buff_count,
    take-window b.buffer b.buff_index n b.buff_count,
  )

  compare_wrapped :
      max_buff ≤ a.buff_index + n
      → (compare_buffs a b n ≡ pos 0) ↔ (take n (contents a) ≡ take n (contents b))
  unfolding compare_buffs
  compare_wrapped wrap = ground (
    arith,
    va,
    vb,
    memcmp-append_iff (slice a.buffer a.buff_index (max_buff - a.buff_index))
        (slice b.buffer b.buff_index (max_buff - a.buff_index))
        (slice a.buffer 0 (n - (max_buff - a.buff_index)))
        (slice b.buffer 0 (n - (max_buff - a.buff_index))),
    length-slice a.buffer a.buff_index (max_buff - a.buff_index),
    length-slice b.buffer b.buff_index (max_buff - a.buff_index),
    length-slice a.buffer 0 (n - (max_buff - a.buff_index)),
    length-slice b.buffer 0 (n - (max_buff - a.buff_index)),
    slices-window a.buffer a.buff_index n,
    slices-window b.buffer b.buff_index n,
    take-window a.buffer a.buff_index n a.buff_count,
    take-window b.buffer b.buff_index n b.buff_count,
  )

-- compareBuffs returns 0 exactly when the two pipes stand at one index and agree on their first n
-- bytes, for well-formed pipes that hold n bytes.
pub compare_buffs_iff :
    (a b : VotePipe) (n : ℕ)
    → IsValid a
    → IsValid b
    → n ≤ a.buff_count
    → n ≤ b.buff_count
    → (compare_buffs a b n ≡ pos 0)
      ↔ ((a.buff_index ≡ b.buff_index) × (take n (contents a) ≡ take n (contents b)))
unfolding compare_buffs
compare_buffs_iff a b n va vb la lb = elim (ℕ_discrete a.buff_index b.buff_index) [
  | yes same ↦ elim (dec_lt (a.buff_index + n) max_buff) [
    | yes fits ↦
        let h = compare_flat a b n va vb la lb same fits in ((λ e. (same, h.0 e)), λ e. h.1 e.1)
    | no wrap ↦
        let h = compare_wrapped a b n va vb la lb same (omega arith) in
        ((λ e. (same, h.0 e)), λ e. h.1 e.1)
  ]
  | no differ ↦ ((λ e. ground arith), λ e. absurd (differ e.0))
]

module _ (dest src : VotePipe) (vd : IsValid dest) (vs : IsValid src) where
  abbrev part : ℕ
  part = max_buff - src.buff_index

  get_or-copy_pipe :
      (k : ℕ)
      → k < src.buff_count
      → get_or (copy_pipe dest src).buffer ((src.buff_index + k) % max_buff) 0
        ≡ get_or src.buffer ((src.buff_index + k) % max_buff) 0
  unfolding copy_pipe
  get_or-copy_pipe k lt = ground (
    arith,
    vd,
    vs,
    length-slice src.buffer src.buff_index src.buff_count,
    length-slice src.buffer src.buff_index part,
    length-slice src.buffer 0 (src.buff_count - part),
    get_or-slice src.buffer src.buff_index src.buff_count k,
    get_or-slice src.buffer src.buff_index part k,
    get_or-slice src.buffer 0 (src.buff_count - part) (k - part),
    get_or-splice dest.buffer src.buff_index (slice src.buffer src.buff_index src.buff_count)
        ((src.buff_index + k) % max_buff),
    get_or-splice dest.buffer src.buff_index (slice src.buffer src.buff_index part)
        ((src.buff_index + k) % max_buff),
    length-splice dest.buffer src.buff_index (slice src.buffer src.buff_index part),
    get_or-splice (splice dest.buffer src.buff_index (slice src.buffer src.buff_index part)) 0
        (slice src.buffer 0 (src.buff_count - part)) ((src.buff_index + k) % max_buff),
  )

  length-copy_pipe : length (copy_pipe dest src).buffer ≡ length dest.buffer
  unfolding copy_pipe
  length-copy_pipe = ground (
    arith,
    length-splice dest.buffer src.buff_index (slice src.buffer src.buff_index src.buff_count),
    length-splice dest.buffer src.buff_index (slice src.buffer src.buff_index part),
    length-splice (splice dest.buffer src.buff_index (slice src.buffer src.buff_index part)) 0
        (slice src.buffer 0 (src.buff_count - part)),
  )

  pub fields-copy_pipe : record {
    index : (copy_pipe dest src).buff_index ≡ src.buff_index;
    count : (copy_pipe dest src).buff_count ≡ src.buff_count;
    ins : (copy_pipe dest src).fd_in ≡ dest.fd_in;
    outs : (copy_pipe dest src).fd_out ≡ dest.fd_out;
  }
  unfolding copy_pipe
  fields-copy_pipe = record { index = refl; count = refl; ins = refl; outs = refl }

  pub copy_pipe-IsValid : IsValid (copy_pipe dest src)
  copy_pipe-IsValid = omega (arith, vd, vs, fields-copy_pipe, length-copy_pipe)

  pub contents-copy_pipe : contents (copy_pipe dest src) ≡ contents src
  contents-copy_pipe =
      eq_of_get_or _ _ 0
        (omega (
          arith,
          fields-copy_pipe,
          length-window (copy_pipe dest src).buffer (copy_pipe dest src).buff_index
              (copy_pipe dest src).buff_count,
          length-window src.buffer src.buff_index src.buff_count,
        ))
        λ k lt. ground (
          arith,
          fields-copy_pipe,
          length-window (copy_pipe dest src).buffer (copy_pipe dest src).buff_index
              (copy_pipe dest src).buff_count,
          get_or-window (copy_pipe dest src).buffer (copy_pipe dest src).buff_index
              (copy_pipe dest src).buff_count k,
          get_or-window src.buffer src.buff_index src.buff_count k,
          get_or-copy_pipe k,
        )

-- After copyPipe between well-formed pipes the destination holds the bytes of the source at the same index, is well formed,
-- keeps its own descriptors, and compares equal to the source on every prefix.
copy_pipe_agrees :
    (dest src : VotePipe) (n : ℕ)
    → IsValid dest
    → IsValid src
    → n ≤ src.buff_count
    → IsValid (copy_pipe dest src)
      × (contents (copy_pipe dest src) ≡ contents src)
      × ((copy_pipe dest src).fd_in ≡ dest.fd_in)
      × ((copy_pipe dest src).fd_out ≡ dest.fd_out)
      × (compare_buffs (copy_pipe dest src) src n ≡ pos 0)
copy_pipe_agrees dest src n vd vs le =
    let f = fields-copy_pipe dest src vd vs in
    let v = copy_pipe-IsValid dest src vd vs in
    let same = contents-copy_pipe dest src vd vs in
    (
      v,
      same,
      f.ins,
      f.outs,
      (compare_buffs_iff (copy_pipe dest src) src n v vs (omega (arith, f)) le).1
          (f.index, ap (take n) same),
    )
