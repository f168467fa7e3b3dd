-- ===== src/Voter/Launched.antt =====
-- The loops of parseArgs of voter/voterd.c on the arguments that the plumber writes.
use pint.Common.{
  ℕ, zero, suc, ◌+◌, ◌≤◌, ◌<◌, ◌≡◌, refl, Bool, List, some, arith, length, set, Filled,
  Filled-nothing, Filled-step, length-set, bind_of, listed,
}
use pint.Os.{Os}
use pint.CommTypes.Types.{TypedPipe}
use pint.CommTypes.Serial.{Scanf, ReadsBack, HasIntFds}
use pint.Replicas.Types.{ExtPipe, blank_ext}
use pint.Voter.State.{Voter, ext_pipe}
use pint.Voter.Arguments.{parse_pipe, parse_pipes}
use pint.Voter.Launch.{timed_text, connected, parse_pipe-timed_text}

module _ (os : Os) (s : Scanf) (law : ReadsBack os s) (pipes : ℕ → TypedPipe)
    (timed : ℕ → Bool) where
  -- Pipe i, stored into an entry.
  abbrev pub stored : ℕ → ExtPipe → ExtPipe
  stored i = connected (pipes i) (timed i)

  pub parse_pipes-listed :
      (limit count first last : ℕ) (v : Voter)
      → first + count ≡ last
      → count ≤ limit
      → last ≤ length v.ext_pipes
      → ((i : ℕ) → i < last → HasIntFds (pipes i))
      → (exts : List ExtPipe) × (parse_pipes s limit
            (listed count first (λ i. timed_text os (pipes i) (timed i)))
            (record v { pipe_count = first })
          ≡ some (record v { ext_pipes = exts; pipe_count = last }))
        × Filled blank_ext stored first last v.ext_pipes exts
  unfolding parse_pipes listed
  parse_pipes-listed zero zero first last v sum le room fits =
      let e : last ≡ first = omega arith in
      (v.ext_pipes, rw e refl, rw e (Filled-nothing blank_ext stored first v.ext_pipes))
  parse_pipes-listed (suc limit) zero first last v sum le room fits =
      let e : last ≡ first = omega arith in
      (v.ext_pipes, rw e refl, rw e (Filled-nothing blank_ext stored first v.ext_pipes))
  parse_pipes-listed zero (suc count) first last v sum le room fits = absurd (omega arith)
  parse_pipes-listed (suc limit) (suc count) first last v sum le room fits =
      let pipe = connected (pipes first) (timed first) (ext_pipe v first) in
      let u = record v { ext_pipes = set v.ext_pipes first pipe } in
      let (exts, e, f) =
        parse_pipes-listed limit count (first + 1) last u (omega arith) (omega arith)
          (omega (arith, length-set v.ext_pipes first pipe)) fits in
      (
        exts,
        bind_of (parse_pipe s (timed_text os (pipes first) (timed first)) (ext_pipe v first))
            (λ p.
              parse_pipes s limit
                (listed count (first + 1) (λ i. timed_text os (pipes i) (timed i)))
                (record v { ext_pipes = set v.ext_pipes first p; pipe_count = first + 1 }))
            pipe _
            (parse_pipe-timed_text os s law (pipes first) (timed first) (ext_pipe v first)
              (fits first (omega arith)))
            e,
        Filled-step blank_ext stored first last v.ext_pipes exts (omega arith) f,
      )
