-- ===== src/Voter/Launch.antt =====
-- What parseArgs of voter/voterd.c makes of the command line of plumber/plumbing.c.
use Prim.Native.String.{String, ◌++◌ as concat}
use pint.Common.{◌≡◌, refl, ap, ◌∙◌, Bool, true, false, [], ◌∷◌, some, arith, if◌then◌else◌}
use pint.Common.Int.{pos}
use pint.Os.{Os}
use pint.CommTypes.Types.{TypedPipe, message_name}
use pint.CommTypes.Serial.{
  Scanf, ReadsBack, HasIntFds, passed_end, passed_end-HasIntFds, pipe_text, serialize_pipe,
  serialize_pipe_lem,
}
use pint.Replicas.Types.{ExtPipe}
use pint.Voter.Arguments.{store_ext, parse_pipe}

-- The argument for a pipe.
abbrev pub timed_text : Os → TypedPipe → Bool → String
timed_text os p timed =
    concat (serialize_pipe os p) (concat ":" (os.decimal (if timed then pos 1 else pos 0)))

-- What the argument for a pipe makes of an entry of ext_pipes.
abbrev pub connected : TypedPipe → Bool → ExtPipe → ExtPipe
connected p timed e = record e {
  rep_info = message_name p.type;
  fd_in = (passed_end p).fd_in;
  fd_out = (passed_end p).fd_out;
  timed = timed;
}

module _ (os : Os) (s : Scanf) (law : ReadsBack os s) where
  scan-timed_text :
      (p : TypedPipe) (timed : Bool)
      → HasIntFds p
      → s.scan 3 (timed_text os p timed) ≡ (
        some (message_name p.type),
        (passed_end p).fd_in ∷ (passed_end p).fd_out ∷ (if timed then 1 else 0) ∷ [],
      )
  scan-timed_text p timed f =
      let g = passed_end-HasIntFds p f in
      ap (λ t. s.scan 3 (concat t (concat ":" (os.decimal (if timed then pos 1 else pos 0)))))
        (serialize_pipe_lem os p)
      ∙ by_flag timed g
    where
      by_flag :
          (timed : Bool)
          → HasIntFds (passed_end p)
          → s.scan 3 (
              concat
                (pipe_text os p.type (passed_end p).fd_in (passed_end p).fd_out)
                (concat ":" (os.decimal (if timed then pos 1 else pos 0))))
            ≡ (
              some (message_name p.type),
              (passed_end p).fd_in ∷ (passed_end p).fd_out ∷ (if timed then 1 else 0) ∷ [],
            )
      by_flag true g =
          law.three p.type (passed_end p).fd_in (passed_end p).fd_out 1 g.in_fits g.out_fits
            (omega arith)
      by_flag false g =
          law.three p.type (passed_end p).fd_in (passed_end p).fd_out 0 g.in_fits g.out_fits
            (omega arith)

  pub parse_pipe-timed_text :
      (p : TypedPipe) (timed : Bool) (e : ExtPipe)
      → HasIntFds p
      → parse_pipe s (timed_text os p timed) e ≡ some (connected p timed e)
  unfolding parse_pipe
  parse_pipe-timed_text p timed e f =
      ap (λ r. store_ext r e) (scan-timed_text p timed f) ∙ flag timed
    where
      flag :
          (timed : Bool)
          → store_ext
              (
                some (message_name p.type),
                (passed_end p).fd_in ∷ (passed_end p).fd_out ∷ (if timed then 1 else 0) ∷ [],
              )
              e
            ≡ some (connected p timed e)
      flag true = refl
      flag false = refl
