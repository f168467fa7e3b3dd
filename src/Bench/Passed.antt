-- ===== src/Bench/Passed.antt =====
-- What controllers/benchmarker.c does with what it has read.
use pint.Common.{
  ℕ, ◌≡◌, ◌≢◌, refl, Bool, true, false, Bool-cases, inl, inr, List, [], ◌∷◌, ◌==◌, sym, Option,
  none, some, length,
}
use pint.Os.{Os, Log, reads}
use pint.Streams.{
  Paired, Owed, on_answer, whole, stamps-Paired, reads-Paired, writes-Paired, silent-Paired,
  reads-Owed, stamps-Owed, pay-Paired,
}
use pint.Bench.{
  BenchMarker, BenchPipes, Report, late, took, note_late, forward_data, on_data, forward_command,
  on_command,
}

-- Every line about late data shows a time that has been set.
abbrev pub LateSet : List Report → Type 0
LateSet [] = Unit {0}
LateSet (late now last ∷ rest) = (last ≢ none) × LateSet rest
LateSet (took now last ∷ rest) = LateSet rest

module _ (os : Os) (pipes : BenchPipes) where
  -- All whole messages that were read have been written to the other side, once and in order, and
  -- nothing else; while an answer is awaited its time is set; and no line about late data shows an
  -- unset time.
  pub record Forwarded (st : BenchMarker) (w : Log) : Type 0 where
    pub ranges : Paired (whole 152) os pipes.from_trans.fd_in pipes.to_replica.fd_out w
    pub moves : Paired (whole 16) os pipes.from_replica.fd_in pipes.to_trans.fd_out w
    pub timed : st.waiting_response ≡ true → st.last ≢ none
    pub late_set : LateSet st.printed

  abbrev pub Kept : BenchMarker × Log → Type 0
  Kept (st, w) = Forwarded st w

  -- A whole message of ranges has been read and not yet passed on.
  record DataRead (bytes : List ℕ) (st : BenchMarker) (w : Log) : Type 0 where
    owed : Owed (whole 152) os pipes.from_trans.fd_in pipes.to_replica.fd_out bytes w
    moves : Paired (whole 16) os pipes.from_replica.fd_in pipes.to_trans.fd_out w
    timed : st.waiting_response ≡ true → st.last ≢ none
    late_set : LateSet st.printed

  -- A whole command has been read and not yet passed on.
  record CommandRead (bytes : List ℕ) (st : BenchMarker) (w : Log) : Type 0 where
    ranges : Paired (whole 152) os pipes.from_trans.fd_in pipes.to_replica.fd_out w
    owed : Owed (whole 16) os pipes.from_replica.fd_in pipes.to_trans.fd_out bytes w
    late_set : LateSet st.printed

  note_late-DataRead :
      (bytes : List ℕ) (waiting : Bool) (last : Option ℕ) (printed : List Report) (w : Log)
      → let st : BenchMarker = record {
        waiting_response = waiting;
        last = last;
        printed = printed;
      } in
        DataRead bytes st w → DataRead bytes (note_late os pipes st w).0 (note_late os pipes st w).1
  unfolding note_late
  note_late-DataRead bytes true last printed w h = record {
    owed = stamps-Owed _ os pipes.from_trans.fd_in pipes.to_replica.fd_out bytes w h.owed;
    moves = stamps-Paired _ os pipes.from_replica.fd_in pipes.to_trans.fd_out w h.moves;
    timed = h.timed;
    late_set = (h.timed refl, h.late_set);
  }
  note_late-DataRead bytes false last printed w h = h

  module _ (inputs : pipes.from_trans.fd_in ≢ pipes.from_replica.fd_in)
      (outputs : pipes.to_replica.fd_out ≢ pipes.to_trans.fd_out) where
    forward-data-Forwarded :
        (bytes : List ℕ) (st : BenchMarker) (w : Log)
        → DataRead bytes st w
        → Kept (forward_data os pipes bytes st w)
    unfolding forward_data
    forward-data-Forwarded bytes st w h = record {
      ranges =
          pay-Paired _ os pipes.from_trans.fd_in pipes.to_replica.fd_out bytes _
            (stamps-Owed _ os pipes.from_trans.fd_in pipes.to_replica.fd_out bytes w h.owed);
      moves =
          writes-Paired _ os pipes.from_replica.fd_in pipes.to_trans.fd_out pipes.to_replica.fd_out
            bytes _ outputs
            (stamps-Paired _ os pipes.from_replica.fd_in pipes.to_trans.fd_out w h.moves);
      timed = λ _ e. cc;
      late_set = h.late_set;
    }

    forward-command-Forwarded :
        (bytes : List ℕ) (st : BenchMarker) (w : Log)
        → CommandRead bytes st w
        → Kept (forward_command os pipes bytes st w)
    unfolding forward_command
    forward-command-Forwarded bytes st w h = record {
      ranges =
          writes-Paired _ os pipes.from_trans.fd_in pipes.to_replica.fd_out pipes.to_trans.fd_out
            bytes _ (λ e. outputs (sym e))
            (stamps-Paired _ os pipes.from_trans.fd_in pipes.to_replica.fd_out w h.ranges);
      moves =
          pay-Paired _ os pipes.from_replica.fd_in pipes.to_trans.fd_out bytes _
            (stamps-Owed _ os pipes.from_replica.fd_in pipes.to_trans.fd_out bytes w h.owed);
      timed = λ e. cc;
      late_set = h.late_set;
    }

    -- A read of ranges after which nothing is passed on.
    data-dropped :
        (st : BenchMarker) (w : Log)
        → on_answer (whole 152) (os.read_answer w pipes.from_trans.fd_in 152) ≡ []
        → Forwarded st w
        → Forwarded st (reads pipes.from_trans.fd_in 152 ∷ w)
    data-dropped st w e h = record {
      ranges = silent-Paired _ os pipes.from_trans.fd_in pipes.to_replica.fd_out 152 w e h.ranges;
      moves =
          reads-Paired _ os pipes.from_replica.fd_in pipes.to_trans.fd_out pipes.from_trans.fd_in
            152 w inputs h.moves;
      timed = h.timed;
      late_set = h.late_set;
    }

    command-dropped :
        (st : BenchMarker) (w : Log)
        → on_answer (whole 16) (os.read_answer w pipes.from_replica.fd_in 16) ≡ []
        → Forwarded st w
        → Forwarded st (reads pipes.from_replica.fd_in 16 ∷ w)
    command-dropped st w e h = record {
      ranges =
          reads-Paired _ os pipes.from_trans.fd_in pipes.to_replica.fd_out pipes.from_replica.fd_in
            16 w (λ e. inputs (sym e)) h.ranges;
      moves = silent-Paired _ os pipes.from_replica.fd_in pipes.to_trans.fd_out 16 w e h.moves;
      timed = h.timed;
      late_set = h.late_set;
    }

    pub data-Forwarded :
        (o : Option (List ℕ)) (st : BenchMarker) (w : Log)
        → os.read_answer w pipes.from_trans.fd_in 152 ≡ o
        → Forwarded st w
        → Kept (on_data os pipes o st (reads pipes.from_trans.fd_in 152 ∷ w))
    unfolding on_data on_answer whole
    data-Forwarded none st w e h = data-dropped st w (rw e refl) h
    data-Forwarded (some bytes) st w e h = elim (Bool-cases (length bytes == 152)) [
      | inl full ↦ rw full (
          forward-data-Forwarded bytes _ _ (
            note_late-DataRead bytes st.waiting_response st.last st.printed _ (record {
              owed =
                  reads-Owed _ os pipes.from_trans.fd_in pipes.to_replica.fd_out 152 bytes w
                    (rw (e, full) refl) h.ranges;
              moves =
                  reads-Paired _ os pipes.from_replica.fd_in pipes.to_trans.fd_out
                    pipes.from_trans.fd_in 152 w inputs h.moves;
              timed = h.timed;
              late_set = h.late_set;
            })))
      | inr partial ↦ rw partial (data-dropped st w (rw (e, partial) refl) h)
    ]

    pub command-Forwarded :
        (o : Option (List ℕ)) (st : BenchMarker) (w : Log)
        → os.read_answer w pipes.from_replica.fd_in 16 ≡ o
        → Forwarded st w
        → Kept (on_command os pipes o st (reads pipes.from_replica.fd_in 16 ∷ w))
    unfolding on_command on_answer whole
    command-Forwarded none st w e h = command-dropped st w (rw e refl) h
    command-Forwarded (some bytes) st w e h = elim (Bool-cases (length bytes == 16)) [
      | inl full ↦ rw full (
          forward-command-Forwarded bytes st _ (record {
            ranges =
                reads-Paired _ os pipes.from_trans.fd_in pipes.to_replica.fd_out
                  pipes.from_replica.fd_in 16 w (λ e. inputs (sym e)) h.ranges;
            owed =
                reads-Owed _ os pipes.from_replica.fd_in pipes.to_trans.fd_out 16 bytes w
                  (rw (e, full) refl) h.moves;
            late_set = h.late_set;
          }))
      | inr partial ↦ rw partial (command-dropped st w (rw (e, partial) refl) h)
    ]
