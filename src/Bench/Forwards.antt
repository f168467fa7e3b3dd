-- ===== src/Bench/Forwards.antt =====
-- What the loop of controllers/benchmarker.c passes on.
use pint.Common.{ℕ, zero, suc, ◌≢◌, refl, Bool-cases, inl, inr, List, [], ◌∷◌, Option, none, some}
use pint.Common.Int.{pos}
use pint.Os.{Os, Log, contains}
use pint.Streams.{selects-Paired}
use pint.Bench.{
  BenchMarker, BenchPipes, serve_data, serve_command, on_ready, bench_round, bench_rounds,
}
use pint.Bench.Passed.{Forwarded, Kept, data-Forwarded, command-Forwarded}

module _ (os : Os) (pipes : BenchPipes) (inputs : pipes.from_trans.fd_in ≢ pipes.from_replica.fd_in)
    (outputs : pipes.to_replica.fd_out ≢ pipes.to_trans.fd_out) where
  serve-data-Forwarded :
      (ready : List ℕ) (st : BenchMarker) (w : Log)
      → Forwarded os pipes st w
      → Kept os pipes (serve_data os pipes ready st w)
  unfolding serve_data
  serve-data-Forwarded ready st w h = elim (Bool-cases (contains ready pipes.from_trans.fd_in)) [
    | inl set ↦ rw set (data-Forwarded os pipes inputs outputs _ st w refl h)
    | inr clear ↦ rw clear h
  ]

  serve-command-Forwarded :
      (ready : List ℕ) (st : BenchMarker) (w : Log)
      → Forwarded os pipes st w
      → Kept os pipes (serve_command os pipes ready st w)
  unfolding serve_command
  serve-command-Forwarded ready st w h =
      elim (Bool-cases (contains ready pipes.from_replica.fd_in)) [
        | inl set ↦ rw set (command-Forwarded os pipes inputs outputs _ st w refl h)
        | inr clear ↦ rw clear h
      ]

  ready-Forwarded :
      (o : Option (List ℕ)) (st : BenchMarker) (w : Log)
      → Forwarded os pipes st w
      → Kept os pipes (on_ready os pipes o st w)
  unfolding on_ready
  ready-Forwarded none st w h = h
  ready-Forwarded (some ready) st w h =
      serve-command-Forwarded ready _ _ (serve-data-Forwarded ready st w h)

  round-Forwarded :
      (st : BenchMarker) (w : Log)
      → Forwarded os pipes st w
      → Kept os pipes (bench_round os pipes st w)
  unfolding bench_round
  round-Forwarded st w h =
      let fds = pipes.from_trans.fd_in ∷ pipes.from_replica.fd_in ∷ [] in
      ready-Forwarded _ st _ (record {
        ranges =
            selects-Paired _ os pipes.from_trans.fd_in pipes.to_replica.fd_out fds (pos 1000000) w
              h.ranges;
        moves =
            selects-Paired _ os pipes.from_replica.fd_in pipes.to_trans.fd_out fds (pos 1000000) w
              h.moves;
        timed = h.timed;
        late_set = h.late_set;
      })

  -- However often the loop runs, and whatever select, read and write answer, when the two inputs
  -- differ and so do the two outputs: the whole messages of the translator go to the replica and
  -- the whole commands of the replica to the translator, each of them once and in order, and
  -- nothing else does; and no line about late data is printed before `last` is set.
  pub bench_rounds-Forwarded :
      (rounds : ℕ) (st : BenchMarker) (w : Log)
      → Forwarded os pipes st w
      → Forwarded os pipes
          (bench_rounds os pipes rounds st w).0
          (bench_rounds os pipes rounds st w).1
  unfolding bench_rounds
  bench_rounds-Forwarded zero st w h = h
  bench_rounds-Forwarded (suc rounds) st w h =
      bench_rounds-Forwarded rounds _ _ (round-Forwarded st w h)
