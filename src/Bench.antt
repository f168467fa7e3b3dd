-- ===== src/Bench.antt =====
-- The loop of controllers/benchmarker.c, which stands between the translator and a replica and times
-- the answers (the build with TIME_FULL_BENCH, without TEST_IPC_ROUND).
pub mod Setup
mod Wired
mod Passed
mod Forwards
mod Tests
use pint.Common.{
  ℕ, zero, suc, Bool, true, false, List, [], ◌∷◌, Option, none, some, ◌==◌, if◌then◌else◌, length,
}
use pint.Common.Int.{pos}
use pint.Os.{Os, Log, read, write, selects, stamps, contains}
use pint.CommTypes.Types.{TypedPipe}
use pint.VoteBuff.{VotePipe}

-- A line printed, with the two times whose difference it shows. `none`: `last` has not been set.
pub data Report : Type 0 where
  late took : (now : ℕ) (last : Option ℕ) → Report

-- The local variables of enterLoop, and the lines printed, newest first.
pub record BenchMarker : Type 0 where
  pub waiting_response : Bool
  pub last : Option ℕ
  pub printed : List Report

-- trans_pipes[0] and [1], and the voter's ends of the replica's pipes 0 and 1.
pub record BenchPipes : Type 0 where
  pub from_trans : TypedPipe
  pub to_trans : TypedPipe
  pub to_replica : VotePipe
  pub from_replica : VotePipe

-- Before the loop.
abbrev pub first_bench : BenchMarker
first_bench = record { waiting_response = false; last = none; printed = [] }

module _ (os : Os) (pipes : BenchPipes) where
  -- New data while the answer to the data before is awaited.
  unfoldable pub note_late : BenchMarker → Log → BenchMarker × Log
  note_late st w =
      if st.waiting_response
      then (record st { printed = late (os.time_answer w) st.last ∷ st.printed }, stamps ∷ w)
      else (st, w)

  -- The write is tried once, as TEMP_FAILURE_RETRY stands around its comparison, and what it
  -- returns is only printed.
  unfoldable pub forward_data : List ℕ → BenchMarker → Log → BenchMarker × Log
  unfolding write
  forward_data bytes st w = (
    record st { waiting_response = true; last = some (os.time_answer w) },
    (write os pipes.to_replica.fd_out bytes (stamps ∷ w)).1,
  )

  -- Data of another size, the end of the file and errors are only printed.
  unfoldable pub on_data : Option (List ℕ) → BenchMarker → Log → BenchMarker × Log
  unfolding note_late forward_data
  on_data none st w = (st, w)
  on_data (some bytes) st w =
      if length bytes == 152
      then forward_data bytes (note_late st w).0 (note_late st w).1
      else (st, w)

  unfoldable pub forward_command : List ℕ → BenchMarker → Log → BenchMarker × Log
  unfolding write
  forward_command bytes st w = (
    record st { waiting_response = false; printed = took (os.time_answer w) st.last ∷ st.printed },
    (write os pipes.to_trans.fd_out bytes (stamps ∷ w)).1,
  )

  unfoldable pub on_command : Option (List ℕ) → BenchMarker → Log → BenchMarker × Log
  unfolding forward_command
  on_command none st w = (st, w)
  on_command (some bytes) st w = if length bytes == 16 then forward_command bytes st w else (st, w)

  unfoldable pub serve_data : List ℕ → BenchMarker → Log → BenchMarker × Log
  unfolding read on_data
  serve_data ready st w =
      let fd = pipes.from_trans.fd_in in
      if contains ready fd then on_data (read os fd 152 w).0 st (read os fd 152 w).1 else (st, w)

  unfoldable pub serve_command : List ℕ → BenchMarker → Log → BenchMarker × Log
  unfolding read on_command
  serve_command ready st w =
      let fd = pipes.from_replica.fd_in in
      if contains ready fd then on_command (read os fd 16 w).0 st (read os fd 16 w).1 else (st, w)

  -- What follows select, where `none` is a timeout or an error.
  unfoldable pub on_ready : Option (List ℕ) → BenchMarker → Log → BenchMarker × Log
  unfolding serve_data serve_command
  on_ready none st w = (st, w)
  on_ready (some ready) st w =
      serve_command ready (serve_data ready st w).0 (serve_data ready st w).1

  -- One round of enterLoop.
  unfoldable pub bench_round : BenchMarker → Log → BenchMarker × Log
  unfolding on_ready
  bench_round st w =
      let fds = pipes.from_trans.fd_in ∷ pipes.from_replica.fd_in ∷ [] in
      let w1 : Log = selects fds (pos 1000000) ∷ w in on_ready (os.select_answer w1) st w1

  unfoldable pub bench_rounds : ℕ → BenchMarker → Log → BenchMarker × Log
  unfolding bench_round
  bench_rounds zero st w = (st, w)
  bench_rounds (suc rounds) st w = bench_rounds rounds (bench_round st w).0 (bench_round st w).1
