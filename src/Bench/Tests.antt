-- ===== src/Bench/Tests.antt =====
-- The theorem about controllers/benchmarker.c in two rounds from its start.
use pint.Common.{◌≡◌, List, length, get_or, ◌+◌, refl, [], ◌∷◌, some, replicate, arith}
use pint.Os.{Os, pipes, forks}
use pint.CommTypes.Types.{range_pose_data, mov_cmd}
use pint.Replicas.Types.{blank_pipe}
use pint.Samples
use pint.Samples.Scan.{printing, scanf, scanf-ReadsBack}
use Prim.Native.String.{String}
use pint.CommTypes.Serial.{ReadsBack}
use pint.Plumber.Boot.{read_pipes}
use pint.Bench.Setup.{init_bench}
use pint.Bench.Wired.{init_bench-wired}
use pint.Bench.{BenchPipes, first_bench, bench_rounds}
use pint.Bench.Passed.{Forwarded}
use pint.Bench.Forwards.{bench_rounds-Forwarded}

abbrev os : Os
os = record Samples.os {
  select_answer = λ w. some (7 ∷ 9 ∷ []);
  read_answer = λ w fd max. some (replicate max fd);
}

abbrev ends : BenchPipes
ends = record {
  from_trans = record { type = range_pose_data; fd_in = 7; fd_out = 0 };
  to_trans = record { type = mov_cmd; fd_in = 0; fd_out = 8 };
  to_replica = record blank_pipe { fd_out = 10 };
  from_replica = record blank_pipe { fd_in = 9 };
}

first-Forwarded : Forwarded os ends first_bench []
unfolding pint.Streams.Paired
first-Forwarded = record { ranges = refl; moves = refl; timed = λ e. cc; late_set = tt }

bench_rounds-Forwarded_example :
    Forwarded os ends
      (bench_rounds os ends 2 first_bench []).0
      (bench_rounds os ends 2 first_bench []).1
bench_rounds-Forwarded_example =
    bench_rounds-Forwarded os ends (omega arith) (omega arith) 2 first_bench [] first-Forwarded

-- Pipes get other descriptors with every call.
abbrev piping : Os
piping = record printing { pipe_answer = λ w. some (length w + 4, length w + 14) }

piping-ReadsBack : ReadsBack piping scanf
piping-ReadsBack = record { two = scanf-ReadsBack.two; three = scanf-ReadsBack.three }

init_bench-wired_example :
    let r = (init_bench piping ends.from_trans ends.to_trans []).0 in
    ((get_or r.vot_pipes 0 blank_pipe).fd_out ≡ 14)
    × ((get_or r.vot_pipes 1 blank_pipe).fd_in ≡ 5)
    × (args : List String) × ((init_bench piping ends.from_trans ends.to_trans []).1
        ≡ forks args ∷ pipes ∷ pipes ∷ [])
    × (read_pipes scanf args
        ≡ some (
          record { type = range_pose_data; fd_in = 4; fd_out = 0 },
          record { type = mov_cmd; fd_in = 0; fd_out = 15 },
        ))
init_bench-wired_example =
    init_bench-wired piping ends.from_trans ends.to_trans [] 4 14 5 15 refl refl (omega arith) refl
      scanf piping-ReadsBack (omega arith) (omega arith) (omega arith)
