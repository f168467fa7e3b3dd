-- ===== src/Echo/Tests.antt =====
-- controllers/generic_empty.c in two rounds, of which the second one only spins.
use pint.Common.Int.{pos}
use pint.Common.{◌≡◌, refl, true, false, [], ◌∷◌, some}
use pint.Os.{Os, contains, reads, writes, selects}
use pint.CommTypes.Types.{TypedPipe, range_pose_data, mov_cmd}
use pint.Samples
use pint.Echo.{echo_rounds}

abbrev os : Os
os = record Samples.os {
  select_answer = λ w. some (7 ∷ []);
  read_answer = λ w fd max. some (1 ∷ 2 ∷ []);
}

abbrev read_in : TypedPipe
read_in = record { type = range_pose_data; fd_in = 7; fd_out = 0 }

abbrev write_out : TypedPipe
write_out = record { type = mov_cmd; fd_in = 0; fd_out = 8 }

-- What has been read is written, and then the process only spins.
echoed_once :
    echo_rounds os read_in write_out (false ∷ true ∷ []) []
    ≡ writes 8 (1 ∷ 2 ∷ []) ∷ reads 7 4096 ∷ selects (7 ∷ []) (pos 1000000) ∷ []
unfolding echo_rounds contains
echoed_once = refl
