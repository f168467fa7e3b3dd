-- ===== src/Echo.antt =====
-- controllers/generic_empty.c: a controller that writes what it reads to its output.
mod Relayed
mod Tests
use pint.Common.{ℕ, zero, suc, Bool, true, false, List, [], ◌∷◌, Option, none, some, if◌then◌else◌}
use pint.Common.Int.{pos}
use pint.Os.{Os, Log, read, write, selects, contains}
use pint.CommTypes.Types.{TypedPipe}

-- What follows read, whose errors and whose end of the file are passed over. A short write is only
-- printed.
unfoldable pub relay : Os → ℕ → Option (List ℕ) → Log → Log
unfolding write
relay os fd_out none w = w
relay os fd_out (some []) w = w
relay os fd_out (some (b ∷ bytes)) w = (write os fd_out (b ∷ bytes) w).1

module _ (os : Os) (read_in write_out : TypedPipe) where
  -- What follows select, where `none` is a timeout or an error.
  unfoldable pub on_ready : Option (List ℕ) → Log → Log
  unfolding read relay
  on_ready none w = w
  on_ready (some ready) w =
      if contains ready read_in.fd_in
      then relay os write_out.fd_out (read os read_in.fd_in 4096 w).0
          (read os read_in.fd_in 4096 w).1
      else w

  -- One round of enterLoop. With `insertCFE` set the process only spins.
  unfoldable pub echo_round : Bool → Log → Log
  unfolding on_ready
  echo_round insert_cfe w =
      let w1 : Log = selects (read_in.fd_in ∷ []) (pos 1000000) ∷ w in
      if insert_cfe then w else on_ready (os.select_answer w1) w1

  -- Rounds in which the flag has the values of the list.
  unfoldable pub echo_rounds : List Bool → Log → Log
  unfolding echo_round
  echo_rounds [] w = w
  echo_rounds (flag ∷ flags) w = echo_rounds flags (echo_round flag w)
