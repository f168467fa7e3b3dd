-- ===== src/Empty.antt =====
-- controllers/empty.c: a controller that answers all data by the same command. A double is a
-- parameter, with the numbers that the code names and the bytes in memory.
mod Commands
use pint.Common.{
  ℕ, zero, suc, Bool, true, false, List, [], ◌∷◌, Option, none, some, ◌==◌, if◌then◌else◌, length,
}
use pint.Common.Int.{pos}
use pint.Os.{Os, Log, read, selects, contains}
use pint.CommTypes.Types.{TypedPipe}
use pint.CommTypes.Fixed.{comm_send_move_command}

-- The flags that the signals of the fault injection raise.
pub record Empty : Type 0 where
  pub insert_sdc : Bool
  pub insert_cfe : Bool

-- 0.0, 0.1 and 1.0.
pub record Doubles (D : Type 0) : Type 0 where
  pub zero_d : D
  pub tenth : D
  pub one : D
  pub double_bytes : D → List ℕ

module _ {D : Type 0} (d : Doubles D) (os : Os) (read_in write_out : TypedPipe) where
  unfoldable pub command : Empty → Log → Empty × Log
  unfolding comm_send_move_command
  command st w =
      if st.insert_sdc
      then (
        record st { insert_sdc = false },
        (comm_send_move_command d.zero_d d.double_bytes os write_out d.tenth d.one w).1,
      )
      else (st, (comm_send_move_command d.zero_d d.double_bytes os write_out d.tenth d.zero_d w).1)

  -- Data of another size, the end of the file and errors are only printed.
  unfoldable pub on_data : Option (List ℕ) → Empty → Log → Empty × Log
  unfolding command
  on_data none st w = (st, w)
  on_data (some bytes) st w = if length bytes == 152 then command st w else (st, w)

  -- What follows select, where `none` is a timeout or an error.
  unfoldable pub on_ready : Option (List ℕ) → Empty → Log → Empty × Log
  unfolding read on_data
  on_ready none st w = (st, w)
  on_ready (some ready) st w =
      if contains ready read_in.fd_in
      then on_data (read os read_in.fd_in 152 w).0 st (read os read_in.fd_in 152 w).1
      else (st, w)

  -- One round of enterLoop. With `insertCFE` set the process only spins.
  unfoldable pub empty_round : Empty → Log → Empty × Log
  unfolding on_ready
  empty_round st w =
      let w1 : Log = selects (read_in.fd_in ∷ []) (pos 1000000) ∷ w in
      if st.insert_cfe then (st, w) else on_ready (os.select_answer w1) st w1

  unfoldable pub empty_rounds : ℕ → Empty → Log → Empty × Log
  unfolding empty_round
  empty_rounds zero st w = (st, w)
  empty_rounds (suc rounds) st w = let (st', w') = empty_round st w in empty_rounds rounds st' w'
