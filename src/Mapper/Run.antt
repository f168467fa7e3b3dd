-- ===== src/Mapper/Run.antt =====
-- setPipeIndexes, main and the endless loop of controllers/mapper.c.
use Prim.Native.String.{String}
use pint.Common.{ℕ, true, List, [], ◌∷◌, Option, some, get_or, replicate, for_up, ◌>>=◌}
use pint.Common.Int.{ℤ, pos}
use pint.Os.{Os, Log}
use pint.CommTypes.Types.{TypedPipe, range_pose_data, map_update, comm_ack}
use pint.CommTypes.Serial.{Scanf}
use pint.FdClient.Connect.{Server}
use pint.Components.{Globals, mapper_args}
use pint.Plumber.{no_pipe}
use pint.Mapper.{Mapper, Geometry, start_mapper, mapper_round}

pub record Indexes : Type 0 where
  pub data_index : ℕ
  pub update_index : ℕ
  pub ack_index : ℕ

-- One round of the loop of setPipeIndexes.
unfoldable pub set_index : List TypedPipe → ℕ → Indexes → Indexes
set_index pipes i indexes = elim ((get_or pipes i no_pipe).type) [
  | range_pose_data ↦ record indexes { data_index = i }
  | map_update ↦ record indexes { update_index = i }
  | comm_ack ↦ record indexes { ack_index = i }
  | _ ↦ indexes
]

unfoldable pub set_indexes : List TypedPipe → Indexes → Indexes
unfolding set_index
set_indexes pipes indexes = for_up 3 0 (set_index pipes) indexes

-- The globals before main.
abbrev pub start_globals : Globals
start_globals = record { priority = pos 0; pipe_count = pos 3; pipes = replicate 3 no_pipe }

abbrev pub start_indexes : Indexes
start_indexes = record { data_index = 0; update_index = 0; ack_index = 0 }

-- The signal of the fault injection that has come before a round.
pub data Fault : Type 0 where
  no_fault sdc cfe : Fault

module _ {D : Type 0} (g : Geometry D) (os : Os) where
  module _ (pipes : List TypedPipe) (indexes : Indexes) where
    unfoldable pub indexed_round : Mapper → Log → Option (Mapper × Log)
    unfolding mapper_round
    indexed_round st w =
        mapper_round g os (get_or pipes indexes.data_index no_pipe)
          (get_or pipes indexes.update_index no_pipe) (get_or pipes indexes.ack_index no_pipe) st w

    -- Rounds of enterLoop. Once `insertCFE` is set the process only spins.
    unfoldable pub mapper_rounds : List Fault → Mapper → Log → Option (Mapper × Log)
    unfolding indexed_round
    mapper_rounds [] st w = some (st, w)
    mapper_rounds (cfe ∷ faults) st w = some (st, w)
    mapper_rounds (no_fault ∷ faults) st w =
        indexed_round st w >>= λ r. mapper_rounds faults r.0 r.1
    mapper_rounds (sdc ∷ faults) st w =
        indexed_round (record st { insert_sdc = true }) w >>= λ r. mapper_rounds faults r.0 r.1

  -- main without initController, with the rounds of enterLoop in which the faults come. `none`: the process has exited, or
  -- reads through NULL or outside an array.
  unfoldable pub mapper_main :
      Scanf → Server → ℤ → List String → List Fault → Log → Option (Mapper × Log)
  unfolding mapper_args set_indexes mapper_rounds start_mapper
  mapper_main s server pid argv faults w = mapper_args s server pid argv start_globals w >>= λ r.
      mapper_rounds r.0.pipes (set_indexes r.0.pipes start_indexes) faults start_mapper r.1
