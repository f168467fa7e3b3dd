-- ===== src/Mapper/Start.antt =====
-- main of controllers/mapper.c, as the plumber starts it.
use pint.Common.{
  ℕ, ◌<◌, ◌≡◌, ◌≢◌, refl, sym, subst, ap, ◌∙◌, false, List, [], arith, ltb, length, get_or,
  get_or-replicate, for_up, replicate, length-replicate, bind_of, Returns,
}
use pint.Common.Int.{ℤ, pos}
use pint.Os.{Os, Log}
use pint.VoteBuff.{none_rep}
use pint.CommTypes.Types.{TypedPipe, range_pose_data, map_update, comm_ack}
use pint.CommTypes.Serial.{Scanf, ReadsBack, HasIntFds, passed_end}
use pint.FdClient.Connect.{Server}
use pint.Plumber.{Component, no_pipe, launch_argv}
use pint.Components.Launched.{mapper_args-launch_argv}
use pint.Planner.Grid.{Grid, grid_num}
use pint.Mapper.{Geometry, start_mapper, obs_thres, obs_room}
use pint.Mapper.Squares.{Square}
use pint.Mapper.Agree.{Agree, HasRoom}
use pint.Mapper.Tracked.{Tracked}
use pint.Mapper.Rounds.{mapper_rounds-Tracked}
use pint.Mapper.Run.{
  Indexes, Fault, start_globals, start_indexes, set_index, set_indexes, mapper_rounds, mapper_main,
}

-- The planner's map as its main leaves it.
abbrev pub empty_map : Grid
empty_map = replicate grid_num (replicate grid_num false)

replicate-Square : {A : Type 0} (n : ℕ) (a : A) → Square n (replicate n (replicate n a))
replicate-Square n a = record {
  high = length-replicate n (replicate n a);
  wide = λ x lt. ap length (get_or-replicate n x (replicate n a) [] lt) ∙ length-replicate n a;
}

pub start-HasRoom : HasRoom start_mapper.send_msg
unfolding start_mapper
start-HasRoom = record {
  room_x = length-replicate obs_room (pos 0);
  room_y = length-replicate obs_room (pos 0);
}

pub start-Agree : Agree start_mapper.obstacle_map empty_map
unfolding start_mapper
start-Agree = record {
  counts_square = replicate-Square grid_num 0;
  map_square = replicate-Square grid_num false;
  same = λ x y xl yl.
      ap (λ r. get_or r y false) (get_or-replicate grid_num x (replicate grid_num false) [] xl)
      ∙ get_or-replicate grid_num y false false yl
      ∙ sym (
          ap (ltb obs_thres) (
            ap (λ r. get_or r y 0) (get_or-replicate grid_num x (replicate grid_num 0) [] xl)
            ∙ get_or-replicate grid_num y 0 0 yl));
}

set_index-ranges :
    (pipes : List TypedPipe) (i : ℕ) (x : Indexes)
    → (get_or pipes i no_pipe).type ≡ range_pose_data
    → set_index pipes i x ≡ record x { data_index = i }
unfolding set_index
set_index-ranges pipes i x e = rw (set_index, e) refl

set_index-updates :
    (pipes : List TypedPipe) (i : ℕ) (x : Indexes)
    → (get_or pipes i no_pipe).type ≡ map_update
    → set_index pipes i x ≡ record x { update_index = i }
unfolding set_index
set_index-updates pipes i x e = rw (set_index, e) refl

set_index-acks :
    (pipes : List TypedPipe) (i : ℕ) (x : Indexes)
    → (get_or pipes i no_pipe).type ≡ comm_ack
    → set_index pipes i x ≡ record x { ack_index = i }
unfolding set_index
set_index-acks pipes i x e = rw (set_index, e) refl

passed_out : (p : TypedPipe) → p.fd_in ≡ 0 → (passed_end p).fd_out ≡ p.fd_out
passed_out p e = ground (arith, e)

-- setPipeIndexes finds the update pipe in the middle.
set_indexes-middle :
    (pipes : List TypedPipe)
    → (get_or pipes 0 no_pipe).type ≡ range_pose_data
    → (get_or pipes 1 no_pipe).type ≡ map_update
    → (get_or pipes 2 no_pipe).type ≡ comm_ack
    → set_indexes pipes start_indexes ≡ record { data_index = 0; update_index = 1; ack_index = 2 }
unfolding set_indexes for_up
set_indexes-middle pipes a b c =
    ap (λ x. set_index pipes 2 (set_index pipes 1 x)) (set_index-ranges pipes 0 _ a)
    ∙ ap (set_index pipes 2) (set_index-updates pipes 1 _ b)
    ∙ set_index-acks pipes 2 _ c

module _ {D : Type 0} (g : Geometry D) (os : Os) (s : Scanf) (law : ReadsBack os s) (n : Component)
    (fits : (i : ℕ) → i < n.pipe_count → HasIntFds (get_or n.pipes i no_pipe))
    (direct : n.rep_strat ≡ none_rep)
    (counted : s.atoi (os.decimal (pos n.pipe_count)) ≡ pos n.pipe_count) where
  -- From the configuration to the two maps: main of the mapper, started by the plumber without a
  -- voter and with its three pipes, for ranges, for updates, which has only its writing end, and
  -- for acknowledgements, in this order, gets through its arguments, and however often its loop
  -- then runs, whatever the system answers and whichever faults are injected into the data, it
  -- accesses no array outside its bounds, and the bytes it has written to the update pipe are
  -- messages after whose obstacles, marked on an empty map, the planner's map is that of the cells
  -- that the mapper has counted more than OBS_THRES times; printf, sscanf and atoi reading back
  -- what is written, and descriptors being ints.
  pub mapper_main-Tracked :
      (server : Server) (pid : ℤ) (faults : List Fault) (w : Log)
      → n.pipe_count ≡ 3
      → (get_or n.pipes 0 no_pipe).type ≡ range_pose_data
      → (get_or n.pipes 1 no_pipe).type ≡ map_update
      → (get_or n.pipes 2 no_pipe).type ≡ comm_ack
      → (get_or n.pipes 1 no_pipe).fd_in ≡ 0
      → (get_or n.pipes 1 no_pipe).fd_out ≢ 0
      → Returns
          (λ r. Tracked (get_or n.pipes 1 no_pipe).fd_out empty_map w r.0 r.1)
          (mapper_main g os s server pid (launch_argv os n) faults w)
  unfolding mapper_main
  mapper_main-Tracked server pid faults w three ranges updates acks unread set_out =
      let (st, e, ready) =
        mapper_args-launch_argv os s law n fits direct counted server pid start_globals w three
          (length-replicate 3 no_pipe) in
      let pipe = λ (i : ℕ) (lt : i < 3). ready.pipes i (omega (arith, three)) in
      let middle =
        set_indexes-middle st.pipes (ap (λ p. p.type) (pipe 0 (omega arith)) ∙ ranges)
          (ap (λ p. p.type) (pipe 1 (omega arith)) ∙ updates)
          (ap (λ p. p.type) (pipe 2 (omega arith)) ∙ acks) in
      let out =
        ap (λ p. p.fd_out) (pipe 1 (omega arith)) ∙ passed_out (get_or n.pipes 1 no_pipe) unread in
      let run =
        mapper_rounds-Tracked g os st.pipes
          (record { data_index = 0; update_index = 1; ack_index = 2 }) (λ z. set_out (sym out ∙ z))
          (ap (λ p. p.type) (pipe 1 (omega arith)) ∙ updates) faults empty_map w start_mapper
          start-HasRoom start-Agree in
      let run' =
        subst
          (λ x.
            Returns (λ r. Tracked (get_or st.pipes 1 no_pipe).fd_out empty_map w r.0 r.1)
              (mapper_rounds g os st.pipes x faults start_mapper w))
          (sym middle) run in
      let (r, ran, tracked) = run' in
      (r, bind_of _ _ (st, w) _ e ran, subst (λ fd. Tracked fd empty_map w r.0 r.1) out tracked)
