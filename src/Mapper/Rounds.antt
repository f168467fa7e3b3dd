-- ===== src/Mapper/Rounds.antt =====
-- The loop of controllers/mapper.c, and a planner that marks the obstacles of all its messages.

use mathlib.Core.Option
use pint.Common.{
  ℕ, ◌≡◌, ◌≢◌, refl, sym, ap, ◌∙◌, true, false, Bool-cases, inl, inr, List, [], ◌∷◌, ◌++◌, Option,
  none, some, length, ◌==◌, arith, if◌then◌else◌, get_or, append-nil, Returns, Returns-bind,
}
use pint.Common.Int.{pos}
use pint.Os.{Os, Log, read, reads, writes, selects, contains}
use pint.Streams.{said, put}
use pint.CommTypes.Types.{TypedPipe, map_update}
use pint.CommTypes.Bytes.{ints_bytes}
use pint.CommTypes.Fixed.{RangePoseData}
use pint.CommTypes.Messages.{MapUpdate, comm_send_map_update, update_ints}
use pint.Planner.Grid.{Grid}
use pint.Mapper.{Mapper, Geometry, update_map, on_data, mapper_round}
use pint.Mapper.Agree.{Agree, HasRoom}
use pint.Mapper.Updates.{update_map-Agree}
use pint.Mapper.Run.{Indexes, Fault, no_fault, sdc, cfe, indexed_round, mapper_rounds}
use pint.Plumber.{no_pipe}
use pint.Mapper.Tracked.{Tracked, Tracked-start, Tracked-trans, Tracked-quiet}

module _ {D : Type 0} (g : Geometry D) (os : Os) (update_pipe : TypedPipe)
    (set_out : update_pipe.fd_out ≢ 0) (typed : update_pipe.type ≡ map_update) where
  abbrev out : ℕ
  out = update_pipe.fd_out

  abbrev Kept : Grid → Log → Mapper × Log → Type 0
  Kept map before r = Tracked out map before r.0 r.1

  sends :
      (msg : MapUpdate) (w : Log)
      → (comm_send_map_update os update_pipe msg w).1
        ≡ writes out (ints_bytes (update_ints msg)) ∷ w
  unfolding comm_send_map_update
  sends msg w =
      let set_end : (out == 0) ≡ false = ground (arith, set_out) in rw (typed, set_end) refl

  update-Tracked :
      (readings : RangePoseData D) (map : Grid) (before w : Log) (st : Mapper)
      → Tracked out map before st w
      → Returns (Kept map before) (update_map g os update_pipe readings st w)
  unfolding said put
  update-Tracked readings map before w st t =
      let (st', n, map', done, count, few, marked, room, agree) =
        update_map-Agree g os update_pipe readings st w t.map' t.room t.agree in
      let same : (out == out) ≡ true = ground arith in
      (
        _,
        done,
        Tracked-trans out map before w _ st st' t (record {
          msgs = st'.send_msg ∷ [];
          map' = map';
          written =
              ap (said out) (sends st'.send_msg w)
              ∙ rw same (
                  ap (λ l. said out w ++ l)
                    (sym (append-nil (ints_bytes (update_ints st'.send_msg)))));
          marked = rw (count, marked) refl;
          room = room;
          agree = agree;
        }),
      )

  data-Tracked :
      (o : Option (List ℕ)) (map : Grid) (before w : Log) (st : Mapper)
      → Tracked out map before st w
      → Returns (Kept map before) (on_data g os update_pipe (o, w) st)
  unfolding on_data
  data-Tracked none map before w st t = (_, refl, t)
  data-Tracked (some bytes) map before w st t = elim (Bool-cases (length bytes == 152)) [
    | inl full ↦ rw full (update-Tracked (g.from_bytes bytes) map before w st t)
    | inr partial ↦ rw partial (_, refl, t)
  ]

  module _ (data_pipe ack_pipe : TypedPipe) where
    served :
        (ready : List ℕ) (map : Grid) (before w : Log) (st : Mapper)
        → Tracked out map before st w
        → Returns (Kept map before) (
            if contains ready data_pipe.fd_in
            then on_data g os update_pipe (read os data_pipe.fd_in 152 w) st
            else some (st, w))
    unfolding read put
    served ready map before w st t = elim (Bool-cases (contains ready data_pipe.fd_in)) [
      | inl set ↦ rw set (
          data-Tracked (os.read_answer w data_pipe.fd_in 152) map before _ st
            (Tracked-quiet out map before w st (reads data_pipe.fd_in 152) refl t))
      | inr clear ↦ rw clear (_, refl, t)
    ]

    acknowledged :
        (ready : List ℕ) (map : Grid) (before : Log) (o : Option (Mapper × Log))
        → Returns (Kept map before) o
        → Returns (Kept map before) (
            Option.map
              (λ r.
                if contains ready ack_pipe.fd_in
                then (r.0, (read os ack_pipe.fd_in 8 r.1).1)
                else r)
              o)
    unfolding read put
    acknowledged ready map before o (r, e, t) = elim (Bool-cases (contains ready ack_pipe.fd_in)) [
      | inl set ↦
          rw (e, set)
            (_, refl, Tracked-quiet out map before r.1 r.0 (reads ack_pipe.fd_in 8) refl t)
      | inr clear ↦ rw (e, clear) (_, refl, t)
    ]

    round-Tracked :
        (map : Grid) (before w : Log) (st : Mapper)
        → Tracked out map before st w
        → Returns (Kept map before) (mapper_round g os data_pipe update_pipe ack_pipe st w)
    unfolding mapper_round put
    round-Tracked map before w st t = by_answer (os.select_answer w1)
      where
        fds : List ℕ
        fds = data_pipe.fd_in ∷ ack_pipe.fd_in ∷ []

        w1 : Log
        w1 = selects fds (pos 1000000) ∷ w

        t1 : Tracked out map before st w1
        t1 = Tracked-quiet out map before w st (selects fds (pos 1000000)) refl t

        by_answer :
            (answer : Option (List ℕ))
            → Returns (Kept map before) (elim answer as (λ x. Option (Mapper × Log)) [
              | none ↦ some (st, w1)
              | some ready ↦
                  Option.map
                    (λ r.
                      if contains ready ack_pipe.fd_in
                      then (r.0, (read os ack_pipe.fd_in 8 r.1).1)
                      else r)
                    (if contains ready data_pipe.fd_in
                      then on_data g os update_pipe (read os data_pipe.fd_in 152 w1) st
                      else some (st, w1))
            ])
        by_answer none = (_, refl, t1)
        by_answer (some ready) = acknowledged ready map before _ (served ready map before w1 st t1)

module _ {D : Type 0} (g : Geometry D) (os : Os) (pipes : List TypedPipe) (indexes : Indexes)
    (set_out : (get_or pipes indexes.update_index no_pipe).fd_out ≢ 0)
    (typed : (get_or pipes indexes.update_index no_pipe).type ≡ map_update) where
  abbrev update_pipe : TypedPipe
  update_pipe = get_or pipes indexes.update_index no_pipe

  rounds-Tracked :
      (faults : List Fault) (map : Grid) (before w : Log) (st : Mapper)
      → Tracked update_pipe.fd_out map before st w
      → Returns
          (λ r. Tracked update_pipe.fd_out map before r.0 r.1)
          (mapper_rounds g os pipes indexes faults st w)
  unfolding mapper_rounds indexed_round
  rounds-Tracked [] map before w st t = (_, refl, t)
  rounds-Tracked (cfe ∷ faults) map before w st t = (_, refl, t)
  rounds-Tracked (no_fault ∷ faults) map before w st t =
      Returns-bind (Kept g os update_pipe set_out typed map before)
        (Kept g os update_pipe set_out typed map before) _ _
        (round-Tracked g os update_pipe set_out typed (get_or pipes indexes.data_index no_pipe)
          (get_or pipes indexes.ack_index no_pipe) map before w st t)
        (λ r k. rounds-Tracked faults map before r.1 r.0 k)
  rounds-Tracked (sdc ∷ faults) map before w st t =
      Returns-bind (Kept g os update_pipe set_out typed map before)
        (Kept g os update_pipe set_out typed map before) _ _
        (round-Tracked g os update_pipe set_out typed (get_or pipes indexes.data_index no_pipe)
          (get_or pipes indexes.ack_index no_pipe) map before w (record st { insert_sdc = true })
          (record {
            msgs = t.msgs;
            map' = t.map';
            written = t.written;
            marked = t.marked;
            room = t.room;
            agree = t.agree;
          }))
        (λ r k. rounds-Tracked faults map before r.1 r.0 k)

  -- However often the mapper's loop runs, whatever the system answers and whichever faults are
  -- injected into the data: it accesses no array outside its bounds, and what it has written to its
  -- update pipe are messages, one after another, after whose obstacles the planner's map is that of
  -- the cells counted more than OBS_THRES times, when it was so before; for an update pipe that is
  -- set and of the type MAP_UPDATE.
  pub mapper_rounds-Tracked :
      (faults : List Fault) (map : Grid) (w : Log) (st : Mapper)
      → HasRoom st.send_msg
      → Agree st.obstacle_map map
      → Returns
          (λ r. Tracked update_pipe.fd_out map w r.0 r.1)
          (mapper_rounds g os pipes indexes faults st w)
  mapper_rounds-Tracked faults map w st room agree =
      rounds-Tracked faults map w w st (Tracked-start update_pipe.fd_out map st w room agree)
