-- ===== src/Empty/Commands.antt =====
-- The controller of controllers/empty.c answers every whole message by a command.
use pint.Common.{
  ℕ, zero, suc, ◌≡◌, ◌≢◌, refl, Bool, true, false, Bool-cases, inl, inr, List, [], ◌∷◌, ◌==◌,
  Option, none, some, if◌then◌else◌, length, arith,
}
use pint.Common.Int.{pos}
use pint.Os.{Os, Log, reads, selects, contains}
use pint.CommTypes.Types.{TypedPipe, mov_cmd}
use pint.CommTypes.Fixed.{doubles_bytes, comm_send_move_command, message_index}
use pint.Streams.{Paired, on_answer, selects-Paired, silent-Paired, relay-Paired}
use pint.Empty.{Empty, Doubles, command, on_data, on_ready, empty_round, empty_rounds}

module _ {D : Type 0} (d : Doubles D) where
  -- The command that answers what a read brought: none, unless it is a whole message.
  abbrev pub reply : List ℕ → List ℕ
  reply bytes =
      if length bytes == 152
      then doubles_bytes d.zero_d d.double_bytes (d.tenth ∷ d.zero_d ∷ [])
      else []

  module _ (os : Os) (read_in write_out : TypedPipe) where
    -- No fault is to be injected into the data, and one command has been written for each whole
    -- message that was read.
    pub record Answered (st : Empty) (w : Log) : Type 0 where
      pub undisturbed : st.insert_sdc ≡ false
      pub paired : Paired reply os read_in.fd_in write_out.fd_out w

    abbrev Kept : Empty × Log → Type 0
    Kept (st, w) = Answered st w

    module _ (set_out : write_out.fd_out ≢ 0) (typed : write_out.type ≡ mov_cmd) where
      command-Answered :
          (st : Empty) (w : Log) (bytes : List ℕ)
          → os.read_answer w read_in.fd_in 152 ≡ some bytes
          → (length bytes == 152) ≡ true
          → Answered st w
          → Kept (command d os read_in write_out st (reads read_in.fd_in 152 ∷ w))
      unfolding command comm_send_move_command message_index on_answer
      command-Answered st w bytes e size h =
          let open_out : (write_out.fd_out == 0) ≡ false = ground (arith, set_out) in
          rw (h.undisturbed, typed, open_out)
            (record {
              undisturbed = refl;
              paired =
                  relay-Paired reply os read_in.fd_in write_out.fd_out 152 _ w (rw (e, size) refl)
                    h.paired;
            })

      data-Answered :
          (o : Option (List ℕ)) (st : Empty) (w : Log)
          → os.read_answer w read_in.fd_in 152 ≡ o
          → Answered st w
          → Kept (on_data d os read_in write_out o st (reads read_in.fd_in 152 ∷ w))
      unfolding on_data on_answer
      data-Answered none st w e h = (record {
        undisturbed = h.undisturbed;
        paired = silent-Paired reply os read_in.fd_in write_out.fd_out 152 w (rw e refl) h.paired;
      })
      data-Answered (some bytes) st w e h = elim (Bool-cases (length bytes == 152)) [
        | inl size ↦ rw size (command-Answered st w bytes e size h)
        | inr size ↦ rw size (record {
          undisturbed = h.undisturbed;
          paired =
              silent-Paired reply os read_in.fd_in write_out.fd_out 152 w (rw (e, size) refl)
                h.paired;
        })
      ]

      ready-Answered :
          (o : Option (List ℕ)) (st : Empty) (w : Log)
          → Answered st w
          → Kept (on_ready d os read_in write_out o st w)
      unfolding on_ready
      ready-Answered none st w h = h
      ready-Answered (some ready) st w h = elim (Bool-cases (contains ready read_in.fd_in)) [
        | inl set ↦ rw set (data-Answered _ st w refl h)
        | inr clear ↦ rw clear h
      ]

      round-Answered :
          (sdc cfe : Bool) (w : Log)
          → let st : Empty = record { insert_sdc = sdc; insert_cfe = cfe } in
            Answered st w → Kept (empty_round d os read_in write_out st w)
      unfolding empty_round
      round-Answered sdc true w h = h
      round-Answered sdc false w h =
          let w1 : Log = selects (read_in.fd_in ∷ []) (pos 1000000) ∷ w in
          let h1 =
            selects-Paired reply os read_in.fd_in write_out.fd_out (read_in.fd_in ∷ [])
              (pos 1000000) w h.paired in
          ready-Answered (os.select_answer w1) (record { insert_sdc = sdc; insert_cfe = false }) w1
            (record { undisturbed = h.undisturbed; paired = h1 })

      -- However often the loop runs, and whatever select and read answer: when the output is set and
      -- of the type MOV_CMD and no fault is injected into the data, and one command has been written
      -- for each whole message that was read before and for nothing else, the same holds afterwards.
      empty_rounds-Answered :
          (rounds : ℕ) (st : Empty) (w : Log)
          → Answered st w
          → Answered
              (empty_rounds d os read_in write_out rounds st w).0
              (empty_rounds d os read_in write_out rounds st w).1
      unfolding empty_rounds
      empty_rounds-Answered zero st w h = h
      empty_rounds-Answered (suc rounds) st w h =
          let (st', w') = empty_round d os read_in write_out st w in
          empty_rounds-Answered rounds st' w' (round-Answered st.insert_sdc st.insert_cfe w h)
