-- ===== src/Echo/Relayed.antt =====
-- The echo of controllers/generic_empty.c writes what it reads.
use pint.Common.{
  ℕ, ◌≡◌, refl, Bool, true, false, Bool-cases, inl, inr, List, [], ◌∷◌, Option, none, some,
}
use pint.Common.Int.{pos}
use pint.Os.{Os, Log, reads, selects, contains}
use pint.CommTypes.Types.{TypedPipe}
use pint.Streams.{Paired, on_answer, selects-Paired, silent-Paired, relay-Paired}
use pint.Echo.{relay, on_ready, echo_round, echo_rounds}

abbrev pub same : List ℕ → List ℕ
same bytes = bytes

module _ (os : Os) (read_in write_out : TypedPipe) where
  abbrev pub Echoed : Log → Type 0
  Echoed = Paired same os read_in.fd_in write_out.fd_out

  relay-Echoed :
      (w : Log) (o : Option (List ℕ))
      → os.read_answer w read_in.fd_in 4096 ≡ o
      → Echoed w
      → Echoed (relay os write_out.fd_out o (reads read_in.fd_in 4096 ∷ w))
  unfolding relay on_answer
  relay-Echoed w none e h = silent-Paired same os read_in.fd_in write_out.fd_out 4096 w (rw e) h
  relay-Echoed w (some []) e h =
      silent-Paired same os read_in.fd_in write_out.fd_out 4096 w (rw e) h
  relay-Echoed w (some (b ∷ bytes)) e h =
      relay-Paired same os read_in.fd_in write_out.fd_out 4096 (b ∷ bytes) w (rw e) h

  ready-Echoed :
      (o : Option (List ℕ)) (w : Log) → Echoed w → Echoed (on_ready os read_in write_out o w)
  unfolding on_ready
  ready-Echoed none w h = h
  ready-Echoed (some ready) w h = elim (Bool-cases (contains ready read_in.fd_in)) [
    | inl set ↦ rw set (relay-Echoed w _ refl h)
    | inr clear ↦ rw clear h
  ]

  round-Echoed :
      (flag : Bool) (w : Log) → Echoed w → Echoed (echo_round os read_in write_out flag w)
  unfolding echo_round
  round-Echoed true w h = h
  round-Echoed false w h =
      let w1 : Log = selects (read_in.fd_in ∷ []) (pos 1000000) ∷ w in
      ready-Echoed (os.select_answer w1) w1 (
        selects-Paired same os read_in.fd_in write_out.fd_out (read_in.fd_in ∷ []) (pos 1000000) w
          h)

  -- However often the loop runs, and whatever select and read answer and the flag does: when all
  -- bytes that were read from the input before have been written to the output, once and in order,
  -- so have all that are read until then.
  echo_rounds-Echoed :
      (flags : List Bool) (w : Log) → Echoed w → Echoed (echo_rounds os read_in write_out flags w)
  unfolding echo_rounds
  echo_rounds-Echoed [] w h = h
  echo_rounds-Echoed (flag ∷ flags) w h = echo_rounds-Echoed flags _ (round-Echoed flag w h)
