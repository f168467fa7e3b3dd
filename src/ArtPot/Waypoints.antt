-- ===== src/ArtPot/Waypoints.antt =====
-- How controllers/art_pot.c takes over a message of two places.
use pint.Common.{
  ℕ, ◌≡◌, refl, ap, true, false, List, [], ◌∷◌, some, arith, ◌==◌, get_or, length, length-append,
}
use pint.Common.Int.{pos}
use pint.Os.{Os, Log, read, reads, selects, contains}
use pint.CommTypes.Types.{TypedPipe}
use pint.CommTypes.Fixed.{doubles_bytes, comm_copy_waypoints}
use pint.CommTypes.Copies.{copy_entries_whole}
use pint.ArtPot.{Doubles, ArtPot, PipeIndexes, no_pipe, pipe_count_max}
use pint.ArtPot.Rounds.{Decoders, on_waypoints, serve_data, serve_waypoints, serve_round, art_round}

module _ {D : Type 0} (d : Doubles D) (from : Decoders D) where
  -- The bytes of a message of two places.
  abbrev pub way_bytes : D → D → D → D → List ℕ
  way_bytes x y n_x n_y =
      doubles_bytes (d.whole 0) d.double_bytes (x ∷ y ∷ d.whole 0 ∷ n_x ∷ n_y ∷ d.whole 0 ∷ [])

  -- How a struct comm_way_res lies in memory.
  pub record IsLayout : Type 0 where
    pub eight : (x : D) → length (d.double_bytes x) ≡ 8
    pub places :
        (x y n_x n_y : D)
        → from.waypoints (way_bytes x y n_x n_y)
          ≡ record { point = x ∷ y ∷ d.whole 0 ∷ []; n_point = n_x ∷ n_y ∷ d.whole 0 ∷ [] }

  way_bytes-length : IsLayout → (x y n_x n_y : D) → length (way_bytes x y n_x n_y) ≡ 48
  unfolding doubles_bytes
  way_bytes-length h x y n_x n_y = simp (length-append, h.eight) (omega arith)

  -- The goals that a message of two places brings.
  abbrev pub headed : ArtPot D → D → D → D → D → ArtPot D
  headed st x y n_x n_y = record st {
    goal = x ∷ y ∷ d.whole 0 ∷ [];
    next_goal = n_x ∷ n_y ∷ d.whole 0 ∷ [];
  }

  on_waypoints-headed :
      (os : Os) (pipes : List TypedPipe) (pipe_count : ℕ) (indexes : PipeIndexes) (st : ArtPot D)
      (x y n_x n_y : D)
      → IsLayout
      → length st.goal ≡ 3
      → length st.next_goal ≡ 3
      → on_waypoints d from os pipes pipe_count indexes (some (way_bytes x y n_x n_y)) st
        ≡ headed st x y n_x n_y
  unfolding on_waypoints comm_copy_waypoints
  on_waypoints-headed os pipes pipe_count indexes st x y n_x n_y h lg ln =
      let sized : (length (way_bytes x y n_x n_y) == 48) ≡ true =
        ground (arith, way_bytes-length h x y n_x n_y) in
      let a = copy_entries_whole (d.whole 0) 3 (x ∷ y ∷ d.whole 0 ∷ []) st.goal refl lg in
      let b = copy_entries_whole (d.whole 0) 3 (n_x ∷ n_y ∷ d.whole 0 ∷ []) st.next_goal refl ln in
      rw (sized, h.places x y n_x n_y) (rw (a, b) refl)

  module _ (os : Os) (pipes : List TypedPipe) (indexes : PipeIndexes) where
    -- A round in which a message of two places alone has come.
    pub art_round-headed :
        (i : ℕ) (st : ArtPot D) (w : Log) (ready : List ℕ) (x y n_x n_y : D)
        → IsLayout
        → indexes.way_res_index ≡ some i
        → length st.goal ≡ 3
        → length st.next_goal ≡ 3
        → let fd = (get_or pipes i no_pipe).fd_in in
          let rays = (get_or pipes indexes.data_index no_pipe).fd_in in
          let w1 : Log = selects (rays ∷ fd ∷ []) (pos 1000000) ∷ w in
          os.select_answer w1 ≡ some ready
          → contains ready rays ≡ false
          → contains ready fd ≡ true
          → os.read_answer w1 fd 48 ≡ some (way_bytes x y n_x n_y)
          → art_round d from os pipes pipe_count_max indexes st w
            ≡ some (headed st x y n_x n_y, reads fd 48 ∷ w1)
    unfolding art_round serve_round serve_data serve_waypoints read
    art_round-headed i st w ready x y n_x n_y h known lg ln woken quiet asked came =
        let fds =
          (get_or pipes indexes.data_index no_pipe).fd_in ∷ (get_or pipes i no_pipe).fd_in ∷ [] in
        let w1 : Log = selects fds (pos 1000000) ∷ w in
        rw (art_round, known)
          (rw woken (
            rw quiet (
              rw asked (
                rw came (
                  ap (λ (t : ArtPot D). some (t, reads (get_or pipes i no_pipe).fd_in 48 ∷ w1))
                    (on_waypoints-headed os pipes pipe_count_max indexes st x y n_x n_y h lg
                      ln))))))
