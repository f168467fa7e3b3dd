-- ===== src/Filter/Relayed.antt =====
-- Over any number of rounds, each output of controllers/filter.c gets every message that is read.
use pint.Common.{
  ℕ, zero, suc, ◌+◌, ◌-◌, ◌≤◌, ◌<◌, ◌≡◌, ◌≢◌, refl, sym, subst, Bool-cases, inl, inr, false, if_inv,
  List, [], ◌∷◌, Option, none, some, arith, ◌==◌, ltb, length, get_or,
}
use pint.Common.Int.{pos}
use pint.Os.{Os, Log, writes, reads, selects, contains}
use pint.CommTypes.Types.{TypedPipe, range_pose_data}
use pint.CommTypes.Fixed.{RangePoseData}
use pint.Streams.{
  whole, Paired, Owed, on_answer, selects-Paired, silent-Paired, reads-Owed, writes-Paired,
  writes-Owed, pay-Paired,
}
use pint.Filter.{Filter, no_pipe, on_data, on_ready, filter_round, filter_rounds}
use pint.Filter.Forwards.{message_bytes, copies, data-copies}

module _ {D : Type 0} (zero_d : D) (successor : D → D) (double_bytes : D → List ℕ)
    (from_bytes : List ℕ → RangePoseData D) (os : Os) (pipes : List TypedPipe)
    (pipe_count : ℕ) where
  abbrev pub out_of : ℕ → ℕ
  out_of i = (get_or pipes i no_pipe).fd_out

  abbrev pub data_in : ℕ
  data_in = (get_or pipes 0 no_pipe).fd_in

  -- The bytes lie in memory as a struct of 16 ranges and a pose of 3 numbers, which lie there as
  -- these bytes.
  pub record IsLayout (bytes : List ℕ) : Type 0 where
    pub ranges_whole : length (from_bytes bytes).ranges ≡ 16
    pub pose_whole : length (from_bytes bytes).pose ≡ 3
    pub same_bytes :
        message_bytes zero_d double_bytes (from_bytes bytes).ranges (from_bytes bytes).pose ≡ bytes

  -- No fault is to be injected into the data, and output k has got the messages that were read.
  pub record Relayed (k : ℕ) (st : Filter D) (w : Log) : Type 0 where
    pub undisturbed : st.insert_sdc ≡ false
    pub ranges_whole : length st.ranges ≡ 16
    pub pose_whole : length st.pose ≡ 3
    pub paired : Paired (whole 152) os data_in (out_of k) w

  module _ (k : ℕ) (low : 1 ≤ k) (high : k < pipe_count)
      (apart : (i : ℕ) → 1 ≤ i → i < pipe_count → i ≢ k → out_of i ≢ out_of k) where
    abbrev Kept : Filter D × Log → Type 0
    Kept r = Relayed k r.0 r.1

    later-Paired :
        (rounds i : ℕ) (bytes : List ℕ) (w : Log)
        → k < i
        → i + rounds ≤ pipe_count
        → Paired (whole 152) os data_in (out_of k) w
        → Paired
            (whole 152)
            os
            data_in
            (out_of k)
            (copies zero_d double_bytes rounds i pipes bytes w)
    unfolding copies
    later-Paired zero i bytes w after room h = h
    later-Paired (suc rounds) i bytes w after room h =
        later-Paired rounds (i + 1) bytes _ (omega arith) (omega arith) (
          writes-Paired (whole 152) os data_in (out_of k) (out_of i) bytes w
            (apart i (omega arith) (omega arith) (omega arith)) h)

    copies-Paired :
        (rounds i : ℕ) (bytes : List ℕ) (w : Log)
        → 1 ≤ i
        → i ≤ k
        → k < i + rounds
        → i + rounds ≤ pipe_count
        → Owed (whole 152) os data_in (out_of k) bytes w
        → Paired
            (whole 152)
            os
            data_in
            (out_of k)
            (copies zero_d double_bytes rounds i pipes bytes w)
    unfolding copies
    copies-Paired zero i bytes w one before reach room h = absurd (omega arith)
    copies-Paired (suc rounds) i bytes w one before reach room h = elim (Bool-cases (ltb i k)) [
      | inl less ↦
          let lt : i < k = ground (arith, less) in
          copies-Paired rounds (i + 1) bytes _ (omega arith) (omega arith) (omega arith)
            (omega arith)
            (writes-Owed (whole 152) os data_in (out_of k) (out_of i) bytes bytes w
              (apart i one (omega arith) (omega arith)) h)
      | inr here ↦
          let same : k ≡ i = ground (arith, here, before) in
          later-Paired rounds (i + 1) bytes _ (omega arith) (omega arith) (
            subst (λ j. Paired (whole 152) os data_in (out_of k) (writes (out_of j) bytes ∷ w)) same
              (pay-Paired (whole 152) os data_in (out_of k) bytes w h))
    ]

    module _
        (is_output : (i : ℕ)
          → 1 ≤ i
          → i < pipe_count
          → (out_of i ≢ 0) × ((get_or pipes i no_pipe).type ≡ range_pose_data))
        (layout : (bytes : List ℕ) → length bytes ≡ 152 → IsLayout bytes) where
      data-Relayed :
          (o : Option (List ℕ)) (st : Filter D) (w : Log)
          → os.read_answer w data_in 152 ≡ o
          → Relayed k st w
          → Kept (
              on_data zero_d successor double_bytes from_bytes os pipes pipe_count o st
                (reads data_in 152 ∷ w))
      unfolding on_data on_answer whole
      data-Relayed none st w e h = record {
        undisturbed = h.undisturbed;
        ranges_whole = h.ranges_whole;
        pose_whole = h.pose_whole;
        paired = silent-Paired (whole 152) os data_in (out_of k) 152 w (rw e refl) h.paired;
      }
      data-Relayed (some bytes) st w e h = elim (Bool-cases (length bytes == 152)) [
        | inl size ↦
            let l = layout bytes (ground (arith, size)) in
            let owed =
              reads-Owed (whole 152) os data_in (out_of k) 152 bytes w (rw (e, size) refl)
                h.paired in
            let w1 : Log = reads data_in 152 ∷ w in
            subst Kept
              (sym (
                data-copies zero_d double_bytes successor from_bytes os pipes pipe_count is_output
                  st bytes w1 (omega arith) h.undisturbed h.ranges_whole h.pose_whole l.ranges_whole
                  l.pose_whole (ground (arith, size))))
              (record {
                undisturbed = h.undisturbed;
                ranges_whole = l.ranges_whole;
                pose_whole = l.pose_whole;
                paired =
                    copies-Paired (pipe_count - 1) 1 _ _ (omega arith) low (omega arith)
                      (omega arith)
                      (subst (λ b. Owed (whole 152) os data_in (out_of k) b w1) (sym l.same_bytes)
                        owed);
              })
        | inr size ↦ rw size (record {
          undisturbed = h.undisturbed;
          ranges_whole = h.ranges_whole;
          pose_whole = h.pose_whole;
          paired =
              silent-Paired (whole 152) os data_in (out_of k) 152 w (rw (e, size) refl) h.paired;
        })
      ]

      ready-Relayed :
          (o : Option (List ℕ)) (st : Filter D) (w : Log)
          → Relayed k st w
          → Kept (on_ready zero_d successor double_bytes from_bytes os pipes pipe_count o st w)
      unfolding on_ready
      ready-Relayed none st w h = h
      ready-Relayed (some ready) st w h = elim (Bool-cases (contains ready data_in)) [
        | inl set ↦ rw set (data-Relayed _ st w refl h)
        | inr clear ↦ rw clear h
      ]

      round-Relayed :
          (st : Filter D) (w : Log)
          → Relayed k st w
          → Kept (filter_round zero_d successor double_bytes from_bytes os pipes pipe_count st w)
      unfolding filter_round
      round-Relayed st w h =
          let w1 : Log = selects (data_in ∷ []) (pos 1000000) ∷ w in
          if_inv Kept st.insert_cfe (st, w) _ h
            (ready-Relayed (os.select_answer w1) st w1 (record {
              undisturbed = h.undisturbed;
              ranges_whole = h.ranges_whole;
              pose_whole = h.pose_whole;
              paired =
                  selects-Paired (whole 152) os data_in (out_of k) (data_in ∷ []) (pos 1000000) w
                    h.paired;
            }))

      -- However often the loop runs, and whatever select and read answer: when output k has been
      -- handed the bytes of every message of 152 bytes that was read before, once and in order, and
      -- nothing else, the same holds afterwards; the outputs being set and of the type
      -- RANGE_POSE_DATA, none of the others sharing the descriptor of output k, no fault being
      -- injected into the data, and the doubles of a message lying in memory as the bytes that it is
      -- read from.
      pub filter_rounds-Relayed :
          (rounds : ℕ) (st : Filter D) (w : Log)
          → Relayed k st w
          → Relayed k
              (filter_rounds zero_d successor double_bytes from_bytes os pipes pipe_count rounds st
                w).0
              (filter_rounds zero_d successor double_bytes from_bytes os pipes pipe_count rounds st
                w).1
      unfolding filter_rounds
      filter_rounds-Relayed zero st w h = h
      filter_rounds-Relayed (suc rounds) st w h =
          let (st', w') =
            filter_round zero_d successor double_bytes from_bytes os pipes pipe_count st w in
          filter_rounds-Relayed rounds st' w' (round-Relayed st w h)
