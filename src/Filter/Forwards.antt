-- ===== src/Filter/Forwards.antt =====
-- What the filter of controllers/filter.c writes.
use pint.Common.{
  if_true, if◌then◌else◌, ℕ, zero, suc, ◌+◌, ◌-◌, ◌≤◌, ◌<◌, ◌≡◌, ◌≢◌, refl, ap, ◌∙◌, false, List,
  [], ◌∷◌, ◌++◌, some, arith, ◌==◌, length, get_or, for_up, true, replicate, length-replicate,
}
use pint.Os.{Os, Log, writes, reads, selects, contains}
use pint.Common.Int.{pos}
use pint.CommTypes.Types.{TypedPipe, range_pose_data}
use pint.CommTypes.Fixed.{
  RangePoseData, comm_copy_ranger, comm_send_ranger, doubles_bytes, message_index,
}
use pint.CommTypes.Copies.{copy_entries_whole}
use pint.Filter.{Filter, no_pipe, send_output, command, on_data, on_ready, filter_round}

module _ {D : Type 0} (zero_d : D) (double_bytes : D → List ℕ) where
  -- The bytes of a message of ranges and pose.
  unfoldable pub message_bytes : List D → List D → List ℕ
  message_bytes ranges pose = doubles_bytes zero_d double_bytes (ranges ++ pose)

  send-whole :
      (os : Os) (pipe : TypedPipe) (ranges pose : List D) (w : Log)
      → length ranges ≡ 16
      → length pose ≡ 3
      → pipe.fd_out ≢ 0
      → pipe.type ≡ range_pose_data
      → (comm_send_ranger zero_d double_bytes os pipe ranges pose w).1
        ≡ writes pipe.fd_out (message_bytes ranges pose) ∷ w
  unfolding comm_send_ranger message_bytes message_index
  send-whole os pipe ranges pose w lr lp fd t =
      let set_end : (pipe.fd_out == 0) ≡ false = ground (arith, fd) in
      rw
        (
          t,
          set_end,
          copy_entries_whole zero_d 16 ranges (replicate 16 zero_d) lr (length-replicate 16 zero_d),
          copy_entries_whole zero_d 3 pose (replicate 3 zero_d) lp (length-replicate 3 zero_d),
        )
        refl

  -- One write of the bytes to each of `rounds` outputs from output i on, newest first.
  unfoldable pub copies : ℕ → ℕ → List TypedPipe → List ℕ → Log → Log
  copies zero i pipes bytes w = w
  copies (suc rounds) i pipes bytes w =
      copies rounds (i + 1) pipes bytes (writes (get_or pipes i no_pipe).fd_out bytes ∷ w)

  module _ (successor : D → D) (from_bytes : List ℕ → RangePoseData D) (os : Os)
      (pipes : List TypedPipe) (pipe_count : ℕ)
      (is_output : (i : ℕ)
        → 1 ≤ i
        → i < pipe_count
        → ((get_or pipes i no_pipe).fd_out ≢ 0)
          × ((get_or pipes i no_pipe).type ≡ range_pose_data)) where
    send-copies :
        (rounds i : ℕ) (st : Filter D) (w : Log)
        → 1 ≤ i
        → i + rounds ≤ pipe_count
        → length st.ranges ≡ 16
        → length st.pose ≡ 3
        → for_up rounds i
            (send_output zero_d successor double_bytes from_bytes os pipes pipe_count st)
            w
          ≡ copies rounds i pipes (message_bytes st.ranges st.pose) w
    unfolding for_up send_output copies
    send-copies zero i st w low high lr lp = refl
    send-copies (suc rounds) i st w low high lr lp =
        let out = is_output i low (omega arith) in
        send-copies rounds (i + 1) st _ (omega arith) (omega arith) lr lp
        ∙ ap (copies rounds (i + 1) pipes (message_bytes st.ranges st.pose))
            (send-whole os (get_or pipes i no_pipe) st.ranges st.pose w lr lp out.0 out.1)

    pub data-copies :
        (st : Filter D) (bytes : List ℕ) (w : Log)
        → 1 ≤ pipe_count
        → st.insert_sdc ≡ false
        → length st.ranges ≡ 16
        → length st.pose ≡ 3
        → length (from_bytes bytes).ranges ≡ 16
        → length (from_bytes bytes).pose ≡ 3
        → length bytes ≡ 152
        → let msg = from_bytes bytes in
          on_data zero_d successor double_bytes from_bytes os pipes pipe_count (some bytes) st w ≡ (
            record st { ranges = msg.ranges; pose = msg.pose },
            copies (pipe_count - 1) 1 pipes (message_bytes msg.ranges msg.pose) w,
          )
    unfolding on_data command comm_copy_ranger
    data-copies st bytes w some_pipe no_fault lr lp mr mp size =
        let msg = from_bytes bytes in
        let u : Filter D = record {
          ranges = msg.ranges;
          pose = msg.pose;
          insert_sdc = false;
          insert_cfe = st.insert_cfe;
        } in
        let full : (length bytes == 152) ≡ true = ground (arith, size) in
        let a = copy_entries_whole zero_d 16 msg.ranges st.ranges mr lr in
        let b = copy_entries_whole zero_d 3 msg.pose st.pose mp lp in
        rw (full, a, b, no_fault)
          (ap (λ l. (u, l)) (send-copies (pipe_count - 1) 1 u w (omega arith) (omega arith) mr mp))

    -- A round in which the data is ready and a whole message is read, of 16 ranges and a pose of 3
    -- numbers, takes the message over and writes its bytes once to each output, in order, and
    -- nothing else; no fault of either kind being injected, and the outputs being set and of the type
    -- RANGE_POSE_DATA.
    filter_forwards :
        (st : Filter D) (ready bytes : List ℕ) (w : Log)
        → 1 ≤ pipe_count
        → st.insert_sdc ≡ false
        → st.insert_cfe ≡ false
        → length st.ranges ≡ 16
        → length st.pose ≡ 3
        → length (from_bytes bytes).ranges ≡ 16
        → length (from_bytes bytes).pose ≡ 3
        → length bytes ≡ 152
        → let fd = (get_or pipes 0 no_pipe).fd_in in
          os.select_answer (selects (fd ∷ []) (pos 1000000) ∷ w) ≡ some ready
          → contains ready (get_or pipes 0 no_pipe).fd_in ≡ true
          → let fd = (get_or pipes 0 no_pipe).fd_in in
            os.read_answer (selects (fd ∷ []) (pos 1000000) ∷ w) fd 152 ≡ some bytes
            → let fd = (get_or pipes 0 no_pipe).fd_in in
              let msg = from_bytes bytes in
              filter_round zero_d successor double_bytes from_bytes os pipes pipe_count st w ≡ (
                record st { ranges = msg.ranges; pose = msg.pose },
                copies
                    (pipe_count - 1)
                    1
                    pipes
                    (message_bytes msg.ranges msg.pose)
                    (reads fd 152 ∷ selects (fd ∷ []) (pos 1000000) ∷ w),
              )
    unfolding filter_round on_ready
    filter_forwards st ready bytes w some_pipe no_fault no_loop lr lp mr mp size woken ours got =
        let fd = (get_or pipes 0 no_pipe).fd_in in
        let w1 : Log = selects (fd ∷ []) (pos 1000000) ∷ w in
        let w2 : Log = reads fd 152 ∷ w1 in
        ap
          (λ b.
            if b
            then (st, w)
            else on_ready zero_d successor double_bytes from_bytes os pipes pipe_count
                (os.select_answer w1) st w1)
          no_loop
        ∙ ap (λ o. on_ready zero_d successor double_bytes from_bytes os pipes pipe_count o st w1)
            woken
        ∙ if_true _ _ _ ours
        ∙ ap (λ o. on_data zero_d successor double_bytes from_bytes os pipes pipe_count o st w2) got
        ∙ data-copies st bytes w2 some_pipe no_fault lr lp mr mp size
