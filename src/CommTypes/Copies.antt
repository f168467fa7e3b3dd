-- ===== src/CommTypes/Copies.antt =====
-- commCopyWaypoints and commCopyRanger of src/commtypes.c: a message's arrays into the caller's.
use pint.Common.{
  ℕ, ◌≤◌, ◌<◌, ◌≡◌, refl, ◌∙◌, List, arith, length, get_or, for_up_inv, length-set, get_or-set,
  eq_of_get_or, sym,
}
use pint.CommTypes.Fixed.{
  RangePoseData, WayRes, copy_entries, comm_copy_ranger, comm_copy_waypoints, ranger_count,
}

module _ {D : Type 0} (zero_d : D) where
  -- What the loop has copied when it comes to entry i.
  record Copied (from to : List D) (i : ℕ) (l : List D) : Type 0 where
    sized : length l ≡ length to
    done : (k : ℕ) → k < i → get_or l k zero_d ≡ get_or from k zero_d
    rest : (k : ℕ) → i ≤ k → get_or l k zero_d ≡ get_or to k zero_d

  copy_entries-Copied :
      (n : ℕ) (from to : List D) → n ≤ length to → Copied from to n (copy_entries zero_d n from to)
  unfolding copy_entries
  copy_entries-Copied n from to room =
      for_up_inv (Copied from to) _ n 0 n to (omega arith)
        (λ i l lt h. record {
          sized = length-set l i (get_or from i zero_d) ∙ h.sized;
          done = λ k le.
              ground (arith, h.sized, h.done k, get_or-set l i k (get_or from i zero_d) zero_d);
          rest = λ k ge.
              ground (arith, h.sized, h.rest k, get_or-set l i k (get_or from i zero_d) zero_d);
        })
        (record { sized = refl; done = λ k none_yet. absurd (omega arith); rest = λ k ge. refl })

  -- A copy between arrays of one length is the whole array.
  pub copy_entries_whole :
      (n : ℕ) (from to : List D)
      → length from ≡ n
      → length to ≡ n
      → copy_entries zero_d n from to ≡ from
  copy_entries_whole n from to lf lt =
      let h = copy_entries-Copied n from to (omega arith) in
      eq_of_get_or (copy_entries zero_d n from to) from zero_d (h.sized ∙ lt ∙ sym lf)
        (λ k below. h.done k (omega (arith, h.sized)))

  -- commCopyRanger, into arrays of at least 16 and 3 entries, copies each of the 16 ranges and each
  -- of the 3 entries of the pose, and leaves any entry behind them as it was.
  comm_copy_ranger_lem :
      (msg : RangePoseData D) (range_data pose_data : List D) (i j m : ℕ)
      → ranger_count ≤ length range_data
      → 3 ≤ length pose_data
      → i < ranger_count
      → j < 3
      → ranger_count ≤ m
      → let (ranges, pose) = comm_copy_ranger zero_d msg range_data pose_data in
        (get_or ranges i zero_d ≡ get_or msg.ranges i zero_d)
        × (get_or pose j zero_d ≡ get_or msg.pose j zero_d)
        × (get_or ranges m zero_d ≡ get_or range_data m zero_d)
        × (get_or pose m zero_d ≡ get_or pose_data m zero_d)
  unfolding comm_copy_ranger
  comm_copy_ranger_lem msg range_data pose_data i j m room_r room_p li lj lm =
      let r = copy_entries-Copied ranger_count msg.ranges range_data room_r in
      let p = copy_entries-Copied 3 msg.pose pose_data room_p in
      (r.done i li, p.done j lj, r.rest m lm, p.rest m (omega arith))

  -- commCopyWaypoints, into arrays of at least 3 entries, copies each of the 3 entries of the two
  -- waypoints and leaves any entry behind them as it was.
  comm_copy_waypoints_lem :
      (msg : WayRes D) (waypoints n_waypoints : List D) (i m : ℕ)
      → 3 ≤ length waypoints
      → 3 ≤ length n_waypoints
      → i < 3
      → 3 ≤ m
      → let (now, next) = comm_copy_waypoints zero_d msg waypoints n_waypoints in
        (get_or now i zero_d ≡ get_or msg.point i zero_d)
        × (get_or next i zero_d ≡ get_or msg.n_point i zero_d)
        × (get_or now m zero_d ≡ get_or waypoints m zero_d)
        × (get_or next m zero_d ≡ get_or n_waypoints m zero_d)
  unfolding comm_copy_waypoints
  comm_copy_waypoints_lem msg waypoints n_waypoints i m room room_n li lm =
      let a = copy_entries-Copied 3 msg.point waypoints room in
      let b = copy_entries-Copied 3 msg.n_point n_waypoints room_n in
      (a.done i li, b.done i li, a.rest m lm, b.rest m lm)
