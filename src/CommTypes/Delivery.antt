-- ===== src/CommTypes/Delivery.antt =====
-- What commSendMapUpdate of src/commtypes.c writes, commRecvMapUpdate reads.
use pint.Common.{
  ℕ, suc, ◌+◌, ◌*◌, ◌≤◌, ◌<◌, ◌≡◌, ◌≢◌, refl, ap, sym, ◌∙◌, List, [], ◌∷◌, some, arith, length,
  get_or, take, drop, for_up_inv, length-set, length-take, length-drop, get_or-set,
}
use pint.Common.Int.{pos}
use pint.Os.{Os, Log, reads, writes}
use pint.CommTypes.Types.{TypedPipe, map_update}
use pint.CommTypes.Bytes.{
  int_at, ints_bytes, IsInt, length-ints_bytes, int_at-ints_bytes, int_at-take_bytes,
  int_at-drop_bytes,
}
use pint.CommTypes.Messages.{
  MapUpdate, update_ints, comm_send_map_update, store_obstacles, recv_obstacles,
  comm_recv_map_update,
}
use pint.CommTypes.Stores.{pairs, length-pairs, gather-pairs, get_or-pairs}

-- A map update that fits: its numbers are ints, and its obstacles fit the array.
pub record Fits (msg : MapUpdate) (n : ℕ) : Type 0 where
  pub counted : msg.obs_count ≡ pos n
  pub some_obs : 0 < n
  pub few : n ≤ 510
  pub pose_x_int : IsInt msg.pose_x
  pub pose_y_int : IsInt msg.pose_y
  pub obs_x_int : (k : ℕ) → k < n → IsInt (get_or msg.obs_x k (pos 0))
  pub obs_y_int : (k : ℕ) → k < n → IsInt (get_or msg.obs_y k (pos 0))

module _ (msg : MapUpdate) (n : ℕ) (f : Fits msg n) where
  update_ints-pairs :
      update_ints msg ≡ msg.pose_x ∷ msg.pose_y ∷ msg.obs_count ∷ pairs n 0 msg.obs_x msg.obs_y
  unfolding update_ints
  update_ints-pairs = ground (
    arith,
    f.counted,
    f.few,
    gather-pairs n 0 msg.obs_x msg.obs_y (msg.pose_x ∷ msg.pose_y ∷ msg.obs_count ∷ []),
  )

  -- The bytes on the wire, header and obstacles.
  header-sent :
      (int_at (ints_bytes (update_ints msg)) 0 ≡ msg.pose_x)
      × (int_at (ints_bytes (update_ints msg)) 4 ≡ msg.pose_y)
      × (int_at (ints_bytes (update_ints msg)) 8 ≡ pos n)
  header-sent =
      let zs = msg.pose_x ∷ msg.pose_y ∷ msg.obs_count ∷ pairs n 0 msg.obs_x msg.obs_y in
      rw update_ints-pairs (
        int_at-ints_bytes zs 0 (omega arith) f.pose_x_int,
        int_at-ints_bytes zs 1 (omega arith) f.pose_y_int,
        int_at-ints_bytes zs 2 (omega arith) count_int ∙ f.counted,
      )
    where
      count_int : IsInt msg.obs_count
      count_int = rw f.counted (omega (arith, f.few))

  obstacle-sent :
      (k : ℕ)
      → k < n
      → (int_at (ints_bytes (update_ints msg)) (4 * (2 * k + 3)) ≡ get_or msg.obs_x k (pos 0))
        × (int_at (ints_bytes (update_ints msg)) (4 * (2 * k + 4)) ≡ get_or msg.obs_y k (pos 0))
  obstacle-sent k lt =
      let ps = pairs n 0 msg.obs_x msg.obs_y in
      let zs = msg.pose_x ∷ msg.pose_y ∷ msg.obs_count ∷ ps in
      let p = get_or-pairs n 0 k msg.obs_x msg.obs_y lt in
      let x_int : IsInt (get_or ps (2 * k) (pos 0)) = rw p.0 (f.obs_x_int (0 + k) (omega arith)) in
      let y_int : IsInt (get_or ps (2 * k + 1) (pos 0)) =
        rw p.1 (f.obs_y_int (0 + k) (omega arith)) in
      rw update_ints-pairs (
        ground (
          arith,
          length-pairs n 0 msg.obs_x msg.obs_y,
          p,
          int_at-ints_bytes zs (suc (suc (suc (2 * k))))
              (omega (arith, length-pairs n 0 msg.obs_x msg.obs_y)) x_int,
          int_at-ints_bytes zs (suc (suc (suc (2 * k + 1))))
              (omega (arith, length-pairs n 0 msg.obs_x msg.obs_y)) y_int,
        ))

  length-sent : length (ints_bytes (update_ints msg)) ≡ 12 + 8 * n
  length-sent = rw update_ints-pairs (
      omega (
        arith,
        length-ints_bytes (msg.pose_x ∷ msg.pose_y ∷ msg.obs_count ∷ pairs n 0 msg.obs_x msg.obs_y),
        length-pairs n 0 msg.obs_x msg.obs_y,
      ))

-- What the loop of the receiver has stored when it comes to obstacle i.
record Stored (bytes : List ℕ) (old : MapUpdate) (i : ℕ) (m : MapUpdate) : Type 0 where
  pose_x : m.pose_x ≡ old.pose_x
  pose_y : m.pose_y ≡ old.pose_y
  count : m.obs_count ≡ old.obs_count
  room_x : length m.obs_x ≡ length old.obs_x
  room_y : length m.obs_y ≡ length old.obs_y
  done_x : (k : ℕ) → k < i → get_or m.obs_x k (pos 0) ≡ int_at bytes (4 * (2 * k))
  done_y : (k : ℕ) → k < i → get_or m.obs_y k (pos 0) ≡ int_at bytes (4 * (2 * k + 1))

store_obstacles-Stored :
    (bytes : List ℕ) (n : ℕ) (old : MapUpdate)
    → n ≤ length old.obs_x
    → n ≤ length old.obs_y
    → Stored bytes old n (store_obstacles bytes n old)
unfolding store_obstacles
store_obstacles-Stored bytes n old room_x room_y =
    for_up_inv (Stored bytes old) _ n 0 n old (omega arith)
      (λ i m lt h. record {
        pose_x = h.pose_x;
        pose_y = h.pose_y;
        count = h.count;
        room_x = length-set m.obs_x i (int_at bytes (4 * (2 * i))) ∙ h.room_x;
        room_y = length-set m.obs_y i (int_at bytes (4 * (2 * i + 1))) ∙ h.room_y;
        done_x = λ k le. ground (
          arith,
          h.done_x k,
          h.room_x,
          get_or-set m.obs_x i k (int_at bytes (4 * (2 * i))) (pos 0),
        );
        done_y = λ k le. ground (
          arith,
          h.done_y k,
          h.room_y,
          get_or-set m.obs_y i k (int_at bytes (4 * (2 * i + 1))) (pos 0),
        );
      })
      (record {
        pose_x = refl;
        pose_y = refl;
        count = refl;
        room_x = refl;
        room_y = refl;
        done_x = λ k none_yet. absurd (omega arith);
        done_y = λ k none_yet. absurd (omega arith);
      })

recv-two_reads :
    (os : Os) (to : TypedPipe) (old : MapUpdate) (u : Log) (header obstacles : List ℕ) (n : ℕ)
    → to.fd_in ≢ 0
    → to.type ≡ map_update
    → os.read_answer u to.fd_in 12 ≡ some header
    → os.read_answer (reads to.fd_in 12 ∷ u) to.fd_in (8 * n) ≡ some obstacles
    → length header ≡ 12
    → length obstacles ≡ 8 * n
    → int_at header 8 ≡ pos n
    → 0 < n
    → comm_recv_map_update os to old u ≡ (
      pos (8 * n),
      store_obstacles obstacles n
          (record old { pose_x = int_at header 0; pose_y = int_at header 4; obs_count = pos n }),
      reads to.fd_in (8 * n) ∷ reads to.fd_in 12 ∷ u,
    )
unfolding comm_recv_map_update recv_obstacles
recv-two_reads os to old u header obstacles n fd t first second l1 l2 count some_obs = ground arith

sent-bytes :
    (os : Os) (from : TypedPipe) (msg : MapUpdate) (w : Log) (bytes : List ℕ)
    → from.fd_out ≢ 0
    → from.type ≡ map_update
    → (comm_send_map_update os from msg w).1 ≡ writes from.fd_out bytes ∷ w
    → bytes ≡ ints_bytes (update_ints msg)
unfolding comm_send_map_update
sent-bytes os from msg w bytes fd t e = ground arith

-- A map update that fits, written by commSendMapUpdate in one write and read back by
-- commRecvMapUpdate in two, header and obstacles, arrives: the position, the count, and the
-- coordinates of each obstacle k, in arrays with room for them.
pub map_update_arrives :
    (os : Os) (from to : TypedPipe) (msg old : MapUpdate) (n k : ℕ) (bytes : List ℕ) (w u : Log)
    → Fits msg n
    → k < n
    → from.fd_out ≢ 0
    → from.type ≡ map_update
    → to.fd_in ≢ 0
    → to.type ≡ map_update
    → n ≤ length old.obs_x
    → n ≤ length old.obs_y
    → (comm_send_map_update os from msg w).1 ≡ writes from.fd_out bytes ∷ w
    → os.read_answer u to.fd_in 12 ≡ some (take 12 bytes)
    → os.read_answer (reads to.fd_in 12 ∷ u) to.fd_in (8 * n) ≡ some (drop 12 bytes)
    → let (ret, m, u') = comm_recv_map_update os to old u in
      (ret ≡ pos (8 * n))
      × (m.pose_x ≡ msg.pose_x)
      × (m.pose_y ≡ msg.pose_y)
      × (m.obs_count ≡ msg.obs_count)
      × (get_or m.obs_x k (pos 0) ≡ get_or msg.obs_x k (pos 0))
      × (get_or m.obs_y k (pos 0) ≡ get_or msg.obs_y k (pos 0))
map_update_arrives os from to msg old n k bytes w u f lt fd t fd' t' rx ry sent first second =
    rw received (
      refl,
      stored.pose_x ∙ int_at-take_bytes bytes 12 0 (omega arith) ∙ rw same (header-sent msg n f).0,
      stored.pose_y ∙ int_at-take_bytes bytes 12 4 (omega arith) ∙ rw same (header-sent msg n f).1,
      stored.count ∙ sym f.counted,
      stored.done_x k lt
          ∙ from_wire (4 * (2 * k)) (4 * (2 * k + 3)) (omega arith)
          ∙ (obstacle-sent msg n f k lt).0,
      stored.done_y k lt
          ∙ from_wire (4 * (2 * k + 1)) (4 * (2 * k + 4)) (omega arith)
          ∙ (obstacle-sent msg n f k lt).1,
    )
  where
    same : bytes ≡ ints_bytes (update_ints msg)
    same = sent-bytes os from msg w bytes fd t sent

    size : length bytes ≡ 12 + 8 * n
    size = rw same (length-sent msg n f)

    header : MapUpdate
    header = record old {
      pose_x = int_at (take 12 bytes) 0;
      pose_y = int_at (take 12 bytes) 4;
      obs_count = pos n;
    }

    received : comm_recv_map_update os to old u ≡ (
      pos (8 * n),
      store_obstacles (drop 12 bytes) n header,
      reads to.fd_in (8 * n) ∷ reads to.fd_in 12 ∷ u,
    )
    received =
        recv-two_reads os to old u (take 12 bytes) (drop 12 bytes) n fd' t' first second
          (omega (arith, length-take 12 bytes, size)) (omega (arith, length-drop 12 bytes, size))
          (int_at-take_bytes bytes 12 8 (omega arith) ∙ rw same (header-sent msg n f).2) f.some_obs

    stored : Stored (drop 12 bytes) header n (store_obstacles (drop 12 bytes) n header)
    stored = store_obstacles-Stored (drop 12 bytes) n header rx ry

    from_wire :
        (i j : ℕ) → 12 + i ≡ j → int_at (drop 12 bytes) i ≡ int_at (ints_bytes (update_ints msg)) j
    from_wire i j e = int_at-drop_bytes bytes 12 i ∙ ap (int_at bytes) e ∙ ap (λ b. int_at b j) same
