-- ===== src/CommTypes/Stores.antt =====
-- What the loop of commSendMapUpdate in src/commtypes.c stores.
use pint.Common.{
  ℕ, zero, suc, ◌+◌, ◌*◌, ◌≤◌, ◌<◌, ◌≡◌, refl, sym, List, [], ◌∷◌, ◌++◌, arith, length, get_or,
  length-append,
}
use pint.Common.Int.{ℤ, pos, pos_part}
use mathlib.Core.List.{append_assoc, append-nil}
use pint.CommTypes.Bytes.{int_size}
use pint.CommTypes.Messages.{MapUpdate, gather, update_ints, max_typed_pipe_buff}

-- The coordinates of n obstacles from index i on.
pub pairs : ℕ → ℕ → List ℤ → List ℤ → List ℤ
pairs zero i xs ys = []
pairs (suc n) i xs ys = get_or xs i (pos 0) ∷ get_or ys i (pos 0) ∷ pairs n (i + 1) xs ys

pub length-pairs : (n i : ℕ) (xs ys : List ℤ) → length (pairs n i xs ys) ≡ 2 * n
unfolding pairs
length-pairs zero i xs ys = refl
length-pairs (suc n) i xs ys = omega (arith, length-pairs n (i + 1) xs ys)

-- The loop stores every obstacle, as long as they fit the array.
pub gather-pairs :
    (n i : ℕ) (xs ys buffer : List ℤ)
    → (length buffer + 2 * n) * int_size ≤ max_typed_pipe_buff
    → gather n i xs ys buffer ≡ buffer ++ pairs n i xs ys
unfolding gather pairs
gather-pairs zero i xs ys buffer fits = sym (append-nil buffer)
gather-pairs (suc n) i xs ys buffer fits =
    let last = get_or xs i (pos 0) ∷ get_or ys i (pos 0) ∷ [] in
    ground (
      arith,
      length-append buffer last,
      gather-pairs n (i + 1) xs ys (buffer ++ last),
      append_assoc buffer last (pairs n (i + 1) xs ys),
    )

pub get_or-pairs :
    (n i k : ℕ) (xs ys : List ℤ)
    → k < n
    → (get_or (pairs n i xs ys) (2 * k) (pos 0) ≡ get_or xs (i + k) (pos 0))
      × (get_or (pairs n i xs ys) (2 * k + 1) (pos 0) ≡ get_or ys (i + k) (pos 0))
unfolding pairs
get_or-pairs zero i k xs ys lt = absurd (omega arith)
get_or-pairs (suc n) i zero xs ys lt = ground arith
get_or-pairs (suc n) i (suc k) xs ys lt = ground (arith, get_or-pairs n (i + 1) k xs ys)

-- The store fails where the array of 1024 ints ends: with 511 obstacles or more the loop has
-- stored 1025 ints when it stops.
gather-overruns :
    (n i : ℕ) (xs ys buffer : List ℤ)
    → length buffer + 2 * n ≡ 1025
    → 0 < n
    → (m : ℕ) → n ≤ m
    → length (gather m i xs ys buffer) ≡ 1025
unfolding gather
gather-overruns n i xs ys buffer e some_left zero le = absurd (omega arith)
gather-overruns zero i xs ys buffer e some_left (suc m) le = absurd (omega arith)
gather-overruns (suc zero) i xs ys buffer e some_left (suc m) le =
    ground (arith, length-append buffer (get_or xs i (pos 0) ∷ get_or ys i (pos 0) ∷ []))
gather-overruns (suc (suc n)) i xs ys buffer e some_left (suc m) le =
    let last = get_or xs i (pos 0) ∷ get_or ys i (pos 0) ∷ [] in
    ground (
      arith,
      length-append buffer last,
      gather-overruns (suc n) (i + 1) xs ys (buffer ++ last)
          (omega (arith, length-append buffer last)) (omega arith) m (omega arith),
    )

-- The array of commSendMapUpdate has room for 1024 ints. A map update with 511 obstacles or more
-- makes the loop store 1025 of them, one past its end, before the test for the size stops it.
pub update_ints_overrun :
    (msg : MapUpdate) → 511 ≤ pos_part msg.obs_count → length (update_ints msg) ≡ 1025
unfolding update_ints
update_ints_overrun msg many =
    gather-overruns 511 0 msg.obs_x msg.obs_y (msg.pose_x ∷ msg.pose_y ∷ msg.obs_count ∷ []) refl
      (omega arith) (pos_part msg.obs_count) many
