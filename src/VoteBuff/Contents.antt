-- ===== src/VoteBuff/Contents.antt =====
-- The bytes that a vote pipe of vote_buff.c holds, oldest first, and its well-formedness.
use pint.Common.{
  ℕ, zero, suc, ◌+◌, ◌-◌, ◌%◌, ◌≤◌, ◌<◌, ◌≡◌, refl, ap, List, [], ◌∷◌, ◌++◌, arith, length, get_or,
  take, drop, length-append, eq_of_get_or, get_or-append,
}
use pint.VoteBuff.{VotePipe, max_buff, copy_buffer}
use pint.VoteBuff.Memory.{slice, length-slice, get_or-slice}

-- The n bytes from index h on, going round at the end of the array.
unfoldable pub window : List ℕ → ℕ → ℕ → List ℕ
window buf h zero = []
window buf h (suc n) = get_or buf (h % max_buff) 0 ∷ window buf (h + 1) n

abbrev pub contents : VotePipe → List ℕ
contents p = window p.buffer p.buff_index p.buff_count

pub record IsValid (p : VotePipe) : Type 0 where
  pub sized : length p.buffer ≡ max_buff
  pub index_in : p.buff_index < max_buff
  pub count_in : p.buff_count < max_buff

pub length-window : (buf : List ℕ) (h n : ℕ) → length (window buf h n) ≡ n
unfolding window
length-window buf h zero = refl
length-window buf h (suc n) = ap suc (length-window buf (h + 1) n)

pub get_or-window :
    (buf : List ℕ) (h n k : ℕ)
    → k < n
    → get_or (window buf h n) k 0 ≡ get_or buf ((h + k) % max_buff) 0
unfolding window
get_or-window buf h zero k lt = absurd (omega arith)
get_or-window buf h (suc n) zero lt = ground arith
get_or-window buf h (suc n) (suc k) lt = ground (arith, get_or-window buf (h + 1) n k)

-- Only the index modulo the size of the array matters.
pub window_mod : (buf : List ℕ) (h n : ℕ) → window buf (h % max_buff) n ≡ window buf h n
window_mod buf h n =
    eq_of_get_or _ _ 0 (omega (arith, length-window buf (h % max_buff) n, length-window buf h n))
      λ k lt. ground (
        arith,
        length-window buf (h % max_buff) n,
        get_or-window buf (h % max_buff) n k,
        get_or-window buf h n k,
      )

pub take-window : (buf : List ℕ) (h n m : ℕ) → n ≤ m → take n (window buf h m) ≡ window buf h n
unfolding window
take-window buf h zero m le = refl
take-window buf h (suc n) zero le = absurd (omega arith)
take-window buf h (suc n) (suc m) le =
    ap (◌∷◌ (get_or buf (h % max_buff) 0)) (take-window buf (h + 1) n m (omega arith))

pub drop-window :
    (buf : List ℕ) (h n m : ℕ) → n ≤ m → drop n (window buf h m) ≡ window buf (h + n) (m - n)
unfolding window
drop-window buf h zero m le = ground arith
drop-window buf h (suc n) zero le = absurd (omega arith)
drop-window buf h (suc n) (suc m) le = ground (arith, drop-window buf (h + 1) n m)

slices_length :
    (buf : List ℕ) (h n : ℕ)
    → length buf ≡ max_buff
    → h < max_buff
    → n ≤ max_buff
    → max_buff ≤ h + n
    → length (slice buf h (max_buff - h) ++ slice buf 0 (n - (max_buff - h))) ≡ n
slices_length buf h n s hh hn wrap = omega (
  arith,
  length-append (slice buf h (max_buff - h)) (slice buf 0 (n - (max_buff - h))),
  length-slice buf h (max_buff - h),
  length-slice buf 0 (n - (max_buff - h)),
)

-- The two pieces, one at the end of the array and one at its start, make a window.
pub slices-window :
    (buf : List ℕ) (h n : ℕ)
    → length buf ≡ max_buff
    → h < max_buff
    → n ≤ max_buff
    → max_buff ≤ h + n
    → slice buf h (max_buff - h) ++ slice buf 0 (n - (max_buff - h)) ≡ window buf h n
slices-window buf h n s hh hn wrap =
    eq_of_get_or _ _ 0 (omega (arith, slices_length buf h n, length-window buf h n)) λ k lt.
      ground (
        arith,
        slices_length buf h n,
        get_or-append (slice buf h (max_buff - h)) (slice buf 0 (n - (max_buff - h))) k 0,
        length-slice buf h (max_buff - h),
        get_or-slice buf h (max_buff - h) k,
        get_or-slice buf 0 (n - (max_buff - h)) (k - (max_buff - h)),
        get_or-window buf h n k,
      )

-- One piece, where the range does not reach the end of the array.
pub slice-window :
    (buf : List ℕ) (h n : ℕ)
    → length buf ≡ max_buff
    → h + n ≤ max_buff
    → slice buf h n ≡ window buf h n
slice-window buf h n s fits =
    eq_of_get_or _ _ 0 (omega (arith, length-slice buf h n, length-window buf h n))
      λ k lt. ground (arith, length-slice buf h n, get_or-slice buf h n k, get_or-window buf h n k)

-- copyBuffer, and the gathering in buffToPipe, deliver the first n bytes of the contents.
pub copy_buffer-contents :
    (p : VotePipe) (n : ℕ) → IsValid p → n ≤ p.buff_count → copy_buffer p n ≡ take n (contents p)
unfolding copy_buffer
copy_buffer-contents p n v le = ground (
  arith,
  slice-window p.buffer p.buff_index n,
  slices-window p.buffer p.buff_index n,
  take-window p.buffer p.buff_index n p.buff_count,
)
