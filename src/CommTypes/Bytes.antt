-- ===== src/CommTypes/Bytes.antt =====
-- The bytes of a C int: four of them, little-endian, two's complement.
use pint.Common.{
  ℕ, zero, suc, ◌+◌, ◌-◌, ◌*◌, ◌/◌, ◌%◌, ◌^◌, ◌≤◌, ◌<◌, ◌≡◌, refl, List, [], ◌∷◌, ◌++◌, arith, ltb,
  if◌then◌else◌, length, take, drop, get_or, get_or-drop, get_or-take,
}
use pint.Common.Int.{ℤ, pos, negsuc, pos_part, neg_part}

abbrev pub int_size : ℕ
int_size = 4

-- The bit pattern of an int.
abbrev pub pattern_of : ℤ → ℕ
pattern_of (pos n) = n % 2 ^ 32
pattern_of (negsuc n) = 2 ^ 32 - (n % 2 ^ 32) - 1

abbrev pub int_of : ℕ → ℤ
int_of w = if ltb w (2 ^ 31) then pos w else negsuc (2 ^ 32 - w - 1)

unfoldable pub int_bytes : ℤ → List ℕ
int_bytes z =
    let w = pattern_of z in
    (w % 256) ∷ (w / 2 ^ 8 % 256) ∷ (w / 2 ^ 16 % 256) ∷ (w / 2 ^ 24 % 256) ∷ []

-- The int at byte i of a buffer.
unfoldable pub int_at : List ℕ → ℕ → ℤ
int_at b i = int_of (
    get_or b i 0
    + 2 ^ 8 * get_or b (i + 1) 0
    + 2 ^ 16 * get_or b (i + 2) 0
    + 2 ^ 24 * get_or b (i + 3) 0)

-- An array of ints.
unfoldable pub ints_bytes : List ℤ → List ℕ
ints_bytes [] = []
ints_bytes (z ∷ zs) = int_bytes z ++ ints_bytes zs

-- z fits an int.
pub record IsInt (z : ℤ) : Type 0 where
  pub not_above : pos_part z < 2 ^ 31
  pub not_below : neg_part z ≤ 2 ^ 31

pub length-ints_bytes : (zs : List ℤ) → length (ints_bytes zs) ≡ int_size * length zs
unfolding ints_bytes int_bytes
length-ints_bytes [] = refl
length-ints_bytes (z ∷ zs) = omega (arith, length-ints_bytes zs)

pub int_at-int_bytes : (z : ℤ) (rest : List ℕ) → IsInt z → int_at (int_bytes z ++ rest) 0 ≡ z
unfolding int_at int_bytes
int_at-int_bytes (pos n) rest h = ground arith
int_at-int_bytes (negsuc n) rest h = ground arith

pub int_at-drop :
    (z : ℤ) (rest : List ℕ) (i : ℕ) → int_at (int_bytes z ++ rest) (4 + i) ≡ int_at rest i
unfolding int_at int_bytes
int_at-drop z rest i = ground arith

-- The k-th int of an array that was written is read back.
pub int_at-ints_bytes :
    (zs : List ℤ) (k : ℕ)
    → k < length zs
    → IsInt (get_or zs k (pos 0))
    → int_at (ints_bytes zs) (int_size * k) ≡ get_or zs k (pos 0)
unfolding ints_bytes
int_at-ints_bytes [] k lt h = absurd (omega arith)
int_at-ints_bytes (z ∷ zs) zero lt h = int_at-int_bytes z (ints_bytes zs) h
int_at-ints_bytes (z ∷ zs) (suc k) lt h =
    ground (arith, int_at-drop z (ints_bytes zs) (int_size * k), int_at-ints_bytes zs k)

pub int_at-drop_bytes : (b : List ℕ) (n i : ℕ) → int_at (drop n b) i ≡ int_at b (n + i)
unfolding int_at
int_at-drop_bytes b n i = ground (
  arith,
  get_or-drop n b i 0,
  get_or-drop n b (i + 1) 0,
  get_or-drop n b (i + 2) 0,
  get_or-drop n b (i + 3) 0,
)

pub int_at-take_bytes : (b : List ℕ) (n i : ℕ) → i + 4 ≤ n → int_at (take n b) i ≡ int_at b i
unfolding int_at
int_at-take_bytes b n i fits = ground (
  arith,
  get_or-take n b i 0,
  get_or-take n b (i + 1) 0,
  get_or-take n b (i + 2) 0,
  get_or-take n b (i + 3) 0,
)
