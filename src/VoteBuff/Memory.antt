-- ===== src/VoteBuff/Memory.antt =====
-- memcpy and memcmp over the bytes of an array, as vote_buff.c calls them.
use pint.Common.{
  ℕ, zero, suc, ◌+◌, ◌-◌, ◌≤◌, ◌<◌, ◌≡◌, refl, ◌↔◌, ap, List, [], ◌∷◌, arith, ltb, leb,
  if◌then◌else◌, length, get_or, take, drop, length-take, length-drop, get_or-take, get_or-drop,
  ◌&&◌, not, ◌++◌, append-injective,
}
use pint.Common.Int.{ℤ, pos, negsuc, is_zero}

-- The n bytes from index i.
unfoldable pub slice : List ℕ → ℕ → ℕ → List ℕ
slice buf i n = take n (drop i buf)

-- memcpy(&buf[i], bytes, length of bytes); what would lie past the end of the array is cut off.
unfoldable pub splice : List ℕ → ℕ → List ℕ → List ℕ
splice [] i bytes = []
splice (x ∷ xs) zero [] = x ∷ xs
splice (x ∷ xs) zero (b ∷ bytes) = b ∷ splice xs zero bytes
splice (x ∷ xs) (suc i) bytes = x ∷ splice xs i bytes

-- Zero for equal bytes, else the sign of the first difference. The code looks at nothing more.
unfoldable pub memcmp : List ℕ → List ℕ → ℤ
memcmp [] ys = pos 0
memcmp (x ∷ xs) [] = pos 0
memcmp (x ∷ xs) (y ∷ ys) =
    let rest = memcmp xs ys in if ltb x y then negsuc 0 else if ltb y x then pos 1 else rest

pub length-slice : (buf : List ℕ) (i n : ℕ) → i + n ≤ length buf → length (slice buf i n) ≡ n
unfolding slice
length-slice buf i n h = omega (arith, length-take n (drop i buf), length-drop i buf)

pub get_or-slice :
    (buf : List ℕ) (i n k : ℕ) → k < n → get_or (slice buf i n) k 0 ≡ get_or buf (i + k) 0
unfolding slice
get_or-slice buf i n k h = ground (arith, get_or-take n (drop i buf) k 0, get_or-drop i buf k 0)

pub length-splice :
    (buf : List ℕ) (i : ℕ) (bytes : List ℕ) → length (splice buf i bytes) ≡ length buf
unfolding splice
length-splice [] i bytes = refl
length-splice (x ∷ xs) zero [] = refl
length-splice (x ∷ xs) zero (b ∷ bytes) = ap suc (length-splice xs zero bytes)
length-splice (x ∷ xs) (suc i) bytes = ap suc (length-splice xs i bytes)

-- A copied range holds the bytes copied, and the rest of the array is as it was.
pub get_or-splice :
    (buf : List ℕ) (i : ℕ) (bytes : List ℕ) (j : ℕ)
    → j < length buf
    → get_or (splice buf i bytes) j 0
      ≡ (if leb i j && ltb j (i + length bytes) then get_or bytes (j - i) 0 else get_or buf j 0)
unfolding splice
get_or-splice [] i bytes j h = absurd (omega arith)
get_or-splice (x ∷ xs) zero [] j h = ground arith
get_or-splice (x ∷ xs) zero (b ∷ bytes) zero h = ground arith
get_or-splice (x ∷ xs) zero (b ∷ bytes) (suc j) h = ground (arith, get_or-splice xs zero bytes j)
get_or-splice (x ∷ xs) (suc i) bytes zero h = ground arith
get_or-splice (x ∷ xs) (suc i) bytes (suc j) h = ground (arith, get_or-splice xs i bytes j)

pub memcmp_iff : (xs ys : List ℕ) → length xs ≡ length ys → (memcmp xs ys ≡ pos 0) ↔ (xs ≡ ys)
unfolding memcmp
memcmp_iff [] [] h = ground arith
memcmp_iff [] (y ∷ ys) h = absurd (omega arith)
memcmp_iff (x ∷ xs) [] h = absurd (omega arith)
memcmp_iff (x ∷ xs) (y ∷ ys) h = ground (arith, memcmp_iff xs ys)

-- Comparing in two pieces, the second only where the first agrees, compares the whole.
pub memcmp-append_iff :
    (xs xs' ys ys' : List ℕ)
    → length xs ≡ length xs'
    → length ys ≡ length ys'
    → ((if not (is_zero (memcmp xs xs')) then memcmp xs xs' else memcmp ys ys') ≡ pos 0)
      ↔ ((xs ++ ys) ≡ (xs' ++ ys'))
memcmp-append_iff xs xs' ys ys' ex ey = (
  (λ h. ground (arith, memcmp_iff xs xs', memcmp_iff ys ys')),
  λ h. ground (arith, memcmp_iff xs xs', memcmp_iff ys ys', append-injective xs xs' ys ys'),
)
