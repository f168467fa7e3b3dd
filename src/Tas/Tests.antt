-- ===== src/Tas/Tests.antt =====
-- The theorem about tas_lib/force.c on two lines, of which only the first one is of memory that can be
-- written.
use pint.Common.{ℕ, ◌+◌, ◌*◌, ◌-◌, ◌≡◌, refl, List, [], ◌∷◌, some, Returns, arith, map}
use pint.Common.Int.{pos}
use pint.Tas.Maps.{force_maps}
use pint.Tas.Walked.{MapLine, Without, IsMapLine, AllLines, line_text, Walked, force_maps-Walked}

-- Hexadecimal numbers of decimal digits.
abbrev digits : ℕ → List ℕ → ℕ
digits acc [] = acc
digits acc (c ∷ text) = digits (acc * 16 + (c - b'0')) text

abbrev heap : MapLine
heap = record {
  from_text = b'4' ∷ b'0' ∷ b'0' ∷ b'0' ∷ [];
  to_text = b'6' ∷ b'0' ∷ b'0' ∷ b'0' ∷ [];
  read_flag = b'r';
  write_flag = b'w';
  rest = b'-' ∷ b'p' ∷ [];
}

abbrev code : MapLine
code = record heap { write_flag = b'-' }

heap_touched :
    force_maps (digits 0) (some (line_text heap ∷ line_text code ∷ []))
    ≡ some (pos 0, 16384 ∷ 18432 ∷ 20480 ∷ 22528 ∷ [])
unfolding force_maps
heap_touched = refl

both-AllLines : AllLines (digits 0) (heap ∷ code ∷ [])
both-AllLines = (by_flag b'w', (by_flag b'-', tt))
  where
    from_clean : Without b'-' heap.from_text
    from_clean = (
      (λ e. ground arith),
      ((λ e. ground arith), ((λ e. ground arith), ((λ e. ground arith), tt))),
    )

    to_clean : Without b' ' heap.to_text
    to_clean = (
      (λ e. ground arith),
      ((λ e. ground arith), ((λ e. ground arith), ((λ e. ground arith), tt))),
    )

    by_flag : (w : ℕ) → IsMapLine (digits 0) (record heap { write_flag = w })
    by_flag w = record {
      no_dash = from_clean;
      no_space = to_clean;
      from_fits = omega arith;
      to_fits = omega arith;
      aligned = omega arith;
      room = omega arith;
    }

force_maps-Walked_example :
    Returns
      (λ r. (r.0 ≡ pos 0) × Walked (digits 0) (heap ∷ code ∷ []) r.1)
      (force_maps (digits 0) (some (map line_text (heap ∷ code ∷ []))))
force_maps-Walked_example = force_maps-Walked (digits 0) (heap ∷ code ∷ []) both-AllLines
